-- ===== src/Approval/Liveness/Waits.antt =====
-- A wait on a pending ticket that is in memory, round by round.
use agdd.Prelude.{
  ℕ, ◌<◌, ◌≤◌, String, ◌≡◌, refl, Option, some, List, [], ◌∷◌, ◌++◌, arith, All, get_or,
}
use agdd.Dict
use agdd.Dict.{Dict, get-put_self}
use agdd.Value.{Fields, end}
use agdd.Result.{ok, raise}
use agdd.Approval.Ticket.{Status, pending, approved, denied, Ticket}
use agdd.Approval.Gate.{Outside, Backend, Gate, timeout_error, denied_error}
use agdd.Approval.Resolve.{
  resolve_ticket, resolved, resolve_found, find_pending, approve_ticket, deny_ticket, denial,
}
use agdd.Approval.Execution.{
  Round, approve, deny, waiting, decided, poll, poll_status, restore_args, wait_for_decision, act,
  act_all,
}
use agdd.Approval.Lookup.{tickets-persist, get_ticket_known}

-- Rounds in which nobody else acts.
abbrev pub quiet : List ℕ → List Round
quiet [] = []
quiet (n ∷ l) = record { before = []; now = n } ∷ quiet l

-- The ticket is in memory, under its own identifier, and nobody has decided on it.
pub record IsOpen {S : Type 0} (t : Ticket) (g : Gate S) : Type 0 where
  pub found : Dict.get g.tickets t.ticket_id ≡ some t
  pub open_status : t.status ≡ pending

module _ {S : Type 0} (b : Backend S) (out : Outside) (n : ℕ) (t u : Ticket) (g : Gate S)
    (known : Dict.get g.tickets t.ticket_id ≡ some u) where
  poll-approved :
      u.status ≡ approved
      → n < u.expires_at
      → (poll b out n t g).1 ≡ decided (ok (restore_args t u))
  unfolding poll poll_status
  poll-approved h e = ground (arith, get_ticket_known b out t.ticket_id u g known)

  poll-denied :
      u.status ≡ denied → n < u.expires_at → (poll b out n t g).1 ≡ decided (raise denied_error)
  unfolding poll poll_status
  poll-denied h e = ground (arith, get_ticket_known b out t.ticket_id u g known)

module _ {S : Type 0} (b : Backend S) (out : Outside) (t : Ticket) (g : Gate S)
    (open_ : IsOpen t g) where
  poll_early : (n : ℕ) → n < t.expires_at → poll b out n t g ≡ (g, waiting)
  unfolding poll poll_status
  poll_early n h =
      ground (arith, get_ticket_known b out t.ticket_id t g open_.found, open_.open_status)

  pub wait_quiet :
      (early : List ℕ) (rounds : List Round)
      → All (λ n. n < t.expires_at) early
      → wait_for_decision b out (quiet early ++ rounds) t g ≡ wait_for_decision b out rounds t g
  unfolding wait_for_decision act_all
  wait_quiet [] rounds h = refl
  wait_quiet (n ∷ early) rounds h = ground (arith, poll_early n h.0, wait_quiet early rounds h.1)

  -- A poll after the ticket's time ends the wait, and the ticket is expired in memory.
  pub poll_late :
      (n : ℕ) → t.expires_at ≤ n → ((poll b out n t g).1 ≡ decided (raise timeout_error))
  unfolding poll
  poll_late n h = ground (arith, get_ticket_known b out t.ticket_id t g open_.found)

  pub wait_late :
      (n : ℕ) (rest : List ℕ)
      → t.expires_at ≤ n
      → (wait_for_decision b out (quiet (n ∷ rest)) t g).1 ≡ decided (raise timeout_error)
  unfolding wait_for_decision act_all
  wait_late n rest h = rw (poll_late n h, wait_for_decision)

  -- An approval or a denial of the open ticket.
  resolve_open :
      (now : ℕ) (status : Status) (by : String) (reason : Option String) (response : Fields)
      → Dict.get
          (resolve_found b out now status by reason response
            (find_pending b out t.ticket_id g)).0.tickets
          t.ticket_id
        ≡ some (resolved now status by reason response t)
  unfolding find_pending resolve_ticket
  resolve_open now status by reason response =
      rw (get_ticket_known b out t.ticket_id t g open_.found) (
        rw (open_.open_status) (
          rw tickets-persist
            (get-put_self g.tickets t.ticket_id (resolved now status by reason response t))))

  -- After an approval, a poll before the ticket's time returns the ticket.
  poll_approved :
      (at now : ℕ) (by : String) (response : Option Fields) (reason : Option String)
      → now < t.expires_at
      → (poll b out now t (act b out (approve at t.ticket_id by response reason) g)).1
        ≡ decided (ok (restore_args t (resolved at approved by reason (get_or response end) t)))
  unfolding act approve_ticket
  poll_approved at now by response reason h =
      poll-approved b out now t (resolved at approved by reason (get_or response end) t)
        (approve_ticket b out at t.ticket_id by response reason g).0
        (resolve_open at approved by reason (get_or response end)) refl h

  poll_denied :
      (at now : ℕ) (by : String) (reason : Option String) (response : Option Fields)
      → now < t.expires_at
      → (poll b out now t (act b out (deny at t.ticket_id by reason response) g)).1
        ≡ decided (raise denied_error)
  unfolding act deny_ticket
  poll_denied at now by reason response h =
      poll-denied b out now t (resolved at denied by reason (denial response reason) t)
        (deny_ticket b out at t.ticket_id by reason response g).0
        (resolve_open at denied by reason (denial response reason)) refl h

  pub wait_approved :
      (early : List ℕ) (at now : ℕ) (by : String) (response : Option Fields)
      (reason : Option String) (rest : List Round)
      → All (λ n. n < t.expires_at) early
      → now < t.expires_at
      → (wait_for_decision b out
          (quiet early
            ++ (record { before = approve at t.ticket_id by response reason ∷ []; now = now }
                ∷ rest))
          t
          g).1
        ≡ decided (ok (restore_args t (resolved at approved by reason (get_or response end) t)))
  unfolding wait_for_decision act_all
  wait_approved early at now by response reason rest he h =
      rw (wait_quiet early _ he)
        (rw (poll_approved at now by response reason h, wait_for_decision) refl)

  pub wait_denied :
      (early : List ℕ) (at now : ℕ) (by : String) (reason : Option String)
      (response : Option Fields) (rest : List Round)
      → All (λ n. n < t.expires_at) early
      → now < t.expires_at
      → (wait_for_decision b out
          (quiet early
            ++ (record { before = deny at t.ticket_id by reason response ∷ []; now = now } ∷ rest))
          t
          g).1
        ≡ decided (raise denied_error)
  unfolding wait_for_decision act_all
  wait_denied early at now by reason response rest he h =
      rw (wait_quiet early _ he)
        (rw (poll_denied at now by reason response h, wait_for_decision) refl)
