-- ===== src/Approval/Safety/Guard.antt =====
-- The invariant: every ticket stands under its own identifier, and one ticket is there and is not
-- approved. Every action keeps it but an approval of that ticket.
use agdd.Prelude.{
  ℕ, String, ◌≡◌, ◌≢◌, refl, Bool, false, ◌||◌, Option, none, some, List, [], ◌∷◌, arith, str_eq,
  eq_iff, leb, ◌+◌, Bool-cases, Option-cases, inl, inr, ap,
}
use agdd.Dict
use agdd.Dict.{Dict, get-put, get-put_self}
use agdd.Value.{Fields}
use agdd.Result.{Result, ok, raise}
use agdd.Approval.Ticket.{
  is_expired, Status, approved, denied, expired, Ticket, TicketRecord, ticket_from_record,
}
use agdd.Approval.Gate.{Outside, Backend, Gate, GateError}
use agdd.Approval.Create.{timeout_of, new_ticket, create_ticket}
use agdd.Approval.Resolve.{
  keep_first, get_ticket, resolve_ticket, resolved, resolve_found, find_pending, approve_ticket,
  deny_ticket, expire_ticket,
}
use agdd.Approval.Sweep.{list_pending_tickets, expire_each, expire_old_tickets}
use agdd.Approval.Execution.{
  Action, create, look_up, approve, deny, list_pending, sweep, act, act_all,
}
use agdd.Approval.Lookup.{tickets-persist, tickets-ensure_run, known, missing, loaded, fetch}

-- The backend returns a ticket only under its own identifier.
pub record IsFaithful {S : Type 0} (b : Backend S) : Type 0 where
  pub at :
      (s : S) (id : String) (r : TicketRecord)
      → (b.get_approval_ticket s id).0 ≡ some (some r)
      → r.ticket_id ≡ id

pub record IsKeyed (d : Dict Ticket) : Type 0 where
  pub at : (j : String) (t : Ticket) → Dict.get d j ≡ some t → t.ticket_id ≡ j

pub record Guard (id : String) (d : Dict Ticket) : Type 0 where
  pub keyed : IsKeyed d
  pub ticket : Ticket
  pub found : Dict.get d id ≡ some ticket
  pub unapproved : ticket.status ≢ approved

pub put-IsKeyed : (d : Dict Ticket) (t : Ticket) → IsKeyed d → IsKeyed (Dict.put d t.ticket_id t)
put-IsKeyed d t h = record {
  at = λ j u e. ground (arith, get-put d t.ticket_id j t, eq_iff t.ticket_id j, h.at j u);
}

module _ (id : String) where
  put-Guard :
      (d : Dict Ticket) (t : Ticket)
      → Guard id d
      → (t.ticket_id ≡ id → t.status ≢ approved)
      → Guard id (Dict.put d t.ticket_id t)
  put-Guard d t h ok_if = elim (Bool-cases (str_eq t.ticket_id id)) [
    | inl e ↦ record {
      keyed = put-IsKeyed d t h.keyed;
      ticket = t;
      found = ground (arith, get-put d t.ticket_id id t);
      unapproved = ok_if ((eq_iff t.ticket_id id).0 e);
    }
    | inr e ↦ record {
      keyed = put-IsKeyed d t h.keyed;
      ticket = h.ticket;
      found = ground (arith, get-put d t.ticket_id id t, h.found);
      unapproved = h.unapproved;
    }
  ]

  keep_first-Guard : (d : Dict Ticket) (t : Ticket) → Guard id d → Guard id (keep_first d t)
  keep_first-Guard d t h = elim (Option-cases (Dict.get d t.ticket_id)) [
    | inl e ↦
        rw (e, keep_first)
          (put-Guard d t h (λ same. absurd (cc (ap (Dict.get d) same, e, h.found))))
    | inr (u, e) ↦ rw (e, keep_first) h
  ]

  module _ {S : Type 0} (b : Backend S) (out : Outside) where
    get_ticket-Guard :
        (j : String) (g : Gate S) → Guard id g.tickets → Guard id (get_ticket b out j g).0.tickets
    get_ticket-Guard j g h = elim (fetch b out j g) [
      | known t e f ↦ rw f h
      | missing e f ↦ rw e h
      | loaded s r a e f ↦ rw e (keep_first-Guard g.tickets (ticket_from_record r) h)
    ]

    -- A ticket that is handed out bears the identifier that was asked for.
    get_ticket-id :
        IsFaithful b
        → (j : String) (g : Gate S) (t : Ticket) → IsKeyed g.tickets
        → (get_ticket b out j g).1 ≡ some t
        → t.ticket_id ≡ j
    unfolding ticket_from_record
    get_ticket-id faithful j g t h q = elim (fetch b out j g) [
      | known u e f ↦ h.at j t (ground arith)
      | missing e f ↦ absurd (cc)
      | loaded s r a e f ↦ ground (arith, faithful.at s j r a)
    ]

    resolve_ticket-Guard :
        (now : ℕ) (status : Status) (by : String) (reason : Option String) (response : Fields)
        (t : Ticket) (g : Gate S)
        → Guard id g.tickets
        → (t.ticket_id ≡ id → status ≢ approved)
        → Guard id (resolve_ticket b out now status by reason response t g).0.tickets
    unfolding resolve_ticket
    resolve_ticket-Guard now status by reason response t g h ok_if =
        rw tickets-persist (put-Guard g.tickets (resolved now status by reason response t) h ok_if)

    expire_ticket-Guard :
        (now : ℕ) (t : Ticket) (g : Gate S)
        → Guard id g.tickets
        → Guard id (expire_ticket b out now t g).0.tickets
    unfolding expire_ticket
    expire_ticket-Guard now t g h = elim (Bool-cases (is_expired t.status)) [
      | inl e ↦ rw (e, expire_ticket) h
      | inr e ↦ rw (e, expire_ticket) (resolve_ticket-Guard now expired _ _ _ t g h (λ _. λ q. cc))
    ]

    expire_each-Guard :
        (now : ℕ) (l : List Ticket) (n : ℕ) (g : Gate S)
        → Guard id g.tickets
        → Guard id (expire_each b out now l n g).0.tickets
    unfolding expire_each
    expire_each-Guard now [] n g h = h
    expire_each-Guard now (t ∷ l) n g h = elim (Bool-cases (leb t.expires_at now)) [
      | inl e ↦
          rw (e, expire_each)
            (expire_each-Guard now l (n + 1) (expire_ticket b out now t g).0
              (expire_ticket-Guard now t g h))
      | inr e ↦ rw (e, expire_each) (expire_each-Guard now l n g h)
    ]

    tickets-list_pending_tickets :
        (run_id agent_slug : Option String) (g : Gate S)
        → (list_pending_tickets b out run_id agent_slug g).0.tickets ≡ g.tickets
    unfolding list_pending_tickets
    tickets-list_pending_tickets run_id agent_slug g = ground arith

    expire_old_tickets-Guard :
        (now : ℕ) (g : Gate S)
        → Guard id g.tickets
        → Guard id (expire_old_tickets b out now g).0.tickets
    unfolding expire_old_tickets
    expire_old_tickets-Guard now g h =
        expire_each-Guard now (list_pending_tickets b out none none g).1 0
          (list_pending_tickets b out none none g).0 (rw tickets-list_pending_tickets h)

    find_pending-Guard :
        (j : String) (g : Gate S) → Guard id g.tickets → Guard id (find_pending b out j g).0.tickets
    unfolding find_pending
    find_pending-Guard j g h = get_ticket-Guard j g h

    find_pending-id :
        IsFaithful b
        → (j : String) (g : Gate S) (t : Ticket) → IsKeyed g.tickets
        → (find_pending b out j g).1 ≡ ok t
        → t.ticket_id ≡ j
    unfolding find_pending
    find_pending-id faithful j g t h q = elim (Option-cases (get_ticket b out j g).1) [
      | inl e ↦ absurd (ground arith)
      | inr (u, e) ↦ ground (arith, get_ticket-id faithful j g u h e)
    ]

    resolve_found-Guard :
        (now : ℕ) (status : Status) (by : String) (reason : Option String) (response : Fields)
        (g : Gate S) (found : Result GateError Ticket)
        → Guard id g.tickets
        → ((t : Ticket) → found ≡ ok t → t.ticket_id ≡ id → status ≢ approved)
        → Guard id (resolve_found b out now status by reason response (g, found)).0.tickets
    resolve_found-Guard now status by reason response g (raise e) h ok_if = h
    resolve_found-Guard now status by reason response g (ok t) h ok_if =
        resolve_ticket-Guard now status by reason response t g h (ok_if t refl)

-- An approval of the ticket `id`.
abbrev pub approves : String → Action → Bool
approves id (approve now j by response reason) = str_eq j id
approves id _ = false

abbrev pub approved_in : String → List Action → Bool
approved_in id [] = false
approved_in id (a ∷ l) = approves id a || approved_in id l

module _ (id : String) {S : Type 0} (b : Backend S) (out : Outside) (faithful : IsFaithful b) where
  -- What an approval under another identifier finds is another ticket.
  other_found :
      (j : String) (g : Gate S) (t : Ticket)
      → Guard id g.tickets
      → str_eq j id ≡ false
      → (find_pending b out j g).1 ≡ ok t
      → t.ticket_id ≢ id
  other_found j g t h ne q same =
      ground (arith, find_pending-id id b out faithful j g t h.keyed q, eq_iff j id)

  create_ticket-Guard :
      (now : ℕ) (fresh run_id agent_slug tool_name : String) (tool_args : Fields)
      (step_id : Option String) (timeout : Option ℕ) (metadata : Option Fields) (g : Gate S)
      → Guard id g.tickets
      → Guard id
          (create_ticket b out now fresh run_id agent_slug tool_name tool_args step_id timeout
            metadata g).0.tickets
  unfolding create_ticket new_ticket
  create_ticket-Guard now fresh run_id agent_slug tool_name tool_args step_id timeout metadata g h =
      rw (tickets-persist, tickets-ensure_run)
        (put-Guard id g.tickets
          (new_ticket out now fresh run_id agent_slug tool_name tool_args step_id
            (timeout_of timeout g.default_timeout_minutes) metadata)
          h (λ _. λ q. cc))

  act-Guard :
      (a : Action) (g : Gate S)
      → Guard id g.tickets
      → approves id a ≡ false
      → Guard id (act b out a g).tickets
  unfolding act approve_ticket deny_ticket
  act-Guard (create now fresh run_id agent_slug tool_name tool_args step_id timeout metadata) g h
        ne =
      create_ticket-Guard now fresh run_id agent_slug tool_name tool_args step_id timeout metadata g
        h
  act-Guard (look_up j) g h ne = get_ticket-Guard id b out j g h
  act-Guard (approve now j by response reason) g h ne =
      resolve_found-Guard id b out now approved by reason _ (find_pending b out j g).0
        (find_pending b out j g).1 (find_pending-Guard id b out j g h)
        (λ t q same. absurd (other_found j g t h ne q same))
  act-Guard (deny now j by reason response) g h ne =
      resolve_found-Guard id b out now denied by reason _ (find_pending b out j g).0
        (find_pending b out j g).1 (find_pending-Guard id b out j g h) (λ t q same. λ u. cc)
  act-Guard (list_pending run_id agent_slug) g h ne = rw (tickets-list_pending_tickets id b out) h
  act-Guard (sweep now) g h ne = expire_old_tickets-Guard id b out now g h

  pub act_all-Guard :
      (l : List Action) (g : Gate S)
      → Guard id g.tickets
      → approved_in id l ≡ false
      → Guard id (act_all b out l g).tickets
  unfolding act_all
  act_all-Guard [] g h ne = h
  act_all-Guard (a ∷ l) g h ne =
      act_all-Guard l (act b out a g) (act-Guard a g h (ground arith)) (ground arith)
