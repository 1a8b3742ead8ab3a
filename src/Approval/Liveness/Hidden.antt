-- ===== src/Approval/Liveness/Hidden.antt =====
-- Decisions that come to nothing: on a ticket that is resolved already, at a poll after the
-- ticket's time, and through another gate on the same backend.
use agdd.Prelude.{ℕ, ◌≤◌, String, ◌≡◌, ◌≢◌, refl, Option, some, arith, Bool-cases, inl, inr, subst}
use agdd.Dict
use agdd.Dict.{get-put_self}
use agdd.Value.{Fields, field, str, end}
use agdd.Result.{raise}
use agdd.Approval.Ticket.{is_expired, pending, expired, Ticket}
use agdd.Approval.Gate.{Outside, Backend, Gate, timeout_error, gate_error}
use agdd.Approval.Resolve.{
  resolve_ticket, resolved, find_pending, approve_ticket, deny_ticket, expire_ticket,
}
use agdd.Approval.Execution.{decided, poll, poll_status}
use agdd.Approval.Lookup.{tickets-persist, get_ticket_known}

-- A ticket in memory that is no longer pending can be neither approved nor denied: both calls
-- raise, and the gate is left as it was, its backend included.
pub resolved_once :
    {S : Type 0} (b : Backend S) (out : Outside) (now : ℕ) (id by : String)
    (response : Option Fields) (reason : Option String) (t : Ticket) (g : Gate S)
    → Dict.get g.tickets id ≡ some t
    → t.status ≢ pending
    → (approve_ticket b out now id by response reason g ≡ (g, raise gate_error))
      × (deny_ticket b out now id by reason response g ≡ (g, raise gate_error))
unfolding approve_ticket deny_ticket find_pending
resolved_once b out now id by response reason t g known closed =
    rw (get_ticket_known b out id t g known) (ground arith, ground arith)

poll_timeout :
    {S : Type 0} (b : Backend S) (out : Outside) (now : ℕ) (original t : Ticket) (g : Gate S)
    → Dict.get g.tickets original.ticket_id ≡ some t
    → t.expires_at ≤ now
    → (poll b out now original g).1 ≡ decided (raise timeout_error)
unfolding poll
poll_timeout b out now original t g known late =
    ground (arith, get_ticket_known b out original.ticket_id t g known)

poll_expires :
    {S : Type 0} (b : Backend S) (out : Outside) (now : ℕ) (original t : Ticket) (g : Gate S)
    → Dict.get g.tickets original.ticket_id ≡ some t
    → t.expires_at ≤ now
    → (poll b out now original g).0 ≡ (expire_ticket b out now t g).0
unfolding poll
poll_expires b out now original t g known late =
    ground (arith, get_ticket_known b out original.ticket_id t g known)

expired_in_memory :
    {S : Type 0} (b : Backend S) (out : Outside) (now : ℕ) (original t : Ticket) (g : Gate S)
    → Dict.get g.tickets original.ticket_id ≡ some t
    → t.ticket_id ≡ original.ticket_id
    → t.status ≢ expired
    → t.expires_at ≤ now
    → Dict.get (poll b out now original g).0.tickets original.ticket_id
      ≡ some (
          resolved now expired "system:auto-expire"
            (some "Approval request expired")
            (field "reason" (str "expired") end)
            t)
unfolding expire_ticket resolve_ticket
expired_in_memory b out now original t g known same alive late =
    elim (Bool-cases (is_expired t.status)) [
      | inl e ↦ absurd (alive (ground arith))
      | inr e ↦ rw (poll_expires b out now original t g known late) (
          rw (e, expire_ticket)
            (rw tickets-persist (
              subst
                (λ i.
                  Dict.get
                    (Dict.put g.tickets t.ticket_id (
                      resolved now expired "system:auto-expire" (some "Approval request expired")
                        (field "reason" (str "expired") end) t))
                    i
                  ≡ some (
                      resolved now expired "system:auto-expire" (some "Approval request expired")
                        (field "reason" (str "expired") end) t))
                same
                (get-put_self g.tickets t.ticket_id (
                  resolved now expired "system:auto-expire" (some "Approval request expired")
                    (field "reason" (str "expired") end) t)))))
    ]

-- Whether a ticket in memory is pending, approved or denied: a poll at or after its time raises the
-- timeout, and leaves the ticket expired, decided by the system, in place of the decision that
-- somebody may have made in time.
pub late_poll_expires :
    {S : Type 0} (b : Backend S) (out : Outside) (now : ℕ) (original t : Ticket) (g : Gate S)
    → Dict.get g.tickets original.ticket_id ≡ some t
    → t.ticket_id ≡ original.ticket_id
    → t.status ≢ expired
    → t.expires_at ≤ now
    → ((poll b out now original g).1 ≡ decided (raise timeout_error))
      × ((u : Ticket) × (Dict.get (poll b out now original g).0.tickets original.ticket_id ≡ some u)
          × (u.status ≡ expired)
          × (u.resolved_by ≡ some "system:auto-expire"))
late_poll_expires b out now original t g known same alive late = (
  poll_timeout b out now original t g known late,
  (
    resolved now expired "system:auto-expire" (some "Approval request expired")
        (field "reason" (str "expired") end) t,
    expired_in_memory b out now original t g known same alive late,
    refl,
    refl,
  ),
)

-- For a ticket in memory the answer of a poll does not depend on the backend: what another gate has
-- written there, an approval for example, is not seen.
pub poll_ignores_store :
    {S : Type 0} (b : Backend S) (out : Outside) (now : ℕ) (original t : Ticket) (g : Gate S)
    (other : Option S)
    → Dict.get g.tickets original.ticket_id ≡ some t
    → (poll b out now original (record g { ticket_store = other })).1
      ≡ (poll b out now original g).1
unfolding poll poll_status
poll_ignores_store b out now original t g other known = ground (
  arith,
  get_ticket_known b out original.ticket_id t g known,
  get_ticket_known b out original.ticket_id t (record g { ticket_store = other }) known,
)
