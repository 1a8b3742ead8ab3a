-- ===== src/Approval/Resolve.antt =====
-- The resolution of tickets, src/magsag/governance/approval_gate.py.
-- Each operation takes the time that `datetime.now` returns in it; nothing else of the gate runs
-- between the steps of one operation.
use agdd.Prelude.{ℕ, String, Option, none, some, if◌then◌else◌, str_eq, get_or}
use agdd.Dict
use agdd.Dict.{Dict}
use agdd.Result.{Result, ok, raise}
use agdd.Value.{Fields, str, end, field}
use agdd.Approval.Ticket.{
  is_pending, is_expired, Status, approved, denied, expired, Ticket, nonempty, ticket_from_record,
}
use agdd.Approval.Gate.{Outside, Backend, Gate, GateError, gate_error}
use agdd.Approval.Create.{persist}

-- `setdefault`
abbrev pub keep_first : Dict Ticket → Ticket → Dict Ticket
keep_first d t = elim (Dict.get d t.ticket_id) [ none ↦ Dict.put d t.ticket_id t | some _ ↦ d ]

-- `response or ({"reason": reason} if reason else {})`
abbrev pub denial : Option Fields → Option String → Fields
denial response reason = elim (nonempty response) [
  | some fs ↦ fs
  | none ↦ elim reason [
    | none ↦ end
    | some r ↦ if str_eq r "" then end else field "reason" (str r) end
  ]
]

-- The two guards of `approve_ticket` and `deny_ticket`.
abbrev pub only_pending : Option Ticket → Result GateError Ticket
only_pending none = raise gate_error
only_pending (some t) = if is_pending t.status then ok t else raise gate_error

-- The five assignments to the ticket.
abbrev pub resolved : ℕ → Status → String → Option String → Fields → Ticket → Ticket
resolved now status resolved_by decision_reason response t = record t {
  status = status;
  resolved_at = some now;
  resolved_by = some resolved_by;
  decision_reason = decision_reason;
  response = some response;
}

module _ {S : Type 0} (b : Backend S) (out : Outside) where
  unfoldable pub load_ticket : String → Gate S → S → Gate S × Option Ticket
  load_ticket ticket_id g s =
      let (answer, s1) = b.get_approval_ticket s ticket_id in
      let g1 : Gate S = record g { ticket_store = some s1 } in
      elim answer [
        | none ↦ (g1, none)
        | some found ↦ elim found [
          | none ↦ (g1, none)
          | some r ↦
              let t = ticket_from_record r in
              (record g1 { tickets = keep_first g.tickets t }, some t)
        ]
      ]

  unfoldable pub get_ticket : String → Gate S → Gate S × Option Ticket
  get_ticket ticket_id g = elim (Dict.get g.tickets ticket_id) [
    | some t ↦ (g, some t)
    | none ↦ elim g.ticket_store [ none ↦ (g, none) | some s ↦ load_ticket ticket_id g s ]
  ]

  -- The ticket object is the one that `_tickets` holds, so the writes to it are one write here.
  unfoldable pub resolve_ticket :
      ℕ → Status → String → Option String → Fields → Ticket → Gate S → Gate S × Ticket
  resolve_ticket now status resolved_by decision_reason response t g =
      let t1 = resolved now status resolved_by decision_reason response t in
      let g1 : Gate S = record g { tickets = Dict.put g.tickets t1.ticket_id t1 } in
      (
        persist b out b.update_approval_ticket now "approval.updated"
            (field "resolved_by" (str resolved_by) end) t1 g1,
        t1,
      )

  -- The part that `approve_ticket` and `deny_ticket` share: the ticket, if it may be resolved.
  unfoldable pub find_pending : String → Gate S → Gate S × Result GateError Ticket
  find_pending ticket_id g = let (g1, found) = get_ticket ticket_id g in (g1, only_pending found)

  abbrev pub resolve_found :
      ℕ
      → Status
      → String
      → Option String
      → Fields
      → Gate S × Result GateError Ticket
      → Gate S × Result GateError Ticket
  resolve_found now status resolved_by reason response (g, found) = elim found [
    | raise e ↦ (g, raise e)
    | ok t ↦ let (g1, t1) = resolve_ticket now status resolved_by reason response t g in (g1, ok t1)
  ]

  unfoldable pub approve_ticket :
      ℕ
      → String
      → String
      → Option Fields
      → Option String
      → Gate S
      → Gate S × Result GateError Ticket
  approve_ticket now ticket_id approved_by response reason g =
      resolve_found now approved approved_by reason (get_or response end) (find_pending ticket_id g)

  unfoldable pub deny_ticket :
      ℕ
      → String
      → String
      → Option String
      → Option Fields
      → Gate S
      → Gate S × Result GateError Ticket
  unfolding nonempty
  deny_ticket now ticket_id denied_by reason response g =
      resolve_found now denied denied_by reason (denial response reason) (find_pending ticket_id g)

  -- `_expire_ticket`: whatever the status, unless it is expired already.
  unfoldable pub expire_ticket : ℕ → Ticket → Gate S → Gate S × Ticket
  expire_ticket now t g =
      if is_expired t.status
      then (g, t)
      else resolve_ticket now expired "system:auto-expire" (some "Approval request expired")
          (field "reason" (str "expired") end) t g
