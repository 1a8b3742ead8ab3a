-- ===== src/Approval/Sweep.antt =====
-- The pending tickets, and the sweep over those that are due, src/magsag/governance/approval_gate.py.
-- Each operation takes the time that `datetime.now` returns in it; nothing else of the gate runs
-- between the steps of one operation.
use agdd.Prelude.{
  ℕ, ◌+◌, String, Bool, true, false, ◌&&◌, Option, none, some, List, [], ◌∷◌, leb, if◌then◌else◌,
  str_eq,
}
use agdd.Dict
use agdd.Dict.{Dict}
use agdd.Approval.Ticket.{is_pending, Ticket, TicketRecord, ticket_from_record}
use agdd.Approval.Gate.{Outside, Backend, Gate}
use agdd.Approval.Resolve.{expire_ticket}

-- `run_id and ticket.run_id != run_id`, the other way round
abbrev passes : Option String → String → Bool
passes none x = true
passes (some f) x = if str_eq f "" then true else str_eq x f

unfoldable pub pending_in_memory :
    Option String → Option String → List (String × Ticket) → Dict Ticket → Dict Ticket
pending_in_memory run_id agent_slug [] found = found
pending_in_memory run_id agent_slug ((_, t) ∷ l) found = pending_in_memory run_id agent_slug l (
    if is_pending t.status && (passes run_id t.run_id && passes agent_slug t.agent_slug)
    then Dict.put found t.ticket_id t
    else found)

unfoldable pub add_stored : List TicketRecord → Dict Ticket → Dict Ticket
add_stored [] found = found
add_stored (r ∷ rs) found = add_stored rs (elim (Dict.get found r.ticket_id) [
  | none ↦ Dict.put found r.ticket_id (ticket_from_record r)
  | some _ ↦ found
])

-- `sorted` by the time of the request, which keeps the order of equal times.
unfoldable pub insert_by_request : Ticket → List Ticket → List Ticket
insert_by_request t [] = t ∷ []
insert_by_request t (u ∷ l) =
    let rest = insert_by_request t l in
    if leb t.requested_at u.requested_at then t ∷ u ∷ l else u ∷ rest

unfoldable pub sort_by_request : List (String × Ticket) → List Ticket
unfolding insert_by_request
sort_by_request [] = []
sort_by_request ((_, t) ∷ l) = insert_by_request t (sort_by_request l)

module _ {S : Type 0} (b : Backend S) (out : Outside) where
  unfoldable pub list_pending_tickets :
      Option String → Option String → Gate S → Gate S × List Ticket
  unfolding pending_in_memory add_stored sort_by_request
  list_pending_tickets run_id agent_slug g =
      let found = pending_in_memory run_id agent_slug (Dict.items g.tickets) Dict.empty in
      elim g.ticket_store [
        | none ↦ (g, sort_by_request (Dict.items found))
        | some s ↦
            let (answer, s1) = b.list_approval_tickets s run_id agent_slug in
            let all : Dict Ticket = elim answer [
              | none ↦ found
              | some records ↦ add_stored records found
            ] in
            (record g { ticket_store = some s1 }, sort_by_request (Dict.items all))
      ]

  unfoldable pub expire_each : ℕ → List Ticket → ℕ → Gate S → Gate S × ℕ
  expire_each now [] count g = (g, count)
  expire_each now (t ∷ l) count g = elim (leb t.expires_at now) [
    | true ↦ expire_each now l (count + 1) (expire_ticket b out now t g).0
    | false ↦ expire_each now l count g
  ]

  unfoldable pub expire_old_tickets : ℕ → Gate S → Gate S × ℕ
  unfolding expire_each
  expire_old_tickets now g =
      let (g1, found) = list_pending_tickets none none g in expire_each now found 0 g1
