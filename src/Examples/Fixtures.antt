-- ===== src/Examples/Fixtures.antt =====
-- A storage backend that keeps its tickets in a list, in place of the backends of
-- src/magsag/storage.
use agdd.Prelude.{
  String, ◌≡◌, true, Option, none, some, List, [], ◌∷◌, arith, str_eq, eq_iff, if◌then◌else◌,
  Bool-cases, inl, inr,
}
use agdd.Dict
use agdd.Dict.{Dict, get-empty}
use agdd.Approval.Ticket.{Ticket, TicketRecord}
use agdd.Approval.Gate.{Outside, Backend, Gate}
use agdd.Approval.Safety.Guard.{IsFaithful, IsKeyed}

abbrev pub stored : String → List TicketRecord → Option TicketRecord
stored id [] = none
stored id (r ∷ l) = if str_eq r.ticket_id id then some r else stored id l

abbrev pub replace : TicketRecord → List TicketRecord → List TicketRecord
replace r [] = []
replace r (q ∷ l) = if str_eq q.ticket_id r.ticket_id then r ∷ l else q ∷ replace r l

abbrev pub list_backend : Backend (List TicketRecord)
list_backend = record {
  get_run = λ s id. (some true, s);
  create_run = λ s run. (true, s);
  create_approval_ticket = λ s r. (true, r ∷ s);
  update_approval_ticket = λ s r. (true, replace r s);
  get_approval_ticket = λ s id. (some (stored id s), s);
  list_approval_tickets = λ s run_id agent_slug. (some s, s);
  append_event = λ s e. s;
}

abbrev pub outside : Outside
outside = record { digest = λ v. "digest"; isoformat = λ n. "time" }

stored_under :
    (id : String) (s : List TicketRecord) (r : TicketRecord)
    → stored id s ≡ some r
    → r.ticket_id ≡ id
stored_under id [] r h = cc
stored_under id (q ∷ l) r h = elim (Bool-cases (str_eq q.ticket_id id)) [
  | inl e ↦ ground (arith, eq_iff q.ticket_id id)
  | inr e ↦ stored_under id l r (ground arith)
]

pub list_backend-IsFaithful : IsFaithful list_backend
list_backend-IsFaithful = record { at = λ s id r h. stored_under id s r (ground arith) }

abbrev pub new_gate : Gate (List TicketRecord)
new_gate = record {
  default_timeout_minutes = 30;
  tickets = Dict.empty;
  initialized_runs = [];
  ticket_store = some [];
}

pub new_gate-IsKeyed : IsKeyed new_gate.tickets
new_gate-IsKeyed = record { at = λ j t h. ground (arith, get-empty {V = Ticket} j) }
