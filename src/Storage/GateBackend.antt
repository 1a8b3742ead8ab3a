-- ===== src/Storage/GateBackend.antt =====
-- The SQLite backend of src/magsag/storage/backends/sqlite.py as the approval gate of
-- src/magsag/governance/approval_gate.py calls it.
use agdd.Prelude.{
  String, ◌≡◌, refl, sym, ap, ◌∙◌, Bool, true, false, Option, none, some, List, [], ◌∷◌, arith,
  str_eq, eq_iff, Bool-cases, inl, inr,
}
use agdd.Result.{Result, ok, raise, first_value, ok-injective, Result-cases}
use agdd.Value.{Value, Fields, dict, end}
use agdd.Approval.Ticket.{TicketRecord}
use agdd.Approval.Gate.{Backend}
use agdd.Approval.Safety.Guard.{IsFaithful}
use agdd.Storage.Tables.{
  Codec, ApprovalRow, SqliteBackend, StorageError, not_initialized, with_connection, map_option,
}
use agdd.Storage.Runs.{RunInfo, append_event, create_run, get_run}
use agdd.Storage.Records.{
  status_of, as_dict, find_ticket, read_option, dict_of, response_of, row_to_ticket,
  create_approval_ticket, update_approval_ticket, get_approval_ticket, list_approval_tickets,
}

abbrev succeeds : {A : Type 0} → Result StorageError A → Bool
succeeds (ok a) = true
succeeds (raise error) = false

abbrev if_ok : {A : Type 0} → Result StorageError A → Option A
if_ok (ok a) = some a
if_ok (raise error) = none

abbrev is_found : Option RunInfo → Bool
is_found none = false
is_found (some info) = true

abbrev fields_of : Value → Fields
fields_of (dict fs) = fs
fields_of _ = end

-- The methods as the gate calls them: a new run is running, tickets are listed while they are
-- pending, a hundred at most, and an exception is `none` or `false`.
abbrev pub gate_backend : Codec → Backend SqliteBackend
gate_backend c = record {
  get_run = λ s id. let (s', answer) = get_run c id s in (map_option is_found (if_ok answer), s');
  create_run = λ s new.
      let (s', answer) =
        create_run c new.started_at
          (record {
            run_id = new.run_id;
            agent_slug = new.agent_slug;
            parent_run_id = new.parent_run_id;
            started_at = some new.started_at;
            status = "running";
            tags = new.tags;
          })
          s in
      (succeeds answer, s');
  create_approval_ticket =
      λ s r. let (s', answer) = create_approval_ticket c r s in (succeeds answer, s');
  update_approval_ticket =
      λ s r. let (s', answer) = update_approval_ticket c r s in (succeeds answer, s');
  get_approval_ticket = λ s id. let (s', answer) = get_approval_ticket c id s in (if_ok answer, s');
  list_approval_tickets = λ s run_id agent_slug.
      let (s', answer) = list_approval_tickets c run_id agent_slug (some "pending") 100 0 s in
      (if_ok answer, s');
  append_event = λ s e.
      (append_event c
        (record {
          run_id = e.run_id;
          agent_slug = e.agent_slug;
          event_type = e.event_type;
          timestamp = e.timestamp;
          level = none;
          message = none;
          payload = some (fields_of e.payload);
          span_id = none;
          parent_span_id = none;
          contract_id = none;
          contract_version = none;
        })
        s).0;
}

-- The ticket that a row is found under.
find_ticket_id :
    (id : String) (rows : List ApprovalRow) (r : ApprovalRow)
    → find_ticket id rows ≡ some r
    → r.ticket_id ≡ id
unfolding find_ticket
find_ticket_id id [] r h = cc
find_ticket_id id (q ∷ rows) r h = elim (Bool-cases (str_eq q.ticket_id id)) [
  | inl e ↦ ground (arith, eq_iff q.ticket_id id)
  | inr e ↦ find_ticket_id id rows r (ground arith)
]

module _ (c : Codec) where
  ticket_id-row_to_ticket :
      (q : ApprovalRow) (r : TicketRecord) → row_to_ticket c q ≡ ok r → r.ticket_id ≡ q.ticket_id
  unfolding row_to_ticket as_dict
  ticket_id-row_to_ticket q r h =
      let (masked_args, _, h1) = first_value (dict_of c q.tool_args) _ (sym h) in
      let (metadata, _, h2) = first_value (dict_of c q.metadata) _ h1 in
      let (status, _, h3) = first_value (status_of q.status) _ h2 in
      let (response, _, h4) = first_value (response_of c q.response) _ h3 in
      ap (λ (t : TicketRecord). t.ticket_id) (ok-injective _ _ h4)

  read_option-some :
      (o : Option ApprovalRow) (r : TicketRecord)
      → if_ok (read_option (row_to_ticket c) o) ≡ some (some r)
      → (q : ApprovalRow) × (o ≡ some q) × (row_to_ticket c q ≡ ok r)
  read_option-some none r h = absurd (ground arith)
  read_option-some (some q) r h = (
    q,
    refl,
    elim (Result-cases (row_to_ticket c q)) [
      | inl (a, e) ↦ ground arith
      | inr (a, e) ↦ absurd (ground arith)
    ],
  )

  pub get_connected :
      (id : String) (s : SqliteBackend)
      → s.connected ≡ true
      → (get_approval_ticket c id s).1
        ≡ read_option (row_to_ticket c) (find_ticket id s.database.approvals)
  unfolding get_approval_ticket with_connection
  get_connected id s e = rw e refl

  get_closed :
      (id : String) (s : SqliteBackend)
      → s.connected ≡ false
      → (get_approval_ticket c id s).1 ≡ raise not_initialized
  unfolding get_approval_ticket with_connection
  get_closed id s e = rw e refl

  -- The SQLite backend returns a ticket to the gate only under its own identifier.
  pub gate_backend-IsFaithful : IsFaithful (gate_backend c)
  gate_backend-IsFaithful = record {
    at = λ s id r h. elim (Bool-cases s.connected) [
      | inl e ↦
          let (q, found, read) =
            read_option-some (find_ticket id s.database.approvals) r
              (ap if_ok (sym (get_connected id s e)) ∙ h) in
          ticket_id-row_to_ticket q r read ∙ find_ticket_id id s.database.approvals q found
      | inr e ↦ absurd (closed (ap if_ok (sym (get_closed id s e)) ∙ h))
    ];
  }
    where
      closed : {r : TicketRecord} → ◌≡◌ {A = Option (Option TicketRecord)} none (some (some r)) → ⊥
      closed h = ground arith
