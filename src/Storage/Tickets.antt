-- ===== src/Storage/Tickets.antt =====
-- An approval ticket in the SQLite backend is read back.
use agdd.Prelude.{
  ℕ, String, ◌≡◌, ◌≢◌, refl, sym, ap, ◌∙◌, subst, Bool, true, false, Option, none, some, List, [],
  ◌∷◌, arith, str_eq, eq_iff, if◌then◌else◌,
}
use agdd.Result.{Result, ok}
use agdd.Value.{Fields, dict}
use agdd.Serialization.{json_safe, json_safe_fields}
use agdd.Approval.Ticket.{Status, pending, approved, denied, expired, TicketRecord, status_text}
use agdd.Storage.Tables.{
  Codec, ApprovalRow, SqliteBackend, StorageError, with_connection, has_run, map_option,
}
use agdd.Storage.Records.{
  status_of, as_dict, find_ticket, upsert_ticket, write_ticket, read_option, response_text,
  ticket_row, dict_of, response_of, time_of, row_to_ticket, create_approval_ticket,
  get_approval_ticket,
}
use agdd.Storage.GateBackend.{get_connected}

find_ticket-upsert_ticket :
    (new : ApprovalRow) (id : String) (rows : List ApprovalRow)
    → find_ticket id (upsert_ticket new rows)
      ≡ (if str_eq new.ticket_id id then some new else find_ticket id rows)
unfolding find_ticket upsert_ticket
find_ticket-upsert_ticket new id [] = refl
find_ticket-upsert_ticket new id (r ∷ rows) = ground (
  arith,
  eq_iff new.ticket_id id,
  eq_iff r.ticket_id new.ticket_id,
  eq_iff r.ticket_id id,
  find_ticket-upsert_ticket new id rows,
)

module _ (c : Codec) where
  -- The time is read back and its text is not empty.
  pub record IsClock : Type 0 where
    pub read_back : (t : ℕ) → c.fromisoformat (c.isoformat t) ≡ t
    pub not_empty : (t : ℕ) → c.isoformat t ≢ ""

  -- JSON keeps the fields, as far as they are made safe for it.
  abbrev pub Keeps : Fields → Type 0
  Keeps fs =
      (text : String) × (c.dumps (dict (json_safe_fields fs)) ≡ some text)
      × (c.loads text ≡ dict (json_safe_fields fs))
      × (text ≢ "")

  abbrev pub KeepsResponse : Option Fields → Type 0
  KeepsResponse none = Unit
  KeepsResponse (some fs) = Keeps fs

  -- The record with its dicts made safe for JSON.
  abbrev pub safe_record : TicketRecord → TicketRecord
  safe_record r = record r {
    masked_args = json_safe_fields r.masked_args;
    metadata = json_safe_fields r.metadata;
    response = map_option json_safe_fields r.response;
  }

  status_of-status_text : (s : Status) → status_of (status_text s) ≡ ok s
  unfolding status_of status_text
  status_of-status_text pending = refl
  status_of-status_text approved = refl
  status_of-status_text denied = refl
  status_of-status_text expired = refl

  dict_of-Keeps : (fs : Fields) (k : Keeps fs) → dict_of c k.0 ≡ ok (json_safe_fields fs)
  unfolding as_dict
  dict_of-Keeps fs (text, written, read, ne) = ground (arith, read, ne, eq_iff text "")

  -- The text of a response and what is read of it.
  response_text-kept :
      (o : Option Fields)
      → KeepsResponse o
      → (text : Option String) × (response_text c o ≡ ok text)
        × (response_of c text ≡ ok (map_option json_safe_fields o))
  unfolding as_dict json_safe
  response_text-kept none k = (none, refl, refl)
  response_text-kept (some fs) (text, written, read, ne) =
      (some text, ground arith, ground (arith, read, ne, eq_iff text ""))

  time_of-isoformat : IsClock → (t : Option ℕ) → time_of c (map_option c.isoformat t) ≡ t
  time_of-isoformat k none = refl
  time_of-isoformat k (some t) =
      ground (arith, k.read_back t, k.not_empty t, eq_iff (c.isoformat t) "")

  -- The row of a record, from the texts of its dicts.
  abbrev row_of : TicketRecord → String → Option String → String → ApprovalRow
  row_of r masked_args response metadata = record {
    ticket_id = r.ticket_id;
    run_id = r.run_id;
    agent_slug = r.agent_slug;
    tool_name = r.tool_name;
    tool_args = masked_args;
    args_hash = r.args_hash;
    step_id = r.step_id;
    requested_at = c.isoformat r.requested_at;
    expires_at = c.isoformat r.expires_at;
    status = status_text r.status;
    resolved_at = map_option c.isoformat r.resolved_at;
    resolved_by = r.resolved_by;
    decision_reason = r.decision_reason;
    response = response;
    metadata = metadata;
  }

  -- The parts of the record are values that JSON keeps.
  pub record IsStorable (r : TicketRecord) : Type 0 where
    pub masked_args : Keeps r.masked_args
    pub metadata : Keeps r.metadata
    pub response : KeepsResponse r.response

  ticket_row-read :
      IsClock
      → (r : TicketRecord) → IsStorable r
      → (row : ApprovalRow) × (row.ticket_id ≡ r.ticket_id)
        × (row.run_id ≡ r.run_id)
        × (ticket_row c r ≡ ok row)
        × (row_to_ticket c row ≡ ok (safe_record r))
  unfolding ticket_row row_to_ticket json_safe
  ticket_row-read clock r k =
      let (text, written, read) = response_text-kept r.response k.response in
      (
        row_of r k.masked_args.0 text k.metadata.0,
        refl,
        refl,
        ground (arith, k.masked_args.1, k.metadata.1, written),
        ground (
          arith,
          dict_of-Keeps r.masked_args k.masked_args,
          dict_of-Keeps r.metadata k.metadata,
          read,
          status_of-status_text r.status,
          clock.read_back r.requested_at,
          clock.read_back r.expires_at,
          time_of-isoformat clock r.resolved_at,
        ),
      )

  saved :
      (r : TicketRecord) (row : ApprovalRow) (s : SqliteBackend)
      → s.connected ≡ true
      → ticket_row c r ≡ ok row
      → has_run row.run_id s.database.runs ≡ true
      → (create_approval_ticket c r s).0 ≡ record s {
        database = record s.database { approvals = upsert_ticket row s.database.approvals };
      }
  unfolding create_approval_ticket with_connection write_ticket
  saved r row s e written known = rw (e, written, known) refl

  abbrev choice :
      Bool
      → Result StorageError (Option TicketRecord)
      → Result StorageError (Option TicketRecord)
      → Result StorageError (Option TicketRecord)
  choice b x y = if b then x else y

  either :
      (b : Bool) (row : ApprovalRow) (t : TicketRecord) (o : Option ApprovalRow)
      → row_to_ticket c row ≡ ok t
      → read_option (row_to_ticket c) (if b then some row else o)
        ≡ choice b (ok (some t)) (read_option (row_to_ticket c) o)
  either true row t o h = ground arith
  either false row t o h = refl

  -- On an open connection, a ticket of a run that is there and whose dicts JSON keeps is read back
  -- after `create_approval_ticket`, with its dicts made safe for JSON, whether it is new or replaces
  -- an earlier record, and every other ticket is read as before.
  pub get_approval_ticket-create_approval_ticket :
      IsClock
      → (r : TicketRecord) → IsStorable r
      → (s : SqliteBackend) → s.connected ≡ true
      → has_run r.run_id s.database.runs ≡ true
      → (id : String)
      → (get_approval_ticket c id (create_approval_ticket c r s).0).1 ≡ (
          if str_eq r.ticket_id id
          then ok (some (safe_record r))
          else (get_approval_ticket c id s).1)
  get_approval_ticket-create_approval_ticket clock r k s conn known id =
      let (row, named, of_run, written, read) = ticket_row-read clock r k in
      let after : SqliteBackend = record s {
        database = record s.database { approvals = upsert_ticket row s.database.approvals };
      } in
      let stored =
        saved r row s conn written
          (subst (λ i. has_run i s.database.runs ≡ true) (sym of_run) known) in
      ap (λ t. (get_approval_ticket c id t).1) stored
      ∙ get_connected c id after conn
      ∙ ap (read_option (row_to_ticket c)) (find_ticket-upsert_ticket row id s.database.approvals)
      ∙ either (str_eq row.ticket_id id) row (safe_record r) (find_ticket id s.database.approvals)
          read
      ∙ ap
          (λ i.
            choice (str_eq i id) (ok (some (safe_record r)))
              (read_option (row_to_ticket c) (find_ticket id s.database.approvals)))
          named
      ∙ ap (choice (str_eq r.ticket_id id) (ok (some (safe_record r))))
          (sym (get_connected c id s conn))
