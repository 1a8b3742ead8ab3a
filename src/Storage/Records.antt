-- ===== src/Storage/Records.antt =====
-- Approval tickets and snapshots in the SQLite backend, src/magsag/storage/backends/sqlite.py. Where a
-- statement sorts, rows that are equal stay in the order of the table.
use agdd.Prelude.{
  ℕ, String, Bool, false, not, ◌&&◌, ◌||◌, Option, none, some, List, [], ◌∷◌, str_eq, if◌then◌else◌,
  length,
}
use agdd.Result.{Result, ok, raise, ◌>>=◌}
use agdd.Value.{Value, Fields, dict, end}
use agdd.Serialization.{json_safe}
use agdd.Approval.Ticket.{Status, pending, approved, denied, expired, TicketRecord, status_text}
use agdd.Durable.Snapshot.{Snapshot}
use agdd.Storage.Tables.{
  Codec, ApprovalRow, SnapshotRow, Database, SqliteBackend, StorageError, integrity_error,
  not_a_record, with_connection, keep, ascending, descending, limit_offset, given_equals, has_run,
  or_type_error, map_option,
}
use agdd.Storage.Runs.{write_row}

-- The status that the column of a ticket holds.
unfoldable pub status_of : String → Result StorageError Status
status_of t =
    if str_eq t "pending"
    then ok pending
    else if str_eq t "approved"
    then ok approved
    else if str_eq t "denied"
    then ok denied
    else if str_eq t "expired"
    then ok expired
    else raise not_a_record

-- The records of this development hold dicts; JSON of another kind has no record.
unfoldable pub as_dict : Value → Result StorageError Fields
as_dict (dict fs) = ok fs
as_dict _ = raise not_a_record

unfoldable pub find_ticket : String → List ApprovalRow → Option ApprovalRow
find_ticket id [] = none
find_ticket id (r ∷ rows) =
    let rest = find_ticket id rows in if str_eq r.ticket_id id then some r else rest

-- INSERT … ON CONFLICT(ticket_id) DO UPDATE: a row of the ticket is written in its place.
unfoldable pub upsert_ticket : ApprovalRow → List ApprovalRow → List ApprovalRow
upsert_ticket new [] = new ∷ []
upsert_ticket new (r ∷ rows) =
    let rest = upsert_ticket new rows in
    if str_eq r.ticket_id new.ticket_id then new ∷ rows else r ∷ rest

unfoldable pub write_ticket : ApprovalRow → Database → Database × Result StorageError (Unit {0})
write_ticket r d =
    if has_run r.run_id d.runs
    then (record d { approvals = upsert_ticket r d.approvals }, ok tt)
    else (d, raise integrity_error)

abbrev pub is_step : String → String → SnapshotRow → Bool
is_step run_id step_id r = str_eq r.run_id run_id && str_eq r.step_id step_id

unfoldable pub find_step : String → String → List SnapshotRow → Option SnapshotRow
find_step run_id step_id [] = none
find_step run_id step_id (r ∷ rows) =
    let rest = find_step run_id step_id rows in if is_step run_id step_id r then some r else rest

-- The identifier is that of a snapshot of another step.
unfoldable pub taken_elsewhere : SnapshotRow → List SnapshotRow → Bool
taken_elsewhere new [] = false
taken_elsewhere new (r ∷ rows) =
    (str_eq r.snapshot_id new.snapshot_id && not (is_step new.run_id new.step_id r))
    || taken_elsewhere new rows

-- INSERT … ON CONFLICT(run_id, step_id) DO UPDATE
unfoldable pub upsert_step : SnapshotRow → List SnapshotRow → List SnapshotRow
upsert_step new [] = new ∷ []
upsert_step new (r ∷ rows) =
    let rest = upsert_step new rows in
    if is_step new.run_id new.step_id r then new ∷ rows else r ∷ rest

unfoldable pub write_snapshot : SnapshotRow → Database → Database × Result StorageError (Unit {0})
write_snapshot r d =
    if not (has_run r.run_id d.runs) || taken_elsewhere r d.snapshots
    then (d, raise integrity_error)
    else (record d { snapshots = upsert_step r d.snapshots }, ok tt)

-- Each row in turn, until one cannot be read.
abbrev pub each :
    {R T : Type 0} → (R → Result StorageError T) → List R → Result StorageError (List T)
each f [] = ok []
each f (r ∷ rows) = f r >>= λ x. each f rows >>= λ xs. ok (x ∷ xs)

abbrev pub read_option :
    {R T : Type 0} → (R → Result StorageError T) → Option R → Result StorageError (Option T)
read_option f none = ok none
read_option f (some r) = f r >>= λ x. ok (some x)

module _ (c : Codec) where
  abbrev pub response_text : Option Fields → Result StorageError (Option String)
  response_text none = ok none
  response_text (some fs) = or_type_error (c.dumps (json_safe (dict fs))) >>= λ text. ok (some text)

  unfoldable pub ticket_row : TicketRecord → Result StorageError ApprovalRow
  ticket_row r = or_type_error (c.dumps (json_safe (dict r.masked_args))) >>= λ masked_args.
      response_text r.response >>= λ response.
      or_type_error (c.dumps (json_safe (dict r.metadata))) >>= λ metadata. ok (record {
        ticket_id = r.ticket_id;
        run_id = r.run_id;
        agent_slug = r.agent_slug;
        tool_name = r.tool_name;
        tool_args = masked_args;
        args_hash = r.args_hash;
        step_id = r.step_id;
        requested_at = c.isoformat r.requested_at;
        expires_at = c.isoformat r.expires_at;
        status = status_text r.status;
        resolved_at = map_option c.isoformat r.resolved_at;
        resolved_by = r.resolved_by;
        decision_reason = r.decision_reason;
        response = response;
        metadata = metadata;
      })

  -- `json.loads(text) if text else {}`
  abbrev pub dict_of : String → Result StorageError Fields
  dict_of text = if str_eq text "" then ok end else as_dict (c.loads text)

  abbrev pub response_of : Option String → Result StorageError (Option Fields)
  response_of none = ok none
  response_of (some text) =
      if str_eq text "" then ok none else (as_dict (c.loads text) >>= λ fs. ok (some fs))

  abbrev pub time_of : Option String → Option ℕ
  time_of none = none
  time_of (some text) = if str_eq text "" then none else some (c.fromisoformat text)

  unfoldable pub row_to_ticket : ApprovalRow → Result StorageError TicketRecord
  row_to_ticket r = dict_of r.tool_args >>= λ masked_args. dict_of r.metadata >>= λ metadata.
      status_of r.status >>= λ status. response_of r.response >>= λ response. ok (record {
        ticket_id = r.ticket_id;
        run_id = r.run_id;
        agent_slug = r.agent_slug;
        tool_name = r.tool_name;
        masked_args = masked_args;
        args_hash = r.args_hash;
        step_id = r.step_id;
        metadata = metadata;
        requested_at = c.fromisoformat r.requested_at;
        expires_at = c.fromisoformat r.expires_at;
        status = status;
        resolved_at = time_of r.resolved_at;
        resolved_by = r.resolved_by;
        decision_reason = r.decision_reason;
        response = response;
      })

  unfoldable pub create_approval_ticket :
      TicketRecord → SqliteBackend → SqliteBackend × Result StorageError (Unit {0})
  create_approval_ticket r = with_connection (write_row write_ticket (ticket_row r))

  unfoldable pub update_approval_ticket :
      TicketRecord → SqliteBackend → SqliteBackend × Result StorageError (Unit {0})
  update_approval_ticket r = create_approval_ticket r

  unfoldable pub get_approval_ticket :
      String → SqliteBackend → SqliteBackend × Result StorageError (Option TicketRecord)
  get_approval_ticket ticket_id =
      with_connection (λ d. (d, read_option row_to_ticket (find_ticket ticket_id d.approvals)))

  unfoldable pub list_approval_tickets :
      Option String
      → Option String
      → Option String
      → ℕ
      → ℕ
      → SqliteBackend
      → SqliteBackend × Result StorageError (List TicketRecord)
  list_approval_tickets run_id agent_slug status limit offset = with_connection (λ d. (
    d,
    each row_to_ticket (
        limit_offset limit offset (
          ascending (λ r. r.requested_at)
            (keep
              (λ r.
                given_equals run_id r.run_id
                && (given_equals agent_slug r.agent_slug && given_equals status r.status))
              d.approvals))),
  ))

  unfoldable pub snapshot_row : Snapshot → Result StorageError SnapshotRow
  snapshot_row s = or_type_error (c.dumps (json_safe (dict s.state))) >>= λ state.
      or_type_error (c.dumps (json_safe (dict s.metadata))) >>= λ metadata. ok (record {
        snapshot_id = s.snapshot_id;
        run_id = s.run_id;
        step_id = s.step_id;
        created_at = c.isoformat s.created_at;
        state = state;
        metadata = metadata;
      })

  unfoldable pub row_to_snapshot : SnapshotRow → Result StorageError Snapshot
  row_to_snapshot r = dict_of r.state >>= λ state. dict_of r.metadata >>= λ metadata. ok (record {
    snapshot_id = r.snapshot_id;
    run_id = r.run_id;
    step_id = r.step_id;
    created_at = c.fromisoformat r.created_at;
    state = state;
    metadata = metadata;
  })

  unfoldable pub upsert_run_snapshot :
      Snapshot → SqliteBackend → SqliteBackend × Result StorageError (Unit {0})
  upsert_run_snapshot s = with_connection (write_row write_snapshot (snapshot_row s))

  abbrev pub first : List SnapshotRow → Option SnapshotRow
  first [] = none
  first (r ∷ rows) = some r

  -- ORDER BY datetime(created_at)
  abbrev pub second_of : SnapshotRow → String
  second_of r = c.datetime r.created_at

  unfoldable pub get_latest_run_snapshot :
      String → SqliteBackend → SqliteBackend × Result StorageError (Option Snapshot)
  get_latest_run_snapshot run_id = with_connection (λ d. (
    d,
    read_option row_to_snapshot
        (first (descending second_of (keep (λ r. str_eq r.run_id run_id) d.snapshots))),
  ))

  unfoldable pub get_run_snapshot :
      String → String → SqliteBackend → SqliteBackend × Result StorageError (Option Snapshot)
  get_run_snapshot run_id step_id =
      with_connection (λ d. (d, read_option row_to_snapshot (find_step run_id step_id d.snapshots)))

  unfoldable pub list_run_snapshots :
      String → SqliteBackend → SqliteBackend × Result StorageError (List Snapshot)
  list_run_snapshots run_id = with_connection (λ d. (
    d,
    each row_to_snapshot (ascending second_of (keep (λ r. str_eq r.run_id run_id) d.snapshots)),
  ))

  -- The count of the rows that were deleted.
  unfoldable pub delete_run_snapshots :
      String → SqliteBackend → SqliteBackend × Result StorageError ℕ
  delete_run_snapshots run_id = with_connection (λ d. (
    record d { snapshots = keep (λ r. not (str_eq r.run_id run_id)) d.snapshots },
    ok (length (keep (λ r. str_eq r.run_id run_id) d.snapshots)),
  ))
