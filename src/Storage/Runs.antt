-- ===== src/Storage/Runs.antt =====
-- Runs and events in the SQLite backend, src/magsag/storage/backends/sqlite.py. The time that
-- `datetime.now` returns is an argument.
use agdd.Prelude.{
  ℕ, String, Bool, true, false, not, ◌&&◌, ◌||◌, Option, none, some, List, [], ◌∷◌, ◌++◌, str_eq,
  if◌then◌else◌, get_or,
}
use agdd.Result.{Result, ok, raise, ◌>>=◌}
use agdd.Value.{Value, Items, Fields, str, list, dict, nil, cons, end}
use agdd.Storage.Tables.{
  Codec, RunRow, EventRow, Database, SqliteBackend, StorageError, integrity_error, with_connection,
  has_run, find_run, parent_known, or_type_error, map_option,
}

-- The arguments of `append_event`.
pub record EventArgs : Type 0 where
  pub run_id : String
  pub agent_slug : String
  pub event_type : String
  pub timestamp : ℕ
  pub level : Option String
  pub message : Option String
  pub payload : Option Fields
  pub span_id : Option String
  pub parent_span_id : Option String
  pub contract_id : Option String
  pub contract_version : Option String

-- The arguments of `create_run`.
pub record RunArgs : Type 0 where
  pub run_id : String
  pub agent_slug : String
  pub parent_run_id : Option String
  pub started_at : Option ℕ
  pub status : String
  pub tags : Option (List String)

-- A run as `get_run` returns it.
pub record RunInfo : Type 0 where
  pub row : RunRow
  pub metrics : Value
  pub tags : Value

abbrev pub texts : List String → Items
texts [] = nil
texts (t ∷ ts) = cons (str t) (texts ts)

-- CHECK (status IN (…))
unfoldable pub is_run_status : String → Bool
is_run_status t =
    str_eq t "running" || (str_eq t "succeeded" || (str_eq t "failed" || str_eq t "canceled"))

-- INSERT INTO runs: the key is new, the status is one of the four, and the parent is a run, which may
-- be the new one.
unfoldable pub insert_run : RunRow → Database → Database × Result StorageError (Unit {0})
insert_run r d =
    let rows = d.runs ++ (r ∷ []) in
    if has_run r.run_id d.runs || (not (is_run_status r.status) || not (parent_known r rows))
    then (d, raise integrity_error)
    else (record d { runs = rows }, ok tt)

-- INSERT INTO events
unfoldable pub insert_event : EventRow → Database → Database × Result StorageError (Unit {0})
insert_event e d =
    if has_run e.run_id d.runs
    then (record d { events = d.events ++ (e ∷ []) }, ok tt)
    else (d, raise integrity_error)

-- The columns that `update_run` writes.
pub record RunUpdate : Type 0 where
  pub status : Option String
  pub ended_at : Option String
  pub metrics : Option String

abbrev or_earlier : Option String → Option String → Option String
or_earlier none earlier = earlier
or_earlier (some t) earlier = some t

-- UPDATE runs SET … WHERE run_id = ?
unfoldable pub update_rows : String → RunUpdate → List RunRow → List RunRow
update_rows id u [] = []
update_rows id u (r ∷ rows) =
    (if str_eq r.run_id id
      then record r {
        status = get_or u.status r.status;
        ended_at = or_earlier u.ended_at r.ended_at;
        metrics = get_or u.metrics r.metrics;
      }
      else r)
    ∷ update_rows id u rows

-- An update of a run that is there fails on a status that is none of the four.
unfoldable pub write_update :
    String → RunUpdate → Database → Database × Result StorageError (Unit {0})
write_update id u d =
    if has_run id d.runs && not (elim u.status [ none ↦ true | some t ↦ is_run_status t ])
    then (d, raise integrity_error)
    else (record d { runs = update_rows id u d.runs }, ok tt)

-- A write of the row, if its JSON could be written.
abbrev pub write_row :
    {R : Type 0}
    → (R → Database → Database × Result StorageError (Unit {0}))
    → Result StorageError R
    → Database
    → Database × Result StorageError (Unit {0})
write_row write (raise error) d = (d, raise error)
write_row write (ok r) d = write r d

module _ (c : Codec) where
  unfoldable pub event_row : EventArgs → Result StorageError EventRow
  event_row a = or_type_error (c.dumps (dict (get_or a.payload end))) >>= λ payload. ok (record {
    ts = c.isoformat a.timestamp;
    run_id = a.run_id;
    agent_slug = a.agent_slug;
    event_type = a.event_type;
    level = a.level;
    msg = a.message;
    payload = payload;
    span_id = a.span_id;
    parent_span_id = a.parent_span_id;
    contract_id = a.contract_id;
    contract_version = a.contract_version;
    artifact_uri = none;
  })

  unfoldable pub append_event :
      EventArgs → SqliteBackend → SqliteBackend × Result StorageError (Unit {0})
  unfolding event_row insert_event
  append_event a = with_connection (write_row insert_event (event_row a))

  unfoldable pub run_row : ℕ → RunArgs → Result StorageError RunRow
  run_row now a = or_type_error (c.dumps (list (texts (get_or a.tags [])))) >>= λ tags. ok (record {
    run_id = a.run_id;
    agent_slug = a.agent_slug;
    parent_run_id = a.parent_run_id;
    started_at = c.isoformat (get_or a.started_at now);
    ended_at = none;
    status = a.status;
    metrics = "{}";
    tags = tags;
  })

  unfoldable pub create_run :
      ℕ → RunArgs → SqliteBackend → SqliteBackend × Result StorageError (Unit {0})
  create_run now a = with_connection (write_row insert_run (run_row now a))

  abbrev pub nothing_to_update : Option String → Option ℕ → Option Fields → Bool
  nothing_to_update none none none = true
  nothing_to_update _ _ _ = false

  unfoldable pub update_of :
      Option String → Option ℕ → Option Fields → Result StorageError RunUpdate
  update_of status ended_at none =
      ok (record { status = status; ended_at = map_option c.isoformat ended_at; metrics = none })
  update_of status ended_at (some metrics) = or_type_error (c.dumps (dict metrics)) >>= λ text.
      ok (record {
        status = status;
        ended_at = map_option c.isoformat ended_at;
        metrics = some text;
      })

  unfoldable pub update_run :
      String
      → Option String
      → Option ℕ
      → Option Fields
      → SqliteBackend
      → SqliteBackend × Result StorageError (Unit {0})
  update_run run_id status ended_at metrics = with_connection (λ d.
      if nothing_to_update status ended_at metrics
      then (d, ok tt)
      else write_row (write_update run_id) (update_of status ended_at metrics) d)

  unfoldable pub run_info : RunRow → RunInfo
  run_info r = record { row = r; metrics = c.loads r.metrics; tags = c.loads r.tags }

  unfoldable pub get_run :
      String → SqliteBackend → SqliteBackend × Result StorageError (Option RunInfo)
  unfolding run_info
  get_run run_id = with_connection (λ d. (d, ok (map_option run_info (find_run run_id d.runs))))
