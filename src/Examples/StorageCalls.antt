-- ===== src/Examples/StorageCalls.antt =====
-- The SQLite backend at work, with an old run whose child is recent.
use agdd.Prelude.{ℕ, String, ◌≡◌, refl, true, false, Option, none, some, List, [], ◌∷◌, str_eq}
use agdd.Result.{ok}
use agdd.Value.{end}
use agdd.Serialization.{json_safe, json_safe_fields}
use agdd.Approval.Ticket.{TicketRecord, pending}
use agdd.Approval.Safety.Guard.{IsFaithful}
use agdd.Storage.Tables.{Codec, RunRow, SqliteBackend, keep, has_run}
use agdd.Storage.Runs.{RunArgs}
use agdd.Storage.Records.{create_approval_ticket, get_approval_ticket}
use agdd.Storage.Vacuum.{drop_orphans, delete_runs}
use agdd.Storage.References.{HasReferences}
use agdd.Storage.Writes.{
  Write, open_connection, create, save_ticket, clean_up, write_all, write_all-HasReferences,
}
use agdd.Storage.GateBackend.{gate_backend, gate_backend-IsFaithful}
use agdd.Storage.Tickets.{
  IsClock, IsStorable, safe_record, get_approval_ticket-create_approval_ticket,
}
use agdd.Examples.TextClock.{
  ticks, untick, fact, small_dumps, small_loads, untick-ticks, ticks_not_empty,
}

abbrev codec : Codec
codec = record {
  dumps = small_dumps;
  loads = small_loads;
  isoformat = ticks;
  fromisoformat = untick;
  datetime = λ t. t;
}

clock : IsClock codec
clock = record { read_back = untick-ticks; not_empty = ticks_not_empty }

abbrev empty_backend : SqliteBackend
empty_backend = record {
  connected = false;
  enable_fts = false;
  database = record { runs = []; events = []; approvals = []; snapshots = [] };
}

abbrev run_args : String → Option String → ℕ → RunArgs
run_args id parent started_at = record {
  run_id = id;
  agent_slug = "lead";
  parent_run_id = parent;
  started_at = some started_at;
  status = "running";
  tags = none;
}

abbrev ticket : TicketRecord
ticket = record {
  ticket_id = "t1";
  run_id = "r1";
  agent_slug = "lead";
  tool_name = "rm";
  masked_args = fact;
  args_hash = "h";
  step_id = none;
  metadata = end;
  requested_at = 3;
  expires_at = 9;
  status = pending;
  resolved_at = none;
  resolved_by = none;
  decision_reason = none;
  response = none;
}

ticket-IsStorable : IsStorable codec ticket
unfolding small_dumps small_loads json_safe json_safe_fields
ticket-IsStorable = record {
  masked_args = ("{'a': 1}", refl, refl, λ e. cc);
  metadata = ("{}", refl, refl, λ e. cc);
  response = tt;
}

abbrev run_row : String → Option String → String → RunRow
run_row id parent started_at = record {
  run_id = id;
  agent_slug = "lead";
  parent_run_id = parent;
  started_at = started_at;
  ended_at = none;
  status = "running";
  metrics = "{}";
  tags = "[]";
}

abbrev with_runs : List RunRow → SqliteBackend
with_runs rows = record {
  connected = true;
  enable_fts = false;
  database = record { runs = rows; events = []; approvals = []; snapshots = [] };
}

get_approval_ticket-create_approval_ticket_example :
    (get_approval_ticket codec "t1"
      (create_approval_ticket codec ticket (with_runs (run_row "r1" none "t" ∷ []))).0).1
    ≡ ok (some (safe_record codec ticket))
unfolding has_run
get_approval_ticket-create_approval_ticket_example =
    get_approval_ticket-create_approval_ticket codec clock ticket ticket-IsStorable
      (with_runs (run_row "r1" none "t" ∷ [])) refl refl "t1"

gate_backend-IsFaithful_example : IsFaithful (gate_backend codec)
gate_backend-IsFaithful_example = gate_backend-IsFaithful codec

abbrev writes : List Write
writes =
    open_connection
    ∷ create 0 (run_args "r1" none 0)
    ∷ create 0 (run_args "r2" (some "r1") 9)
    ∷ save_ticket ticket
    ∷ clean_up 9 0 false
    ∷ []

write_all-HasReferences_example : HasReferences (write_all codec writes empty_backend).database
write_all-HasReferences_example =
    write_all-HasReferences codec writes empty_backend
      (record { parents = tt; events = tt; approvals = tt; snapshots = tt })

-- The child of a run that is deleted goes with it, however recent it is.
child_deleted :
    (delete_runs
      (λ r. str_eq r.started_at "t")
      (with_runs (run_row "r1" none "t" ∷ run_row "r2" (some "r1") "tttt" ∷ [])).database).runs
    ≡ []
unfolding delete_runs keep drop_orphans has_run
child_deleted = refl
