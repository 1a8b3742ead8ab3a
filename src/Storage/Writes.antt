-- ===== src/Storage/Writes.antt =====
-- Any writes to the SQLite backend, one after another.
use agdd.Prelude.{
  ℕ, String, Bool, true, false, not, Option, List, [], ◌∷◌, str_eq, Bool-cases, inl, inr,
}
use agdd.Result.{Result, ok, raise}
use agdd.Value.{Fields}
use agdd.Approval.Ticket.{TicketRecord}
use agdd.Durable.Snapshot.{Snapshot}
use agdd.Storage.Tables.{
  Codec, Database, SqliteBackend, StorageError, with_connection, initialize, close, text_lt,
}
use agdd.Storage.Runs.{
  EventArgs, RunArgs, insert_run, insert_event, write_update, write_row, event_row, append_event,
  run_row, create_run, update_of, update_run, nothing_to_update,
}
use agdd.Storage.Records.{
  write_ticket, write_snapshot, ticket_row, create_approval_ticket, snapshot_row,
  upsert_run_snapshot, delete_run_snapshots,
}
use agdd.Storage.Vacuum.{cutoff_of, vacuum}
use agdd.Storage.Cascade.{All-keep}
use agdd.Storage.References.{
  HasReferences, insert_run-HasReferences, insert_event-HasReferences, write_update-HasReferences,
  write_ticket-HasReferences, write_snapshot-HasReferences, delete_runs-HasReferences,
}

-- The calls that may change the tables.
pub data Write : Type 0 where
  open_connection close_connection : Write
  append : EventArgs → Write
  create : ℕ → RunArgs → Write
  update : String → Option String → Option ℕ → Option Fields → Write
  save_ticket : TicketRecord → Write
  save_snapshot : Snapshot → Write
  forget_snapshots : String → Write
  clean_up : ℕ → ℕ → Bool → Write

module _ (c : Codec) where
  abbrev pub write : Write → SqliteBackend → SqliteBackend
  write open_connection s = initialize s
  write close_connection s = close s
  write (append a) s = (append_event c a s).0
  write (create now a) s = (create_run c now a s).0
  write (update run_id status ended_at metrics) s =
      (update_run c run_id status ended_at metrics s).0
  write (save_ticket r) s = (create_approval_ticket c r s).0
  write (save_snapshot r) s = (upsert_run_snapshot c r s).0
  write (forget_snapshots run_id) s = (delete_run_snapshots c run_id s).0
  write (clean_up now hot_days dry_run) s = (vacuum c now hot_days dry_run s).0

  abbrev pub write_all : List Write → SqliteBackend → SqliteBackend
  write_all [] s = s
  write_all (w ∷ ws) s = write_all ws (write w s)

  -- A method keeps the references where its statement does.
  with_connection-HasReferences :
      {A : Type 0} (f : Database → Database × Result StorageError A) (s : SqliteBackend)
      → ((d : Database) → HasReferences d → HasReferences (f d).0)
      → HasReferences s.database
      → HasReferences (with_connection f s).0.database
  unfolding with_connection
  with_connection-HasReferences f s keeps h = elim (Bool-cases s.connected) [
    | inl e ↦ rw e (keeps s.database h)
    | inr e ↦ rw e h
  ]

  write_row-HasReferences :
      {R : Type 0} (f : R → Database → Database × Result StorageError (Unit {0}))
      (row : Result StorageError R)
      → ((r : R) (d : Database) → HasReferences d → HasReferences (f r d).0)
      → (d : Database) → HasReferences d
      → HasReferences (write_row f row d).0
  write_row-HasReferences f (raise error) keeps d h = h
  write_row-HasReferences f (ok r) keeps d h = keeps r d h

  write-HasReferences :
      (w : Write) (s : SqliteBackend)
      → HasReferences s.database
      → HasReferences (write w s).database
  unfolding initialize close append_event create_run update_run create_approval_ticket
      upsert_run_snapshot delete_run_snapshots vacuum
  write-HasReferences open_connection s h = h
  write-HasReferences close_connection s h = h
  write-HasReferences (append a) s h =
      with_connection-HasReferences _ s
        (write_row-HasReferences insert_event (event_row c a) insert_event-HasReferences) h
  write-HasReferences (create now a) s h =
      with_connection-HasReferences _ s
        (write_row-HasReferences insert_run (run_row c now a) insert_run-HasReferences) h
  write-HasReferences (update run_id status ended_at metrics) s h =
      with_connection-HasReferences _ s
        (λ d k. elim (Bool-cases (nothing_to_update c status ended_at metrics)) [
          | inl e ↦ rw e k
          | inr e ↦ rw e (
              write_row-HasReferences (write_update run_id) (update_of c status ended_at metrics)
                (write_update-HasReferences run_id) d k)
        ])
        h
  write-HasReferences (save_ticket r) s h =
      with_connection-HasReferences _ s
        (write_row-HasReferences write_ticket (ticket_row c r) write_ticket-HasReferences) h
  write-HasReferences (save_snapshot r) s h =
      with_connection-HasReferences _ s
        (write_row-HasReferences write_snapshot (snapshot_row c r) write_snapshot-HasReferences) h
  write-HasReferences (forget_snapshots run_id) s h =
      with_connection-HasReferences _ s
        (λ d k. record {
          parents = k.parents;
          events = k.events;
          approvals = k.approvals;
          snapshots = All-keep (λ r. not (str_eq r.run_id run_id)) _ d.snapshots k.snapshots;
        })
        h
  write-HasReferences (clean_up now hot_days true) s h =
      with_connection-HasReferences _ s (λ d k. k) h
  write-HasReferences (clean_up now hot_days false) s h =
      with_connection-HasReferences _ s
        (λ d k. delete_runs-HasReferences (λ r. text_lt r.started_at (cutoff_of c now hot_days)) d)
        h

  -- After any writes, connections and clean-ups on a backend whose references hold, such as an empty
  -- one, every parent of a run, event, ticket and snapshot in the tables refers to a run that is there.
  pub write_all-HasReferences :
      (ws : List Write) (s : SqliteBackend)
      → HasReferences s.database
      → HasReferences (write_all ws s).database
  write_all-HasReferences [] s h = h
  write_all-HasReferences (w ∷ ws) s h =
      write_all-HasReferences ws (write w s) (write-HasReferences w s h)
