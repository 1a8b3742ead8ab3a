-- ===== src/Storage/Vacuum.antt =====
-- `vacuum` of the SQLite backend, src/magsag/storage/backends/sqlite.py. The foreign keys delete on
-- cascade: the runs whose parent is gone, over and over, and then what belongs to a run that is gone.
use agdd.Prelude.{ℕ, zero, suc, ◌-◌, ◌*◌, ◌%◌, String, Bool, not, List, length, if◌then◌else◌}
use agdd.Result.{Result, ok}
use agdd.Storage.Tables.{
  Codec, RunRow, Database, SqliteBackend, StorageError, with_connection, keep, text_lt, has_run,
  parent_known,
}

-- A pass deletes the runs whose parent is not among the runs; fuel is one pass for each run.
unfoldable pub drop_orphans : ℕ → List RunRow → List RunRow
unfolding keep has_run
drop_orphans zero rows = rows
drop_orphans (suc n) rows = drop_orphans n (keep (λ r. parent_known r rows) rows)

-- DELETE FROM runs WHERE test
unfoldable pub delete_runs : (RunRow → Bool) → Database → Database
delete_runs test d =
    let rest = keep (λ r. not (test r)) d.runs in
    let runs = drop_orphans (length rest) rest in
    record {
      runs = runs;
      events = keep (λ e. has_run e.run_id runs) d.events;
      approvals = keep (λ a. has_run a.run_id runs) d.approvals;
      snapshots = keep (λ s. has_run s.run_id runs) d.snapshots;
    }

pub record VacuumReport : Type 0 where
  pub dry_run : Bool
  pub runs : ℕ
  pub events : ℕ
  pub cutoff : String

abbrev pub day : ℕ
day = 24 * 3600 * 1000000

module _ (c : Codec) where
  -- Midnight of the day of `now`, `hot_days` days before.
  abbrev pub cutoff_of : ℕ → ℕ → String
  cutoff_of now hot_days = c.isoformat (now - now % day - hot_days * day)

  unfoldable pub vacuum :
      ℕ → ℕ → Bool → SqliteBackend → SqliteBackend × Result StorageError VacuumReport
  vacuum now hot_days dry_run = with_connection (λ d.
      let cutoff = cutoff_of now hot_days in
      let report : VacuumReport = record {
        dry_run = dry_run;
        runs = length (keep (λ r. text_lt r.started_at cutoff) d.runs);
        events = length (keep (λ e. text_lt e.ts cutoff) d.events);
        cutoff = cutoff;
      } in
      if dry_run
      then (d, ok report)
      else (delete_runs (λ r. text_lt r.started_at cutoff) d, ok report))
