-- ===== src/Durable/Store.antt =====
-- `SnapshotStore`, src/magsag/runners/durable.py. Each operation takes the time that `datetime.now`
-- returns in it and the identifier that `uuid4` returns; two operations do not interleave.
use agdd.Prelude.{
  ℕ, String, Bool, true, false, Option, none, some, List, [], ◌∷◌, ltb, length, if◌then◌else◌,
  str_eq, get_or,
}
use agdd.Dict
use agdd.Dict.{Dict}
use agdd.Result.{Result, ok, raise}
use agdd.Value.{Fields, end}
use agdd.Approval.Gate.{NewRun, contains}
use agdd.Durable.Snapshot.{
  Snapshot, RunEvent, snapshot_key, extract_agent_slug, extract_parent, extract_clean_tags, of_run,
  latest, sort_by_time, add_missing, remove_all, keys_of_run,
}

-- What the store calls outside: `get_storage_backend`, the methods of StorageBackend
-- (src/magsag/storage/base.py) and the snapshot files, on a state `W`. `false` or an outer `none` is
-- an exception.
pub record World (W : Type 0) : Type 0 where
  pub get_storage_backend : W → Bool × W
  pub get_run : W → String → Option Bool × W
  pub create_run : W → NewRun → Bool × W
  pub upsert_run_snapshot : W → Snapshot → Bool × W
  pub get_run_snapshot : W → String → String → Option (Option Snapshot) × W
  pub get_latest_run_snapshot : W → String → Option (Option Snapshot) × W
  pub list_run_snapshots : W → String → Option (List Snapshot) × W
  pub delete_run_snapshots : W → String → Option ℕ × W
  pub append_event : W → RunEvent → W
  pub write_snapshot_file : W → Snapshot → Bool × W
  pub read_snapshot_file : W → String → String → Option (Option Snapshot) × W
  pub read_latest_file : W → String → Option (Option Snapshot) × W

-- `storage_backend is not None` is `bound`; the backend itself is in the world.
pub record Store (W : Type 0) : Type 0 where
  pub snapshots : Dict Snapshot
  pub initialized_runs : List String
  pub bound : Bool
  pub world : W

pub data StorageError : Type 0 where
  storage_error : StorageError

module _ {W : Type 0} (w : World W) where
  unfoldable pub ensure_backend : Store W → Bool × Store W
  ensure_backend g =
      if g.bound
      then (true, g)
      else let (found, s) = w.get_storage_backend g.world in
        (found, record g { bound = found; world = s })

  -- The part of `ensure_run_initialized` that holds the lock.
  unfoldable pub initialize_run : ℕ → String → Fields → Store W → Store W
  initialize_run now run_id metadata g =
      let (existing, s1) = w.get_run g.world run_id in
      if get_or existing false
      then record g { initialized_runs = run_id ∷ g.initialized_runs; world = s1 }
      else let new_run : NewRun = record {
        run_id = run_id;
        agent_slug = extract_agent_slug metadata;
        parent_run_id = extract_parent metadata;
        started_at = now;
        tags = extract_clean_tags metadata;
      } in
        let (created, s2) = w.create_run s1 new_run in
        if created
        then record g { initialized_runs = run_id ∷ g.initialized_runs; world = s2 }
        else record g { world = s2 }

  unfoldable pub ensure_run_initialized : ℕ → String → Fields → Store W → Store W
  ensure_run_initialized now run_id metadata g =
      if str_eq run_id ""
      then g
      else if contains run_id g.initialized_runs
      then g
      else let (available, g1) = ensure_backend g in
        if available then initialize_run now run_id metadata g1 else g1

  -- The record goes to the backend if there is one, else to a file.
  unfoldable pub write_out : Snapshot → Store W → Store W × Bool
  write_out s g =
      let (written, s1) =
        if g.bound then w.upsert_run_snapshot g.world s else w.write_snapshot_file g.world s in
      (record g { world = s1 }, written)

  -- The snapshot that stands in memory after the first part of `save_snapshot`.
  unfoldable pub snapshot_for :
      ℕ → String → String → String → Fields → Option Fields → Store W → Snapshot
  snapshot_for now fresh run_id step_id state metadata g =
      elim (Dict.get g.snapshots (snapshot_key run_id step_id)) [
        | some old ↦ record old { state = state; metadata = get_or metadata end }
        | none ↦ record {
          snapshot_id = fresh;
          run_id = run_id;
          step_id = step_id;
          created_at = now;
          state = state;
          metadata = get_or metadata end;
        }
      ]

  unfoldable pub save_snapshot :
      ℕ
      → String
      → String
      → String
      → Fields
      → Option Fields
      → Store W
      → Store W × Result StorageError Snapshot
  save_snapshot now fresh run_id step_id state metadata g =
      let s = snapshot_for now fresh run_id step_id state metadata g in
      let g1 : Store W = record g {
        snapshots = Dict.put g.snapshots (snapshot_key run_id step_id) s;
      } in
      let (g2, written) = write_out s (ensure_run_initialized now run_id s.metadata g1) in
      (g2, if written then ok s else raise storage_error)

  -- A snapshot that the backend returned is kept in memory.
  unfoldable pub keep_loaded :
      Option (Option Snapshot) → Store W → Store W × Result StorageError (Option Snapshot)
  keep_loaded none g = (g, raise storage_error)
  keep_loaded (some none) g = (g, ok none)
  keep_loaded (some (some s)) g = (
    record g { snapshots = Dict.put g.snapshots (snapshot_key s.run_id s.step_id) s },
    ok (some s),
  )

  -- What a file holds is not kept in memory.
  unfoldable pub from_file :
      Option (Option Snapshot) → Store W → Store W × Result StorageError (Option Snapshot)
  from_file none g = (g, raise storage_error)
  from_file (some found) g = (g, ok found)

  unfoldable pub get_latest_snapshot :
      String → Store W → Store W × Result StorageError (Option Snapshot)
  get_latest_snapshot run_id g = elim (of_run run_id (Dict.items g.snapshots)) [
    | [] ↦
        if g.bound
        then (let (answer, s) = w.get_latest_run_snapshot g.world run_id in
            keep_loaded answer (record g { world = s }))
        else (let (answer, s) = w.read_latest_file g.world run_id in
            from_file answer (record g { world = s }))
    | s ∷ l ↦ (g, ok (some (latest s l)))
  ]

  unfoldable pub get_snapshot_by_step :
      String → String → Store W → Store W × Result StorageError (Option Snapshot)
  get_snapshot_by_step run_id step_id g =
      elim (Dict.get g.snapshots (snapshot_key run_id step_id)) [
        | some s ↦ (g, ok (some s))
        | none ↦
            if g.bound
            then (let (answer, s) = w.get_run_snapshot g.world run_id step_id in
                keep_loaded answer (record g { world = s }))
            else (let (answer, s) = w.read_snapshot_file g.world run_id step_id in
                from_file answer (record g { world = s }))
      ]

  unfoldable pub list_snapshots : String → Store W → Store W × Result StorageError (List Snapshot)
  list_snapshots run_id g =
      let (available, g1) = ensure_backend g in
      if available
      then (let (answer, s) = w.list_run_snapshots g1.world run_id in
          elim answer [
            | none ↦ (record g1 { world = s }, raise storage_error)
            | some records ↦
                let d = add_missing records g1.snapshots in
                (
                  record g1 { world = s; snapshots = d },
                  ok (sort_by_time (of_run run_id (Dict.items d))),
                )
          ])
      else (g1, ok (sort_by_time (of_run run_id (Dict.items g1.snapshots))))

  unfoldable pub delete_snapshots : String → Store W → Store W × Result StorageError ℕ
  delete_snapshots run_id g =
      let keys = keys_of_run run_id (Dict.items g.snapshots) in
      let (available, g1) = ensure_backend (record g { snapshots = remove_all keys g.snapshots }) in
      if available
      then (let (answer, s) = w.delete_run_snapshots g1.world run_id in
          elim answer [
            | none ↦ (record g1 { world = s }, raise storage_error)
            | some n ↦
                (record g1 { world = s }, ok (if ltb n (length keys) then length keys else n))
          ])
      else (g1, ok (length keys))
