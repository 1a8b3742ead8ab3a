-- ===== src/Memory/Runs.antt =====
-- Runs of operations on a store of memories.
use agdd.Prelude.{◌≡◌, refl, subst, Bool, true, false, none, List, [], ◌∷◌, All}
use agdd.Memory.Row.{Codec}
use agdd.Memory.Sqlite.{SqliteStore, initialize, find_row}
use agdd.Memory.Roundtrip.{IsClock, IsStorable}
use agdd.Memory.Table.{IsTable, view}
use agdd.Memory.Spec.{
  Operation, Memories, create, get, update, delete, expire, clean, run, run_all, spec_run,
  spec_run_all,
}
use agdd.Memory.Refine.{Refines, Follows, create-Follows, update-Follows, get-Follows}
use agdd.Memory.Deletions.{delete-Follows, expire-Follows, clean-Follows}

module _ {N : Type 0} (c : Codec N) (k : IsClock c) where
  -- What is written can be stored.
  abbrev pub CanStore : Operation N → Type 0
  CanStore (create e) = IsStorable c e
  CanStore (update now e) = IsStorable c e
  CanStore _ = Unit

  run-Follows :
      (op : Operation N) (s : SqliteStore)
      → CanStore op
      → s.connected ≡ true
      → IsTable c s.memories
      → Follows c k op s
  run-Follows (create e) s h o t = create-Follows c k e s h o t
  run-Follows (get now id) s h o t = get-Follows c k now id s o t
  run-Follows (update now e) s h o t = update-Follows c k now e s h o t
  run-Follows (delete id) s h o t = delete-Follows c k id s o t
  run-Follows (expire now) s h o t = expire-Follows c k now s o t
  run-Follows (clean now scope days dry_run) s h o t =
      clean-Follows c k now scope days dry_run s o t

  run_all-Refines :
      (ops : List (Operation N)) (s : SqliteStore) (m : Memories c)
      → All CanStore ops
      → Refines c k s m
      → Refines c k (run_all c ops s).0 (spec_run_all c ops m).0
        × ((run_all c ops s).1 ≡ (spec_run_all c ops m).1)
  unfolding run_all spec_run_all
  run_all-Refines [] s m h r = (r, refl)
  run_all-Refines (op ∷ ops) s m h r =
      let (q, out) = run-Follows op s h.0 r.connected r.table in
      let q' = subst (λ x. Refines c k (run c op s).0 (spec_run c op x).0) r.same q in
      let out' = subst (λ x. (run c op s).1 ≡ (spec_run c op x).1) r.same out in
      let (rest, outs) = run_all-Refines ops (run c op s).0 (spec_run c op m).0 h.1 q' in
      (rest, cc (out', outs))

  abbrev pub fresh : Bool → SqliteStore
  fresh enable_fts =
      initialize c (record { connected = false; enable_fts = enable_fts; memories = [] })

  fresh-Refines : (enable_fts : Bool) → Refines c k (fresh enable_fts) (λ id. none)
  unfolding initialize find_row
  fresh-Refines enable_fts = record {
    connected = refl;
    table = record { distinct = tt; stored_rows = tt };
    same = refl;
  }

  -- Any run of operations on a fresh store, the refused ones included, has the outcomes that the map
  -- from identifiers to entries has, and leaves a table that stands for that map. The values written
  -- are values that JSON keeps, and times are texts in the order of time. How many entries a clean-up
  -- removes is not compared.
  pub run_all_refines_spec :
      (ops : List (Operation N)) (enable_fts : Bool)
      → All CanStore ops
      → (view c (run_all c ops (fresh enable_fts)).0.memories ≡ (spec_run_all c ops (λ id. none)).0)
        × ((run_all c ops (fresh enable_fts)).1 ≡ (spec_run_all c ops (λ id. none)).1)
  run_all_refines_spec ops enable_fts h =
      let (r, outs) =
        run_all-Refines ops (fresh enable_fts) (λ id. none) h (fresh-Refines enable_fts) in
      (r.same, outs)
