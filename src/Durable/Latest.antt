-- ===== src/Durable/Latest.antt =====
-- The latest snapshot of a run, and saves of a step that is there already.
use agdd.Prelude.{
  ℕ, ◌<◌, String, ◌≡◌, refl, ap, ◌∙◌, Option, none, some, List, [], ◌∷◌, ◌++◌, arith, All, eq_iff,
  get_or,
}
use agdd.Dict
use agdd.Dict.{Dict, get-put_self, items-put_new, keys-put_known}
use agdd.Result.{ok}
use agdd.Value.{Fields, end}
use agdd.Durable.Snapshot.{Snapshot, snapshot_key, of_run, latest}
use agdd.Durable.Store.{World, Store, snapshot_for, save_snapshot, get_latest_snapshot}
use agdd.Durable.Runner.{find_snapshot, checkpoint, resume}
use agdd.Durable.Memory.{snapshots-checkpoint, snapshots-save_snapshot}

of_run-append :
    (run_id : String) (l m : List (String × Snapshot))
    → of_run run_id (l ++ m) ≡ of_run run_id l ++ of_run run_id m
unfolding of_run
of_run-append run_id [] m = refl
of_run-append run_id ((k, s) ∷ l) m = ground (arith, of_run-append run_id l m)

latest_newest :
    (best s : Snapshot) (l : List Snapshot)
    → best.created_at < s.created_at
    → All (λ (t : Snapshot). t.created_at < s.created_at) l
    → latest best (l ++ (s ∷ [])) ≡ s
unfolding latest
latest_newest best s [] h hl = ground arith
latest_newest best s (t ∷ l) h hl =
    ground (arith, latest_newest best s l h hl.1, latest_newest t s l hl.0 hl.1)

abbrev pub newest : List Snapshot → Snapshot → Option Snapshot
newest [] s = none
newest (t ∷ l) s = some (latest t l)

pub newest_last :
    (s : Snapshot) (l : List Snapshot)
    → All (λ (t : Snapshot). t.created_at < s.created_at) l
    → newest (l ++ (s ∷ [])) s ≡ some s
unfolding latest
newest_last s [] h = refl
newest_last s (t ∷ l) h = ap some (latest_newest t s l h.0 h.1)

module _ {W : Type 0} (w : World W) where
  -- The snapshot of a step that is saved for the first time.
  abbrev pub first_snapshot : ℕ → String → String → String → Fields → Option Fields → Snapshot
  first_snapshot now fresh run_id step_id state metadata = record {
    snapshot_id = fresh;
    run_id = run_id;
    step_id = step_id;
    created_at = now;
    state = state;
    metadata = get_or metadata end;
  }

  pub snapshot_for_new :
      (now : ℕ) (fresh run_id step_id : String) (state : Fields) (metadata : Option Fields)
      (g : Store W)
      → Dict.get g.snapshots (snapshot_key run_id step_id) ≡ none
      → snapshot_for w now fresh run_id step_id state metadata g
        ≡ first_snapshot now fresh run_id step_id state metadata
  unfolding snapshot_for
  snapshot_for_new now fresh run_id step_id state metadata g h = ground arith

  pub snapshot_for_known :
      (now : ℕ) (fresh run_id step_id : String) (state : Fields) (metadata : Option Fields)
      (old : Snapshot) (g : Store W)
      → Dict.get g.snapshots (snapshot_key run_id step_id) ≡ some old
      → snapshot_for w now fresh run_id step_id state metadata g
        ≡ record old { state = state; metadata = get_or metadata end }
  unfolding snapshot_for
  snapshot_for_known now fresh run_id step_id state metadata old g h = ground arith

  pub of_run-put :
      (k run_id : String) (s : Snapshot) (d : Dict Snapshot)
      → Dict.get d k ≡ none
      → s.run_id ≡ run_id
      → of_run run_id (Dict.items (Dict.put d k s)) ≡ of_run run_id (Dict.items d) ++ (s ∷ [])
  of_run-put k run_id s d h same =
      ap (of_run run_id) (items-put_new d k s h)
      ∙ of_run-append run_id (Dict.items d) ((k, s) ∷ [])
      ∙ unfold of_run in ground (arith, eq_iff s.run_id run_id)

  pub resume-newest :
      (now : ℕ) (run_id : String) (s : Snapshot) (g : Store W)
      → newest (of_run run_id (Dict.items g.snapshots)) s ≡ some s
      → (resume w now run_id none g).1 ≡ ok (some s.state)
  unfolding resume find_snapshot get_latest_snapshot
  resume-newest now run_id s g h = ground arith

  -- A checkpoint of a new step, taken later than every snapshot of the run in memory, is what the run
  -- resumes with when no step is named.
  pub resume_latest :
      (now later : ℕ) (fresh run_id step_id : String) (state : Fields) (metadata : Option Fields)
      (g : Store W)
      → Dict.get g.snapshots (snapshot_key run_id step_id) ≡ none
      → All (λ (t : Snapshot). t.created_at < now) (of_run run_id (Dict.items g.snapshots))
      → (resume w later run_id none (checkpoint w now fresh run_id step_id state metadata g).0).1
        ≡ ok (some state)
  resume_latest now later fresh run_id step_id state metadata g new before =
      let s = first_snapshot now fresh run_id step_id state metadata in
      resume-newest later run_id s (checkpoint w now fresh run_id step_id state metadata g).0 (
        rw (snapshots-checkpoint, snapshot_for_new now fresh run_id step_id state metadata g new)
          (rw (of_run-put (snapshot_key run_id step_id) run_id s g.snapshots new refl)
            (newest_last s (of_run run_id (Dict.items g.snapshots)) before)))

  -- A save of a step that is in memory already keeps the snapshot's identifier, run, step and time of
  -- creation, and adds no snapshot: the keys in memory are the same, in the same order.
  pub save_again :
      (now : ℕ) (fresh run_id step_id : String) (state : Fields) (metadata : Option Fields)
      (old : Snapshot) (g : Store W)
      → Dict.get g.snapshots (snapshot_key run_id step_id) ≡ some old
      → let g1 = (save_snapshot w now fresh run_id step_id state metadata g).0 in
        (Dict.keys g1.snapshots ≡ Dict.keys g.snapshots)
        × (Dict.get g1.snapshots (snapshot_key run_id step_id)
            ≡ some (record old { state = state; metadata = get_or metadata end }))
  save_again now fresh run_id step_id state metadata old g h =
      rw
        (
          snapshots-save_snapshot,
          snapshot_for_known now fresh run_id step_id state metadata old g h,
        )
        (
          keys-put_known g.snapshots (snapshot_key run_id step_id)
              (record old { state = state; metadata = get_or metadata end }) old h,
          get-put_self g.snapshots (snapshot_key run_id step_id)
              (record old { state = state; metadata = get_or metadata end }),
        )
