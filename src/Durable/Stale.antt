-- ===== src/Durable/Stale.antt =====
-- A step that is saved again after a later step, src/magsag/runners/durable.py.
use agdd.Prelude.{
  ℕ, ◌<◌, String, ◌≡◌, ◌≢◌, refl, sym, ap, ◌∙◌, ◌++◌, Option, none, some, [], ◌∷◌, arith, All,
  All-append, eq_iff, get_or,
}
use agdd.Dict
use agdd.Dict.{Dict, get-put, get-put_self, put-put, put-put_apart}
use agdd.Result.{ok}
use agdd.Value.{Fields, end}
use agdd.Durable.Snapshot.{Snapshot, snapshot_key, of_run}
use agdd.Durable.Store.{World, Store}
use agdd.Durable.Runner.{checkpoint, resume}
use agdd.Durable.Memory.{snapshots-checkpoint}
use agdd.Durable.Latest.{
  newest_last, first_snapshot, snapshot_for_new, snapshot_for_known, of_run-put, resume-newest,
}

get-put_apart :
    {V : Type 0} (d : Dict V) (j k : String) (v : V)
    → j ≢ k
    → Dict.get (Dict.put d j v) k ≡ Dict.get d k
get-put_apart d j k v ne = ground (arith, eq_iff j k, get-put d j k v)

-- The two writes to the first key are one.
put_again :
    {V : Type 0} (d : Dict V) (j k : String) (u v w : V)
    → j ≢ k
    → Dict.put (Dict.put (Dict.put d j u) k w) j v ≡ Dict.put (Dict.put d j v) k w
put_again d j k u v w ne =
    put-put_apart (Dict.put d j u) j k v w u (get-put_self d j u) ne
    ∙ ap (λ c. Dict.put c k w) (put-put d j u v)

module _ {W : Type 0} (w : World W) where
  snapshots_new :
      (now : ℕ) (fresh run_id step_id : String) (state : Fields) (metadata : Option Fields)
      (g : Store W)
      → Dict.get g.snapshots (snapshot_key run_id step_id) ≡ none
      → (checkpoint w now fresh run_id step_id state metadata g).0.snapshots
        ≡ Dict.put g.snapshots
            (snapshot_key run_id step_id)
            (first_snapshot w now fresh run_id step_id state metadata)
  snapshots_new now fresh run_id step_id state metadata g h =
      snapshots-checkpoint w now fresh run_id step_id state metadata g
      ∙ ap (Dict.put g.snapshots (snapshot_key run_id step_id))
          (snapshot_for_new w now fresh run_id step_id state metadata g h)

  snapshots_known :
      (now : ℕ) (fresh run_id step_id : String) (state : Fields) (metadata : Option Fields)
      (old : Snapshot) (g : Store W)
      → Dict.get g.snapshots (snapshot_key run_id step_id) ≡ some old
      → (checkpoint w now fresh run_id step_id state metadata g).0.snapshots
        ≡ Dict.put g.snapshots
            (snapshot_key run_id step_id)
            (record old { state = state; metadata = get_or metadata end })
  snapshots_known now fresh run_id step_id state metadata old g h =
      snapshots-checkpoint w now fresh run_id step_id state metadata g
      ∙ ap (Dict.put g.snapshots (snapshot_key run_id step_id))
          (snapshot_for_known w now fresh run_id step_id state metadata old g h)

  module _ (n1 n2 n3 : ℕ) (f1 f2 f3 run_id a b : String) (s1 s2 s3 : Fields)
      (m1 m2 m3 : Option Fields) (g : Store W) where
    abbrev after_first : Store W
    after_first = (checkpoint w n1 f1 run_id a s1 m1 g).0

    abbrev after_second : Store W
    after_second = (checkpoint w n2 f2 run_id b s2 m2 after_first).0

    abbrev kept_a : Snapshot
    kept_a = first_snapshot w n1 f1 run_id a s1 m1

    abbrev kept_b : Snapshot
    kept_b = first_snapshot w n2 f2 run_id b s2 m2

    abbrev again_a : Snapshot
    again_a = record kept_a { state = s3; metadata = get_or m3 end }

    -- The snapshots of two new steps of which the first is saved once more.
    snapshots_again :
        Dict.get g.snapshots (snapshot_key run_id a) ≡ none
        → Dict.get g.snapshots (snapshot_key run_id b) ≡ none
        → snapshot_key run_id a ≢ snapshot_key run_id b
        → (checkpoint w n3 f3 run_id a s3 m3 after_second).0.snapshots
          ≡ Dict.put
              (Dict.put g.snapshots (snapshot_key run_id a) again_a)
              (snapshot_key run_id b)
              kept_b
    snapshots_again new_a new_b ne =
        let first = snapshots_new n1 f1 run_id a s1 m1 g new_a in
        let get_b =
          ap (λ d. Dict.get d (snapshot_key run_id b)) first
          ∙ (get-put_apart g.snapshots (snapshot_key run_id a) (snapshot_key run_id b) kept_a ne
              ∙ new_b) in
        let second =
          snapshots_new n2 f2 run_id b s2 m2 after_first get_b
          ∙ ap (λ d. Dict.put d (snapshot_key run_id b) kept_b) first in
        let get_a =
          ap (λ d. Dict.get d (snapshot_key run_id a)) second
          ∙ (get-put_apart (Dict.put g.snapshots (snapshot_key run_id a) kept_a)
                (snapshot_key run_id b) (snapshot_key run_id a) kept_b (λ e. ne (sym e))
              ∙ get-put_self g.snapshots (snapshot_key run_id a) kept_a) in
        snapshots_known n3 f3 run_id a s3 m3 kept_a after_second get_a
        ∙ (ap (λ d. Dict.put d (snapshot_key run_id a) again_a) second
            ∙ put_again g.snapshots (snapshot_key run_id a) (snapshot_key run_id b) kept_a again_a
                kept_b ne)

    -- Where a step that is saved already is saved again after a later step, a run without a named step
    -- resumes with the later step, in the older of the two states: a step keeps the time of its first
    -- checkpoint. Both steps are new to the run, their keys differ, the second step is later than the
    -- first, and every other snapshot of the run in memory is older than the second step.
    pub resume_stale :
        (later : ℕ)
        → Dict.get g.snapshots (snapshot_key run_id a) ≡ none
        → Dict.get g.snapshots (snapshot_key run_id b) ≡ none
        → snapshot_key run_id a ≢ snapshot_key run_id b
        → n1 < n2
        → All (λ (t : Snapshot). t.created_at < n2) (of_run run_id (Dict.items g.snapshots))
        → (resume w later run_id none (checkpoint w n3 f3 run_id a s3 m3 after_second).0).1
          ≡ ok (some s2)
    resume_stale later new_a new_b ne earlier before =
        resume-newest w later run_id kept_b (checkpoint w n3 f3 run_id a s3 m3 after_second).0 (
          rw (snapshots_again new_a new_b ne) (
            rw
              (of_run-put w (snapshot_key run_id b) run_id kept_b
                (Dict.put g.snapshots (snapshot_key run_id a) again_a)
                (get-put_apart g.snapshots (snapshot_key run_id a) (snapshot_key run_id b) again_a
                    ne
                  ∙ new_b)
                refl)
              (rw (of_run-put w (snapshot_key run_id a) run_id again_a g.snapshots new_a refl) (
                newest_last kept_b (of_run run_id (Dict.items g.snapshots) ++ (again_a ∷ [])) (
                  All-append (λ (t : Snapshot). t.created_at < n2)
                    (of_run run_id (Dict.items g.snapshots)) (again_a ∷ []) before
                    (earlier, tt))))))
