-- ===== src/Durable/Resume.antt =====
-- What `resume` returns after a checkpoint.
use agdd.Prelude.{ℕ, String, ◌≡◌, ◌≢◌, ap, ◌∙◌, subst, Option, some, arith, eq_iff}
use agdd.Dict
use agdd.Dict.{Dict, get-put, get-put_self, items-put_new, keys-put_known}
use agdd.Result.{ok}
use agdd.Value.{Fields}
use agdd.Durable.Snapshot.{Snapshot, snapshot_key}
use agdd.Durable.Store.{World, Store, snapshot_for, get_snapshot_by_step}
use agdd.Durable.Runner.{find_snapshot, checkpoint, resume}
use agdd.Durable.Keys.{snapshot_key_shift}
use agdd.Durable.Memory.{snapshots-checkpoint}

module _ {W : Type 0} (w : World W) where
  resume_known :
      (now : ℕ) (run_id step_id : String) (s : Snapshot) (g : Store W)
      → step_id ≢ ""
      → Dict.get g.snapshots (snapshot_key run_id step_id) ≡ some s
      → (resume w now run_id (some step_id) g).1 ≡ ok (some s.state)
  unfolding resume find_snapshot get_snapshot_by_step
  resume_known now run_id step_id s g ne h = ground (arith, eq_iff step_id "")

  state-snapshot_for :
      (now : ℕ) (fresh run_id step_id : String) (state : Fields) (metadata : Option Fields)
      (g : Store W)
      → (snapshot_for w now fresh run_id step_id state metadata g).state ≡ state
  unfolding snapshot_for
  state-snapshot_for now fresh run_id step_id state metadata g = ground arith

  -- After a checkpoint of a run at a step with a name, whether the storage took it or raised, the run
  -- resumes from that step with the state of the checkpoint.
  pub resume-checkpoint :
      (now later : ℕ) (fresh run_id step_id : String) (state : Fields) (metadata : Option Fields)
      (g : Store W)
      → step_id ≢ ""
      → (resume w later run_id
          (some step_id)
          (checkpoint w now fresh run_id step_id state metadata g).0).1
        ≡ ok (some state)
  resume-checkpoint now later fresh run_id step_id state metadata g ne =
      resume_known later run_id step_id (snapshot_for w now fresh run_id step_id state metadata g)
        (checkpoint w now fresh run_id step_id state metadata g).0 ne
        (rw snapshots-checkpoint (
          get-put_self g.snapshots (snapshot_key run_id step_id)
            (snapshot_for w now fresh run_id step_id state metadata g)))
      ∙ ap (λ (fs : Fields). ok (some fs))
          (state-snapshot_for now fresh run_id step_id state metadata g)

  -- A checkpoint leaves the other steps in memory alone: a step with another key resumes as before.
  pub resume_other :
      (now later : ℕ) (fresh run_id step_id other_run other_step : String) (state : Fields)
      (metadata : Option Fields) (s : Snapshot) (g : Store W)
      → other_step ≢ ""
      → snapshot_key run_id step_id ≢ snapshot_key other_run other_step
      → Dict.get g.snapshots (snapshot_key other_run other_step) ≡ some s
      → (resume w later other_run
          (some other_step)
          (checkpoint w now fresh run_id step_id state metadata g).0).1
        ≡ ok (some s.state)
  resume_other now later fresh run_id step_id other_run other_step state metadata s g ne apart h =
      resume_known later other_run other_step s
        (checkpoint w now fresh run_id step_id state metadata g).0 ne
        (rw snapshots-checkpoint (
          ground (
            arith,
            eq_iff (snapshot_key run_id step_id) (snapshot_key other_run other_step),
            get-put g.snapshots (snapshot_key run_id step_id) (snapshot_key other_run other_step)
                (snapshot_for w now fresh run_id step_id state metadata g),
          )))

  -- Where a colon may stand in the identifiers, two runs can share a key: a checkpoint of step `q` of
  -- the run `r:p` replaces the state that the run `r` resumes its step `p:q` with.
  pub resume_collides :
      (now later : ℕ) (fresh r p q : String) (state : Fields) (metadata : Option Fields)
      (g : Store W)
      → snapshot_key p q ≢ ""
      → (resume w later r
          (some (snapshot_key p q))
          (checkpoint w now fresh (snapshot_key r p) q state metadata g).0).1
        ≡ ok (some state)
  resume_collides now later fresh r p q state metadata g ne =
      resume_known later r (snapshot_key p q)
        (snapshot_for w now fresh (snapshot_key r p) q state metadata g)
        (checkpoint w now fresh (snapshot_key r p) q state metadata g).0 ne
        (rw snapshots-checkpoint (
          subst
            (λ k.
              Dict.get
                (Dict.put g.snapshots (snapshot_key (snapshot_key r p) q)
                  (snapshot_for w now fresh (snapshot_key r p) q state metadata g))
                k
              ≡ some (snapshot_for w now fresh (snapshot_key r p) q state metadata g))
            (snapshot_key_shift r p q)
            (get-put_self g.snapshots (snapshot_key (snapshot_key r p) q)
              (snapshot_for w now fresh (snapshot_key r p) q state metadata g))))
      ∙ ap (λ (fs : Fields). ok (some fs))
          (state-snapshot_for now fresh (snapshot_key r p) q state metadata g)
