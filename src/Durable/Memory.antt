-- ===== src/Durable/Memory.antt =====
-- What the operations of the store do to the snapshots in memory.
use agdd.Prelude.{inl, inr, ℕ, String, ◌≡◌, refl, Option, arith}
use agdd.Dict
use agdd.Result.{Result, Result-cases}
use agdd.Value.{Fields, str, field, end}
use agdd.Durable.Snapshot.{Snapshot, snapshot_key}
use agdd.Durable.Store.{
  World, Store, StorageError, ensure_backend, initialize_run, ensure_run_initialized, write_out,
  snapshot_for, save_snapshot,
}
use agdd.Durable.Runner.{record_event, checkpoint}

module _ {W : Type 0} (w : World W) where
  pub snapshots-ensure_backend : (g : Store W) → (ensure_backend w g).1.snapshots ≡ g.snapshots
  unfolding ensure_backend
  snapshots-ensure_backend g = ground arith

  snapshots-initialize_run :
      (now : ℕ) (run_id : String) (metadata : Fields) (g : Store W)
      → (initialize_run w now run_id metadata g).snapshots ≡ g.snapshots
  unfolding initialize_run
  snapshots-initialize_run now run_id metadata g = ground arith

  snapshots-ensure_run_initialized :
      (now : ℕ) (run_id : String) (metadata : Fields) (g : Store W)
      → (ensure_run_initialized w now run_id metadata g).snapshots ≡ g.snapshots
  unfolding ensure_run_initialized
  snapshots-ensure_run_initialized now run_id metadata g = ground (
    arith,
    snapshots-ensure_backend g,
    snapshots-initialize_run now run_id metadata (ensure_backend w g).1,
  )

  snapshots-write_out : (s : Snapshot) (g : Store W) → (write_out w s g).0.snapshots ≡ g.snapshots
  unfolding write_out
  snapshots-write_out s g = ground arith

  -- A save puts the snapshot under its key, whether the storage takes it or not.
  pub snapshots-save_snapshot :
      (now : ℕ) (fresh run_id step_id : String) (state : Fields) (metadata : Option Fields)
      (g : Store W)
      → (save_snapshot w now fresh run_id step_id state metadata g).0.snapshots
        ≡ Dict.put g.snapshots
            (snapshot_key run_id step_id)
            (snapshot_for w now fresh run_id step_id state metadata g)
  unfolding save_snapshot
  snapshots-save_snapshot now fresh run_id step_id state metadata g =
      rw (snapshots-write_out, snapshots-ensure_run_initialized) refl

  pub snapshots-record_event :
      (now : ℕ) (run_id agent_slug event_type : String) (payload : Fields) (g : Store W)
      → (record_event w now run_id agent_slug event_type payload g).snapshots ≡ g.snapshots
  unfolding record_event
  snapshots-record_event now run_id agent_slug event_type payload g = ground (
    arith,
    snapshots-ensure_backend g,
    snapshots-ensure_run_initialized now run_id (field "agent_slug" (str agent_slug) end)
        (ensure_backend w g).1,
  )

  pub snapshots-checkpoint :
      (now : ℕ) (fresh run_id step_id : String) (state : Fields) (metadata : Option Fields)
      (g : Store W)
      → (checkpoint w now fresh run_id step_id state metadata g).0.snapshots
        ≡ Dict.put g.snapshots
            (snapshot_key run_id step_id)
            (snapshot_for w now fresh run_id step_id state metadata g)
  unfolding checkpoint Dict.put
  snapshots-checkpoint now fresh run_id step_id state metadata g = elim (Result-cases saved.1) [
    | inl (s, e) ↦ rw (e, checkpoint) (rw snapshots-record_event put)
    | inr (x, e) ↦ rw (e, checkpoint) put
  ]
    where
      saved : Store W × Result StorageError Snapshot
      saved = save_snapshot w now fresh run_id step_id state metadata g

      put :
          saved.0.snapshots
          ≡ Dict.put g.snapshots
              (snapshot_key run_id step_id)
              (snapshot_for w now fresh run_id step_id state metadata g)
      put = snapshots-save_snapshot now fresh run_id step_id state metadata g
