-- ===== src/Durable/Runner.antt =====
-- `DurableRunner`, src/magsag/runners/durable.py.
use agdd.Prelude.{ℕ, String, Option, none, some, [], ◌∷◌, if◌then◌else◌, str_eq, get_or}
use agdd.Result.{Result, ok, raise}
use agdd.Value.{Fields, str, dict, end, field}
use agdd.Serialization.{json_safe_fields}
use agdd.Approval.Gate.{first_text}
use agdd.Durable.Snapshot.{Snapshot}
use agdd.Durable.Store.{
  World, Store, StorageError, ensure_backend, ensure_run_initialized, save_snapshot,
  get_latest_snapshot, get_snapshot_by_step,
}

unfoldable pub resolve_agent_slug : Fields → String
unfolding first_text
resolve_agent_slug metadata = get_or (first_text ("agent_slug" ∷ "agent" ∷ []) metadata) "unknown"

module _ {W : Type 0} (w : World W) where
  -- A failure to append is logged, and leaves no trace here.
  unfoldable pub record_event : ℕ → String → String → String → Fields → Store W → Store W
  record_event now run_id agent_slug event_type payload g =
      let (available, g1) = ensure_backend w g in
      if available
      then (let g2 =
            ensure_run_initialized w now run_id (field "agent_slug" (str agent_slug) end) g1 in
          record g2 {
            world = w.append_event g2.world (record {
              run_id = run_id;
              agent_slug = agent_slug;
              event_type = event_type;
              timestamp = now;
              payload = json_safe_fields payload;
            });
          })
      else g1

  unfoldable pub checkpoint :
      ℕ
      → String
      → String
      → String
      → Fields
      → Option Fields
      → Store W
      → Store W × Result StorageError Snapshot
  checkpoint now fresh run_id step_id state metadata g =
      let (g1, saved) = save_snapshot w now fresh run_id step_id state metadata g in
      elim saved [
        | raise e ↦ (g1, raise e)
        | ok s ↦ (
          record_event now run_id (resolve_agent_slug (get_or metadata end)) "run.snapshot.saved"
              (field "snapshot_id" (str s.snapshot_id) (
                field "step_id" (str s.step_id)
                  (field "metadata" (dict (get_or metadata end)) end)))
              g1,
          ok s,
        )
      ]

  -- `if from_step`: an absent or an empty step asks for the latest.
  unfoldable pub find_snapshot :
      String → Option String → Store W → Store W × Result StorageError (Option Snapshot)
  find_snapshot run_id none g = get_latest_snapshot w run_id g
  find_snapshot run_id (some step_id) g =
      if str_eq step_id ""
      then get_latest_snapshot w run_id g
      else get_snapshot_by_step w run_id step_id g

  unfoldable pub resume :
      ℕ → String → Option String → Store W → Store W × Result StorageError (Option Fields)
  resume now run_id from_step g =
      let (g1, found) = find_snapshot run_id from_step g in
      elim found [
        | raise e ↦ (g1, raise e)
        | ok none ↦ (g1, ok none)
        | ok (some s) ↦ (
          record_event now run_id (resolve_agent_slug s.metadata) "run.resume"
              (field "snapshot_id" (str s.snapshot_id) (field "step_id" (str s.step_id) end)) g1,
          ok (some s.state),
        )
      ]
