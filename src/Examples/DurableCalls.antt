-- ===== src/Examples/DurableCalls.antt =====
-- Snapshots over a storage that takes everything and returns nothing.
use agdd.Prelude.{
  ◌<◌, ℕ, String, ◌≡◌, ◌≢◌, refl, true, none, some, List, [], ◌∷◌, arith, All, eq_iff,
}
use agdd.Dict
use agdd.Dict.{get-put_self}
use agdd.Result.{ok}
use agdd.Value.{pos, Fields, int, end, field}
use agdd.Durable.Snapshot.{Snapshot, snapshot_key, of_run, sort_by_time, add_missing}
use agdd.Durable.Store.{World, Store, ensure_backend, list_snapshots}
use agdd.Durable.Runner.{checkpoint, resume}
use agdd.Durable.Keys.{HasNoColon}
use agdd.Durable.Resume.{resume-checkpoint, resume_collides}
use agdd.Durable.Latest.{resume_latest}
use agdd.Durable.Stale.{resume_stale}

abbrev silent : World (Unit {0})
silent = record {
  get_storage_backend = λ s. (true, s);
  get_run = λ s id. (some true, s);
  create_run = λ s run. (true, s);
  upsert_run_snapshot = λ s r. (true, s);
  get_run_snapshot = λ s run_id step_id. (some none, s);
  get_latest_run_snapshot = λ s run_id. (some none, s);
  list_run_snapshots = λ s run_id. (some [], s);
  delete_run_snapshots = λ s run_id. (some 0, s);
  append_event = λ s e. s;
  write_snapshot_file = λ s r. (true, s);
  read_snapshot_file = λ s run_id step_id. (some none, s);
  read_latest_file = λ s run_id. (some none, s);
}

abbrev counter : ℕ → Fields
counter n = field "n" (int (pos n)) end

abbrev saved : Snapshot
saved = record {
  snapshot_id = "s1";
  run_id = "r1";
  step_id = "plan";
  created_at = 5;
  state = counter 1;
  metadata = end;
}

abbrev store_with : Snapshot → Store (Unit {0})
store_with s = record {
  snapshots = Dict.put Dict.empty (snapshot_key "r1" "plan") s;
  initialized_runs = [];
  bound = true;
  world = tt;
}

resume-checkpoint_example :
    (resume silent 9 "r1"
      (some "plan")
      (checkpoint silent 8 "s2" "r1" "plan" (counter 2) none (store_with saved)).0).1
    ≡ ok (some (counter 2))
resume-checkpoint_example =
    resume-checkpoint silent 8 9 "s2" "r1" "plan" (counter 2) none (store_with saved) (λ e. cc)

apart : snapshot_key "r1" "act" ≢ snapshot_key "r1" "plan"
unfolding snapshot_key
apart e = absurd (cc ((eq_iff (snapshot_key "r1" "act") (snapshot_key "r1" "plan")).1 e))

some_key : snapshot_key "p" "q" ≢ ""
unfolding snapshot_key
some_key e = cc

resume_collides_example :
    (resume silent 9 "r"
      (some (snapshot_key "p" "q"))
      (checkpoint silent 8 "s2" (snapshot_key "r" "p") "q" (counter 2) none (store_with saved)).0).1
    ≡ ok (some (counter 2))
resume_collides_example =
    resume_collides silent 8 9 "s2" "r" "p" "q" (counter 2) none (store_with saved) some_key

act_is_new : Dict.get (store_with saved).snapshots (snapshot_key "r1" "act") ≡ none
unfolding Dict.get Dict.put Dict.empty snapshot_key
act_is_new = refl

plan_is_older :
    All (λ (t : Snapshot). t.created_at < 8) (of_run "r1" (Dict.items (store_with saved).snapshots))
unfolding Dict.put Dict.empty of_run
plan_is_older = (omega arith, tt)

saved_is_older :
    All (λ (t : Snapshot). t.created_at < 7) (of_run "r1" (Dict.items (store_with saved).snapshots))
unfolding Dict.put Dict.empty of_run
saved_is_older = (omega arith, tt)

resume_latest_example :
    (resume silent 9 "r1" none
      (checkpoint silent 8 "s2" "r1" "act" (counter 2) none (store_with saved)).0).1
    ≡ ok (some (counter 2))
resume_latest_example =
    resume_latest silent 8 9 "s2" "r1" "act" (counter 2) none (store_with saved) act_is_new
      plan_is_older

check_is_new : Dict.get (store_with saved).snapshots (snapshot_key "r1" "check") ≡ none
unfolding Dict.get Dict.put Dict.empty snapshot_key
check_is_new = refl

act_check_apart : snapshot_key "r1" "act" ≢ snapshot_key "r1" "check"
unfolding snapshot_key
act_check_apart e = absurd (cc ((eq_iff (snapshot_key "r1" "act") (snapshot_key "r1" "check")).1 e))

-- The step `act` is saved at 6 and 8, and `check` at 7.
resume_stale_example :
    (resume silent 9 "r1" none
      (checkpoint silent 8 "s4" "r1" "act"
        (counter 5)
        none
        (checkpoint silent 7 "s3" "r1" "check"
          (counter 4)
          none
          (checkpoint silent 6 "s2" "r1" "act" (counter 3) none (store_with saved)).0).0).0).1
    ≡ ok (some (counter 4))
resume_stale_example =
    resume_stale silent 6 7 8 "s2" "s3" "s4" "r1" "act" "check" (counter 3) (counter 4) (counter 5)
      none none none (store_with saved) 9 act_is_new check_is_new act_check_apart (omega arith)
      saved_is_older

abbrev run : String
run = "r1"

abbrev plan : String
plan = "plan"

no_colon : HasNoColon "r1"
no_colon = (λ e. cc, (λ e. cc, tt))

abbrev listed : List Snapshot
listed = saved ∷ []

lists_one : (list_snapshots silent "r1" (store_with saved)).1 ≡ ok listed
unfolding list_snapshots ensure_backend of_run sort_by_time add_missing Dict.put Dict.empty
lists_one = refl
