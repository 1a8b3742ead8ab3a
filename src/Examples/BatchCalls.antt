-- ===== src/Examples/BatchCalls.antt =====
-- A wait for a batch that never ends runs into its timeout.
use agdd.Prelude.{ℕ, suc, ◌+◌, ◌≡◌, refl, none, some, [], arith}
use agdd.Result.{ok, raise}
use agdd.Value.{null}
use agdd.Batch.{BatchAnswer, timed_out, Outside, status_of, job_of, get_batch_status}
use agdd.Batch.Loop.{finished, verdict, poll, wait_for_completion}
use agdd.Batch.Waiting.{IsAnswer, IsForward, wait_for_completion_ends}

abbrev running : BatchAnswer
running = record {
  id = "b1";
  status = "in_progress";
  endpoint = "/v1/responses";
  created_at = 0;
  completed_at = none;
  failed_at = none;
  expires_at = none;
  request_counts = none;
  metadata = none;
  output_file_id = none;
}

-- The state is the time in seconds, and a look takes one.
abbrev service : Outside ℕ
service = record {
  dumps = λ v. ok [];
  loads = λ t. ok null;
  time = λ s. s;
  sleep = λ n s. s + n;
  default_path = λ n. "batch.jsonl";
  write_file = λ path t s. (s, ok tt);
  upload = λ path s. (s, ok "f1");
  content = λ id s. (s, ok []);
  create = λ id endpoint metadata s. (s, ok running);
  retrieve = λ id s. (suc s, ok running);
  cancel = λ id s. (s, ok running);
}

service-IsForward : IsForward service "b1" 60
service-IsForward = record { looks = λ s. omega arith; sleeps = λ s. omega arith }

timeout_test :
    wait_for_completion service 3 "b1" 60 (some 100) 7 ≡ (130, finished (raise timed_out))
unfolding wait_for_completion poll get_batch_status job_of status_of verdict
timeout_test = refl

wait_for_completion_ends_example : IsAnswer (wait_for_completion service 3 "b1" 60 (some 100) 7).1
wait_for_completion_ends_example =
    wait_for_completion_ends service "b1" 60 100 service-IsForward (omega arith) 2 7 (omega arith)
