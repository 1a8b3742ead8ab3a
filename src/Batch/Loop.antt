-- ===== src/Batch/Loop.antt =====
-- The wait for a batch and the submission, `wait_for_completion` and `submit_batch` of
-- src/magsag/optimization/batch.py.
use agdd.Prelude.{
  ℕ, zero, suc, ◌-◌, String, Bool, false, not, ◌&&◌, Option, none, some, List, ltb, ◌==◌,
  if◌then◌else◌,
}
use agdd.Result.{Result, ok, raise}
use agdd.Value.{Fields}
use agdd.Batch.{
  BatchEndpoint, failed, completed, expired, cancelled, BatchError, ended, timed_out, BatchRequest,
  BatchJob, Answer, Outside, next, create_batch_file, create_batch, get_batch_status,
}

-- The end of a wait: it returned or raised, or it goes on after the looks that the fuel allows.
pub data Wait : Type 0 where
  finished : Result BatchError BatchJob → Wait
  going_on : Wait

module _ {S : Type 0} (w : Outside S) where
  -- One look at the batch: it is over, or the wait goes on.
  unfoldable pub verdict : BatchJob → Option (Result BatchError BatchJob)
  verdict batch = elim batch.status [
    | completed ↦ some (ok batch)
    | failed ↦ some (raise (ended failed))
    | expired ↦ some (raise (ended expired))
    | cancelled ↦ some (raise (ended cancelled))
    | _ ↦ none
  ]

  -- `timeout and (time.time() - start_time) > timeout`
  abbrev pub is_late : Option ℕ → ℕ → ℕ → Bool
  is_late none start now = false
  is_late (some timeout) start now = not (timeout == 0) && ltb timeout (now - start)

  -- What follows a look whose verdict is given; `later` is the rest of the wait.
  abbrev pub after_verdict :
      Option (Result BatchError BatchJob) → Option ℕ → ℕ → S → S × Wait → S × Wait
  after_verdict (some answer) timeout start s later = (s, finished answer)
  after_verdict none timeout start s later =
      if is_late timeout start (w.time s) then (s, finished (raise timed_out)) else later

  abbrev pub after_look : Answer S BatchJob → Option ℕ → ℕ → (S → S × Wait) → S × Wait
  after_look (s, raise error) timeout start later = (s, finished (raise error))
  after_look (s, ok batch) timeout start later =
      after_verdict (verdict batch) timeout start s (later s)

  -- The loop: a look, and if the wait goes on, a sleep before the next one.
  unfoldable pub poll : ℕ → String → ℕ → Option ℕ → ℕ → S → S × Wait
  poll zero batch_id interval timeout start s = (s, going_on)
  poll (suc n) batch_id interval timeout start s =
      after_look (get_batch_status w batch_id s) timeout start
        (λ s1. poll n batch_id interval timeout start (w.sleep interval s1))

  unfoldable pub wait_for_completion : ℕ → String → ℕ → Option ℕ → S → S × Wait
  wait_for_completion looks batch_id interval timeout s =
      poll looks batch_id interval timeout (w.time s) s

  -- `submit_batch`, whose wait has no timeout.
  unfoldable pub submit_batch :
      ℕ → List BatchRequest → BatchEndpoint → Option Fields → Bool → ℕ → S → S × Wait
  submit_batch looks requests endpoint metadata wait interval s =
      let (s', answer) =
        next (create_batch_file w requests none s)
          (λ path s1. next (w.upload path s1) (λ id s2. create_batch w id endpoint metadata s2)) in
      elim answer [
        | raise error ↦ (s', finished (raise error))
        | ok batch ↦
            if wait
            then wait_for_completion looks batch.id interval none s'
            else (s', finished (ok batch))
      ]
