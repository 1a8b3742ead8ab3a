-- ===== src/Batch/Waiting.antt =====
-- A wait for a batch ends.
use agdd.Prelude.{
  ℕ, zero, suc, ◌+◌, ◌-◌, ◌*◌, ◌≤◌, ◌<◌, String, ◌≡◌, refl, if◌then◌else◌, subst, sym, Bool, true,
  false, some, arith,
}
use agdd.Result.{ok, raise}
use agdd.Batch.{
  BatchStatus, validating, failed, in_progress, finalizing, completed, expired, cancelling,
  cancelled, timed_out, BatchAnswer, BatchJob, Answer, Outside, next, job_of, get_batch_status,
}
use agdd.Batch.Loop.{
  verdict, Wait, finished, going_on, is_late, after_verdict, after_look, poll, wait_for_completion,
}

-- The wait returned a batch that is completed, or raised.
abbrev pub IsAnswer : Wait → Type 0
IsAnswer (finished (ok batch)) = batch.status ≡ completed
IsAnswer (finished (raise error)) = Unit
IsAnswer going_on = ⊥

-- The clock is not turned back by a look at the batch, and a sleep takes its time.
pub record IsForward {S : Type 0} (w : Outside S) (batch_id : String) (interval : ℕ) : Type 0 where
  pub looks : (s : S) → w.time s ≤ w.time (w.retrieve batch_id s).0
  pub sleeps : (s : S) → w.time s + interval ≤ w.time (w.sleep interval s)

module _ {S : Type 0} (w : Outside S) (batch_id : String) (interval timeout : ℕ) where
  next_state : (x : Answer S BatchAnswer) → (next x (λ a s. (s, job_of a))).0 ≡ x.0
  next_state (s, raise error) = refl
  next_state (s, ok a) = refl

  state-get_batch_status : (s : S) → (get_batch_status w batch_id s).0 ≡ (w.retrieve batch_id s).0
  unfolding get_batch_status
  state-get_batch_status s = next_state (w.retrieve batch_id s)

  late-IsAnswer :
      (b : Bool) (s : S) (later : S × Wait)
      → (b ≡ false → IsAnswer later.1)
      → IsAnswer (if◌then◌else◌ {A = S × Wait} b (s, finished (raise timed_out)) later).1
  late-IsAnswer true s later h = tt
  late-IsAnswer false s later h = h refl

  verdict-IsAnswer :
      (status : BatchStatus) (batch : BatchJob) (start : ℕ) (s : S) (later : S × Wait)
      → (is_late w (some timeout) start (w.time s) ≡ false → IsAnswer later.1)
      → IsAnswer
          (after_verdict w
            (verdict w (record batch { status = status }))
            (some timeout)
            start
            s
            later).1
  unfolding verdict
  verdict-IsAnswer completed batch start s later h = refl
  verdict-IsAnswer failed batch start s later h = tt
  verdict-IsAnswer expired batch start s later h = tt
  verdict-IsAnswer cancelled batch start s later h = tt
  verdict-IsAnswer validating batch start s later h = late-IsAnswer _ s later h
  verdict-IsAnswer in_progress batch start s later h = late-IsAnswer _ s later h
  verdict-IsAnswer finalizing batch start s later h = late-IsAnswer _ s later h
  verdict-IsAnswer cancelling batch start s later h = late-IsAnswer _ s later h

  look-IsAnswer :
      (x : Answer S BatchJob) (start : ℕ) (later : S → S × Wait)
      → (is_late w (some timeout) start (w.time x.0) ≡ false → IsAnswer (later x.0).1)
      → IsAnswer (after_look w x (some timeout) start later).1
  look-IsAnswer (s, raise error) start later h = tt
  look-IsAnswer (s, ok batch) start later h =
      verdict-IsAnswer batch.status batch start s (later s) h

  looked :
      (s : S) → IsForward w batch_id interval → w.time s ≤ w.time (get_batch_status w batch_id s).0
  looked s f = subst (λ t. w.time s ≤ w.time t) (sym (state-get_batch_status s)) (f.looks s)

  not-late :
      (now start : ℕ)
      → 0 < timeout
      → is_late w (some timeout) start now ≡ false
      → timeout < now - start
      → ⊥
  not-late now start some_time early late = ground arith

  suc_times : (n i : ℕ) → suc n * i ≡ i + n * i
  suc_times n i = grind arith

  poll-IsAnswer :
      IsForward w batch_id interval
      → 0 < timeout
      → (n start : ℕ) (s : S) → start ≤ w.time s
      → timeout < (w.time s - start) + n * interval
      → IsAnswer (poll w (suc n) batch_id interval (some timeout) start s).1
  unfolding poll
  poll-IsAnswer f some_time zero start s h enough =
      look-IsAnswer (get_batch_status w batch_id s) start _ (λ early. absurd (
        not-late (w.time (get_batch_status w batch_id s).0) start some_time early
          (omega (arith, enough, looked s f))))
  poll-IsAnswer f some_time (suc n) start s h enough =
      let s1 = (get_batch_status w batch_id s).0 in
      let later = looked s f in
      let slept = f.sleeps s1 in
      look-IsAnswer (get_batch_status w batch_id s) start _ (λ early.
        poll-IsAnswer f some_time n start (w.sleep interval s1) (omega (arith, h, later, slept))
          (omega (arith, later, slept, h, enough, suc_times n interval)))

  -- With a timeout, a wait ends once it may look so often that the sleeps between the looks are
  -- longer than the timeout: it returns a completed batch, or it raises. A look does not turn back the
  -- clock, and a sleep takes its time.
  pub wait_for_completion_ends :
      IsForward w batch_id interval
      → 0 < timeout
      → (sleeps : ℕ) (s : S) → timeout < sleeps * interval
      → IsAnswer (wait_for_completion w (suc sleeps) batch_id interval (some timeout) s).1
  unfolding wait_for_completion
  wait_for_completion_ends f some_time sleeps s enough =
      poll-IsAnswer f some_time sleeps (w.time s) s (omega arith) (omega (arith, enough))
