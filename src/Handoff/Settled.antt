-- ===== src/Handoff/Settled.antt =====
-- What a handoff leaves in the table of requests.
use Prim.Native.String.{◌++◌ as append}
use agdd.Prelude.{
  ◌⊎◌, String, ◌≡◌, refl, sym, ◌∙◌, subst, Option, none, some, List, [], ◌∷◌, arith, All, inl, inr,
}
use agdd.Dict
use agdd.Dict.{Dict, All-put, put-put}
use agdd.Result.{Result, ok, raise}
use agdd.Value.{Fields}
use agdd.Evaluator.Policy.{Error}
use agdd.Approval.Gate.{Outside, Backend}
use agdd.Approval.Execution.{RawPermission}
use agdd.Handoff.Request.{HandoffStatus, in_progress, completed, failed, rejected, HandoffRequest}
use agdd.Handoff.Adapters.{HandoffAdapter}
use agdd.Handoff.Tool.{
  Environment, HandoffTool, Wanted, Moment, Verdict, allowed, awaited, refused, stopped,
  new_request, policy_context, get_adapter,
}
use agdd.Handoff.Calls.{
  record_event, by_permission, by_decision, require_gate, check_policy, by_evaluator, settle,
  run_adapter, execute, by_verdict, handoff, track, run_or_fail, requested,
}

-- A completed request has a result and no error; a failed or a rejected one has an error and no
-- result; no other is settled.
abbrev pub HasEnded : HandoffStatus → Option Fields → Option String → Type 0
HasEnded completed (some result) none = Unit
HasEnded failed none (some error) = Unit
HasEnded rejected none (some error) = Unit
HasEnded _ _ _ = ⊥

-- A request that stands under its own identifier and has ended.
abbrev pub IsSettled : String × HandoffRequest → Type 0
IsSettled (k, r) = (r.handoff_id ≡ k) × HasEnded r.status r.result r.error

abbrev pub AllSettled : {S W : Type 0} → HandoffTool S W → Type 0
AllSettled t = All IsSettled (Dict.items t.requests)

-- The requests after a handoff: as before, or with one more that has ended.
abbrev pub Leaves : String → Dict HandoffRequest → Dict HandoffRequest → Type 0
Leaves handoff_id before after =
    (after ≡ before)
    ⊎ ((r : HandoffRequest) × (r.handoff_id ≡ handoff_id)
        × HasEnded r.status r.result r.error
        × (after ≡ Dict.put before handoff_id r))

-- A request after its adapter has returned or raised.
abbrev pub ended : HandoffRequest → Result String Fields → HandoffRequest
ended r (ok result) = record r { status = completed; result = some result }
ended r (raise error) = record r { status = failed; error = some error }

module _ {S W : Type 0} (b : Backend S) (out : Outside) (env : Environment W) (c : Wanted)
    (m : Moment) where
  pub requests-record_event :
      (event_type message : String) (payload : Fields) (t : HandoffTool S W)
      → (record_event b out env c m event_type message payload t).requests ≡ t.requests
  unfolding record_event
  requests-record_event event_type message payload t = ground arith

  requests-by_permission :
      (p : Result Error RawPermission) (t : HandoffTool S W)
      → (by_permission b out env c m p t).0.requests ≡ t.requests
  unfolding by_permission by_decision require_gate
  requests-by_permission p t = ground arith

  pub requests-by_evaluator :
      (e : Option (String → Fields → Result Error RawPermission)) (t : HandoffTool S W)
      → (by_evaluator b out env c m e t).0.requests ≡ t.requests
  unfolding by_evaluator
  requests-by_evaluator none t = refl
  requests-by_evaluator (some evaluate) t =
      requests-by_permission (evaluate "handoff" (policy_context c)) t

  requests-settle :
      (r : HandoffRequest) (answer : Result String Fields) (t : HandoffTool S W)
      → (settle b out env c m r answer t).0.requests
        ≡ Dict.put t.requests r.handoff_id (ended r answer)
  unfolding settle
  requests-settle r (ok result) t = requests-record_event _ _ _ _
  requests-settle r (raise error) t = requests-record_event _ _ _ _

  pub requests-run_adapter :
      (r : HandoffRequest) (a : HandoffAdapter W) (t : HandoffTool S W)
      → (let started : HandoffRequest = record r { status = in_progress } in
          (run_adapter b out env c m r a t).0.requests
          ≡ Dict.put t.requests r.handoff_id (ended started (a.execute_handoff started t.world).1))
  unfolding run_adapter
  requests-run_adapter r a t =
      let started : HandoffRequest = record r { status = in_progress } in
      let tracked = track started t in
      let (w, answer) = a.execute_handoff started tracked.world in
      requests-settle started answer (record tracked { world = w })
      ∙ put-put t.requests r.handoff_id started (ended started answer)

  HasEnded-ended :
      (answer : Result String Fields)
      → (let r = ended (record (new_request c m) { status = in_progress }) answer in
          HasEnded r.status r.result r.error)
  unfolding new_request
  HasEnded-ended (ok result) = tt
  HasEnded-ended (raise error) = tt

  handoff_id-ended :
      (answer : Result String Fields)
      → (ended (record (new_request c m) { status = in_progress }) answer).handoff_id ≡ m.handoff_id
  unfolding new_request
  handoff_id-ended (ok result) = refl
  handoff_id-ended (raise error) = refl

  requests-run_or_fail :
      (a : Option (HandoffAdapter W)) (t : HandoffTool S W)
      → Leaves m.handoff_id t.requests (run_or_fail b out env c m (new_request c m) a t).0.requests
  unfolding run_or_fail
  requests-run_or_fail none t =
      unfold new_request in
      inr (
        record (new_request c m) {
          status = failed;
          error = some (append "Unsupported platform: " c.platform);
        },
        refl,
        tt,
        refl,
      )
  requests-run_or_fail (some a) t =
      let started : HandoffRequest = record (new_request c m) { status = in_progress } in
      let answer = (a.execute_handoff started t.world).1 in
      let wrote = requests-run_adapter (new_request c m) a t in
      unfold new_request in
      inr (
        ended (record (new_request c m) { status = in_progress }) answer,
        handoff_id-ended answer,
        HasEnded-ended answer,
        wrote,
      )

  requests-execute :
      (t : HandoffTool S W)
      → Leaves m.handoff_id t.requests (execute b out env c m (new_request c m) t).0.requests
  unfolding execute
  requests-execute t =
      let t' = requested b out env c m t in
      subst
        (λ d.
          Leaves m.handoff_id d
            (run_or_fail b out env c m (new_request c m) (get_adapter c.platform t'.adapters)
              t').0.requests)
        (requests-record_event _ _ _ t)
        (requests-run_or_fail (get_adapter c.platform t'.adapters) t')

  requests-by_verdict :
      (verdict : Verdict) (t : HandoffTool S W)
      → Leaves m.handoff_id t.requests
          (by_verdict b out env c m (new_request c m) verdict t).0.requests
  unfolding by_verdict
  requests-by_verdict allowed t = requests-execute t
  requests-by_verdict awaited t = inl refl
  requests-by_verdict (stopped error) t = inl refl
  requests-by_verdict (refused reason error) t =
      unfold new_request in
      inr (record (new_request c m) { status = rejected; error = some reason }, refl, tt, refl)

  -- A handoff writes nothing into the table, or it writes one request, under its own identifier, and
  -- that request has ended.
  pub requests-handoff :
      (t : HandoffTool S W) → Leaves m.handoff_id t.requests (handoff b out env c m t).0.requests
  unfolding handoff
  requests-handoff t =
      let (t', verdict) = check_policy b out env c m t in
      subst
        (λ d.
          Leaves m.handoff_id d (by_verdict b out env c m (new_request c m) verdict t').0.requests)
        (requests-by_evaluator t.permission_evaluator t) (requests-by_verdict verdict t')

  AllSettled-handoff : (t : HandoffTool S W) → AllSettled t → AllSettled (handoff b out env c m t).0
  AllSettled-handoff t h = elim (requests-handoff t) [
    | inl same ↦ subst (λ d. All IsSettled (Dict.items d)) (sym same) h
    | inr (r, named, over, same) ↦
        subst (λ d. All IsSettled (Dict.items d)) (sym same)
          (All-put IsSettled t.requests m.handoff_id r (named, over) h)
  ]

-- Handoffs one after another.
abbrev pub handoff_all :
    {S W : Type 0}
    → Backend S
    → Outside
    → Environment W
    → List (Wanted × Moment)
    → HandoffTool S W
    → HandoffTool S W
handoff_all b out env [] t = t
handoff_all b out env ((c, m) ∷ calls) t = handoff_all b out env calls (handoff b out env c m t).0

-- After any handoffs on a tool whose requests have all ended, such as a new one, every request in
-- the table stands under its own identifier and is completed with a result, or failed or rejected
-- with an error.
pub AllSettled-handoff_all :
    {S W : Type 0} (b : Backend S) (out : Outside) (env : Environment W)
    (calls : List (Wanted × Moment)) (t : HandoffTool S W)
    → AllSettled t
    → AllSettled (handoff_all b out env calls t)
AllSettled-handoff_all b out env [] t h = h
AllSettled-handoff_all b out env ((c, m) ∷ calls) t h =
    AllSettled-handoff_all b out env calls (handoff b out env c m t).0
      (AllSettled-handoff b out env c m t h)
