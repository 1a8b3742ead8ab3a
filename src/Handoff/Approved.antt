-- ===== src/Handoff/Approved.antt =====
-- A handoff whose ticket is approved in time.
use agdd.Prelude.{
  ℕ, ◌<◌, String, ◌≡◌, refl, sym, ap, ◌∙◌, arith, get_or, subst, Option, none, some, List, [], ◌∷◌,
  ◌++◌, All,
}
use agdd.Dict
use agdd.Dict.{get-put_self}
use agdd.Result.{Result, ok, raise}
use agdd.Value.{Fields, end}
use agdd.Permissions.{require_approval}
use agdd.Evaluator.Policy.{Error}
use agdd.Approval.Ticket.{Ticket, approved}
use agdd.Approval.Gate.{Outside, Backend, Gate}
use agdd.Approval.Create.{create_ticket, new_ticket, timeout_of}
use agdd.Approval.Execution.{
  Round, approve, wait_for_decision, decided, restore_args, RawPermission, permission,
}
use agdd.Approval.Resolve.{resolved}
use agdd.Approval.Lookup.{tickets-persist, tickets-ensure_run}
use agdd.Approval.Liveness.Waits.{IsOpen, quiet, wait_approved}
use agdd.Approval.Liveness.Calls.{deadline}
use agdd.Handoff.Request.{HandoffRequest, in_progress}
use agdd.Handoff.Adapters.{HandoffAdapter}
use agdd.Handoff.Tool.{
  Environment, HandoffTool, adapter_error, Wanted, Moment, Ending, finished, Verdict, allowed,
  new_request, policy_context, get_adapter, get_handoff,
}
use agdd.Handoff.Calls.{
  answer_of, decision_of, record_event, verdict_of, ask_gate, require_gate, by_permission,
  by_decision, by_evaluator, settle, run_adapter, run_or_fail, execute, by_verdict, handoff,
  run_or_unknown, ticket_args, ticket_metadata, requested,
}
use agdd.Handoff.Settled.{ended, requests-run_adapter}

-- What a handoff comes to after its adapter has returned or raised.
abbrev pub ending_of : String → Result String Fields → Ending
ending_of handoff_id (ok result) = finished (ok (answer_of handoff_id result))
ending_of handoff_id (raise error) = finished (raise (adapter_error error))

-- The handoff ended as the adapter answered to the request in progress, in the world `w`, and the
-- request is kept with that answer.
abbrev pub HasCalled :
    {S W : Type 0} → HandoffAdapter W → HandoffRequest → W → HandoffTool S W × Ending → Type 0
HasCalled a r w x =
    let started : HandoffRequest = record r { status = in_progress } in
    let answer = (a.execute_handoff started w).1 in
    (x.1 ≡ ending_of r.handoff_id answer)
    × (get_handoff r.handoff_id x.0 ≡ some (ended started answer))

module _ {S W : Type 0} (b : Backend S) (out : Outside) (env : Environment W) (c : Wanted)
    (m : Moment) where
  abbrev new_handoff_ticket : Gate S → Ticket
  new_handoff_ticket g =
      new_ticket out m.now m.ticket_id (run_or_unknown c.run_id) c.source_agent "handoff"
        (ticket_args c) none (timeout_of none g.default_timeout_minutes) (some (ticket_metadata c))

  abbrev with_ticket : Gate S → Gate S
  with_ticket g =
      (create_ticket b out m.now m.ticket_id (run_or_unknown c.run_id) c.source_agent "handoff"
        (ticket_args c) none none (some (ticket_metadata c)) g).0

  with_ticket-IsOpen : (g : Gate S) → IsOpen (new_handoff_ticket g) (with_ticket g)
  unfolding create_ticket new_ticket
  with_ticket-IsOpen g = record {
    found =
        rw (tickets-persist, tickets-ensure_run)
          (get-put_self g.tickets m.ticket_id (new_handoff_ticket g));
    open_status = refl;
  }

  ending-settle :
      (r : HandoffRequest) (answer : Result String Fields) (t : HandoffTool S W)
      → (settle b out env c m r answer t).1 ≡ ending_of r.handoff_id answer
  unfolding settle
  ending-settle r (ok result) t = refl
  ending-settle r (raise error) t = refl

  adapters-record_event :
      (event_type message : String) (payload : Fields) (t : HandoffTool S W)
      → (record_event b out env c m event_type message payload t).adapters ≡ t.adapters
  unfolding record_event
  adapters-record_event event_type message payload t = ground arith

  -- The events that are recorded do not depend on the gate.
  world-record_event :
      (event_type message : String) (payload : Fields) (gate : Option (Gate S))
      (t : HandoffTool S W)
      → (record_event b out env c m event_type message payload
          (record t { approval_gate = gate })).world
        ≡ (record_event b out env c m event_type message payload t).world
  unfolding record_event
  world-record_event event_type message payload gate t = ground arith

  run_or_fail-HasCalled :
      (r : HandoffRequest) (a : HandoffAdapter W) (t : HandoffTool S W)
      → HasCalled a r t.world (run_or_fail b out env c m r (some a) t)
  unfolding run_or_fail get_handoff
  run_or_fail-HasCalled r a t =
      let started : HandoffRequest = record r { status = in_progress } in
      let answer = (a.execute_handoff started t.world).1 in
      (
        unfold run_adapter in ending-settle started answer _,
        ap (λ d. Dict.get d r.handoff_id) (requests-run_adapter b out env c m r a t)
            ∙ get-put_self t.requests r.handoff_id (ended started answer),
      )

  execute-HasCalled :
      (r : HandoffRequest) (a : HandoffAdapter W) (gate : Option (Gate S)) (t : HandoffTool S W)
      → get_adapter c.platform t.adapters ≡ some a
      → HasCalled a r
          (requested b out env c m t).world
          (execute b out env c m r (record t { approval_gate = gate }))
  unfolding execute
  execute-HasCalled r a gate t found =
      let t' = requested b out env c m (record t { approval_gate = gate }) in
      let same =
        ap (get_adapter c.platform)
          (adapters-record_event _ _ _ (record t { approval_gate = gate }))
        ∙ found in
      let called : HasCalled a r t'.world (run_or_fail b out env c m r (some a) t') =
        run_or_fail-HasCalled r a t' in
      subst
        (λ o. HasCalled a r (requested b out env c m t).world (run_or_fail b out env c m r o t'))
        (sym same)
        (subst (λ w. HasCalled a r w (run_or_fail b out env c m r (some a) t'))
          (world-record_event _ _ _ gate t) called)

  -- The handoff that follows this verdict calls the adapter in the world `w`.
  abbrev CallsAdapter : HandoffAdapter W → W → HandoffTool S W × Verdict → Type 0
  CallsAdapter a w x =
      HasCalled a (new_request c m) w (by_verdict b out env c m (new_request c m) x.1 x.0)

  module _ (early : List ℕ) (at polled : ℕ) (by : String) (response : Option Fields)
      (reason : Option String) (rest : List Round) where
    ask_gate_approved :
        (g : Gate S)
        → m.rounds
          ≡ quiet early
            ++ (record { before = approve at m.ticket_id by response reason ∷ []; now = polled }
                ∷ rest)
        → All (λ n. n < deadline g m.now) early
        → polled < deadline g m.now
        → (ask_gate b out env c m g).1 ≡ allowed
    unfolding ask_gate create_ticket new_ticket verdict_of
    ask_gate_approved g rounds he h = ap (verdict_of b out env) (
        subst
          (λ l.
            (wait_for_decision b out l (new_handoff_ticket g) (with_ticket g)).1
            ≡ decided (
                ok (
                  restore_args (new_handoff_ticket g)
                    (resolved at approved by reason (get_or response end) (new_handoff_ticket g)))))
          (sym rounds)
          (wait_approved b out (new_handoff_ticket g) (with_ticket g) (with_ticket-IsOpen g) early
            at polled by response reason rest he h))

    -- Where the evaluator asks for approval, the tool has a gate and an adapter for the platform, and
    -- after polls before the deadline at which nobody had acted, somebody approves the ticket of the
    -- handoff, and the next poll is before the deadline too, the handoff hands the request, in
    -- progress, to that adapter, in the world in which the event of the request has been recorded. The
    -- handoff returns the result of the adapter, or raises its exception, and the request is kept as
    -- completed with that result, or as failed with that exception.
    pub handoff_approved :
        (evaluate : String → Fields → Result Error RawPermission) (g : Gate S)
        (a : HandoffAdapter W) (t : HandoffTool S W)
        → t.permission_evaluator ≡ some evaluate
        → evaluate "handoff" (policy_context c) ≡ ok (permission require_approval)
        → t.approval_gate ≡ some g
        → get_adapter c.platform t.adapters ≡ some a
        → m.rounds
          ≡ quiet early
            ++ (record { before = approve at m.ticket_id by response reason ∷ []; now = polled }
                ∷ rest)
        → All (λ n. n < deadline g m.now) early
        → polled < deadline g m.now
        → HasCalled a (new_request c m) (requested b out env c m t).world (handoff b out env c m t)
    unfolding handoff by_evaluator by_permission by_decision decision_of require_gate by_verdict
    handoff_approved evaluate g a t has asks gated found rounds he h =
        let gate : Option (Gate S) = some (ask_gate b out env c m g).0 in
        let waited : HandoffTool S W = record t { approval_gate = gate } in
        let w = (requested b out env c m t).world in
        let allowed_run = execute-HasCalled (new_request c m) a gate t found in
        let gate_run : CallsAdapter a w (require_gate b out env c m (some g) t) =
          subst (λ v. CallsAdapter a w (waited, v)) (sym (ask_gate_approved g rounds he h))
            allowed_run in
        let asked_run : CallsAdapter a w
            (by_permission b out env c m (ok (permission require_approval)) t) =
          subst (λ o. CallsAdapter a w (require_gate b out env c m o t)) (sym gated) gate_run in
        let evaluated : CallsAdapter a w (by_evaluator b out env c m (some evaluate) t) =
          subst (λ p. CallsAdapter a w (by_permission b out env c m p t)) (sym asks) asked_run in
        subst (λ o. CallsAdapter a w (by_evaluator b out env c m o t)) (sym has) evaluated
