-- ===== src/Handoff/Refusals.antt =====
-- What a refused handoff leaves behind.
use agdd.Prelude.{String, ◌≡◌, refl, Option, none, some}
use agdd.Dict
use agdd.Dict.{get-put_self}
use agdd.Result.{Result, ok, raise}
use agdd.Value.{Fields}
use agdd.Permissions.{ToolPermission, always, require_approval, never}
use agdd.Evaluator.Policy.{Error}
use agdd.Approval.Gate.{Outside, Backend, Gate}
use agdd.Approval.Create.{create_ticket}
use agdd.Approval.Execution.{Poll, waiting, decided, wait_for_decision, RawPermission}
use agdd.Handoff.Request.{HandoffRequest, in_progress, rejected}
use agdd.Handoff.Adapters.{HandoffAdapter}
use agdd.Handoff.Tool.{
  Environment, HandoffTool, HandoffError, not_allowed, gate_missing, approval_failed, Wanted,
  Moment, Ending, finished, refused, new_request, policy_context, get_adapter, get_handoff,
}
use agdd.Handoff.Calls.{
  decision_of, verdict_of, ask_gate, require_gate, by_permission, by_decision, by_evaluator, settle,
  run_adapter, run_or_fail, execute, by_verdict, handoff, run_or_unknown, ticket_args,
  ticket_metadata, track, requested,
}

-- The handoff raised `PermissionError`.
abbrev pub IsRefusal : Ending → Type 0
IsRefusal (finished (raise not_allowed)) = Unit
IsRefusal (finished (raise gate_missing)) = Unit
IsRefusal (finished (raise (approval_failed error))) = Unit
IsRefusal _ = ⊥

-- What adapters and the storage of events change is as before, and the table of requests has one
-- more, which is rejected and found under its identifier.
abbrev pub IsRejected : {S W : Type 0} → String → HandoffTool S W → HandoffTool S W → Type 0
IsRejected handoff_id before after =
    (after.world ≡ before.world)
    × (after.has_storage ≡ before.has_storage)
    × ((r : HandoffRequest) × (r.status ≡ rejected)
        × (after.requests ≡ Dict.put before.requests handoff_id r)
        × (get_handoff handoff_id after ≡ some r))

module _ {S W : Type 0} (b : Backend S) (out : Outside) (env : Environment W) (c : Wanted)
    (m : Moment) where
  refused-IsRejected :
      (reason : String) (error : HandoffError) (t : HandoffTool S W)
      → IsRejected m.handoff_id t
          (by_verdict b out env c m (new_request c m) (refused reason error) t).0
  unfolding by_verdict get_handoff new_request
  refused-IsRejected reason error t =
      (refl, refl, (_, refl, refl, get-put_self t.requests m.handoff_id _))

  settle-IsRefusal :
      (r : HandoffRequest) (answer : Result String Fields) (t : HandoffTool S W)
      → IsRefusal (settle b out env c m r answer t).1
      → ⊥
  unfolding settle
  settle-IsRefusal r (ok result) t h = h
  settle-IsRefusal r (raise error) t h = h

  run_or_fail-IsRefusal :
      (r : HandoffRequest) (a : Option (HandoffAdapter W)) (t : HandoffTool S W)
      → IsRefusal (run_or_fail b out env c m r a t).1
      → ⊥
  unfolding run_or_fail run_adapter
  run_or_fail-IsRefusal r none t h = h
  run_or_fail-IsRefusal r (some a) t h =
      let started : HandoffRequest = record r { status = in_progress } in
      let tracked = track started t in
      let (w, answer) = a.execute_handoff started tracked.world in
      settle-IsRefusal started answer (record tracked { world = w }) h

  verdict_of-IsRejected :
      (p : Poll) (t : HandoffTool S W)
      → IsRefusal (by_verdict b out env c m (new_request c m) (verdict_of b out env p) t).1
      → IsRejected m.handoff_id t
          (by_verdict b out env c m (new_request c m) (verdict_of b out env p) t).0
  unfolding verdict_of by_verdict execute
  verdict_of-IsRejected waiting t h = absurd h
  verdict_of-IsRejected (decided (ok ticket)) t h =
      let t' = requested b out env c m t in
      absurd (run_or_fail-IsRefusal (new_request c m) (get_adapter c.platform t'.adapters) t' h)
  verdict_of-IsRejected (decided (raise error)) t h = refused-IsRejected _ (approval_failed error) t

  require_gate-IsRejected :
      (gate : Option (Gate S)) (t : HandoffTool S W)
      → (let (t', verdict) = require_gate b out env c m gate t in
          IsRefusal (by_verdict b out env c m (new_request c m) verdict t').1
          → IsRejected m.handoff_id t (by_verdict b out env c m (new_request c m) verdict t').0)
  unfolding require_gate ask_gate
  require_gate-IsRejected none t = λ h. refused-IsRejected _ gate_missing t
  require_gate-IsRejected (some g) t = λ h.
      let (g1, ticket) =
        create_ticket b out m.now m.ticket_id (run_or_unknown c.run_id) c.source_agent "handoff"
          (ticket_args c) none none (some (ticket_metadata c)) g in
      verdict_of-IsRejected (wait_for_decision b out m.rounds ticket g1).1
        (record t { approval_gate = some (ask_gate b out env c m g).0 }) h

  by_decision-IsRejected :
      (p : ToolPermission) (t : HandoffTool S W)
      → (let (t', verdict) = by_decision b out env c m p t in
          IsRefusal (by_verdict b out env c m (new_request c m) verdict t').1
          → IsRejected m.handoff_id t (by_verdict b out env c m (new_request c m) verdict t').0)
  unfolding by_decision by_verdict execute
  by_decision-IsRejected never t = λ h. refused-IsRejected _ not_allowed t
  by_decision-IsRejected always t = λ h.
      let t' = requested b out env c m t in
      absurd (run_or_fail-IsRefusal (new_request c m) (get_adapter c.platform t'.adapters) t' h)
  by_decision-IsRejected require_approval t = require_gate-IsRejected t.approval_gate t

  by_permission-IsRejected :
      (p : Result Error RawPermission) (t : HandoffTool S W)
      → (let (t', verdict) = by_permission b out env c m p t in
          IsRefusal (by_verdict b out env c m (new_request c m) verdict t').1
          → IsRejected m.handoff_id t (by_verdict b out env c m (new_request c m) verdict t').0)
  unfolding by_permission by_verdict
  by_permission-IsRejected (raise error) t = λ h. absurd h
  by_permission-IsRejected (ok answer) t = by_decision-IsRejected (decision_of answer) t

  by_evaluator-IsRejected :
      (e : Option (String → Fields → Result Error RawPermission)) (t : HandoffTool S W)
      → (let (t', verdict) = by_evaluator b out env c m e t in
          IsRefusal (by_verdict b out env c m (new_request c m) verdict t').1
          → IsRejected m.handoff_id t (by_verdict b out env c m (new_request c m) verdict t').0)
  unfolding by_evaluator by_verdict execute
  by_evaluator-IsRejected none t = λ h.
      let t' = requested b out env c m t in
      absurd (run_or_fail-IsRefusal (new_request c m) (get_adapter c.platform t'.adapters) t' h)
  by_evaluator-IsRejected (some evaluate) t =
      by_permission-IsRejected (evaluate "handoff" (policy_context c)) t

  -- In a handoff that raises `PermissionError`, because the policy forbids it, because it needs
  -- approval and there is no gate, or because the approval was denied or timed out, neither an adapter
  -- nor the storage of events changes anything, and its request joins the table as rejected. The gate
  -- and its backend may have a new ticket.
  pub handoff_refused :
      (t : HandoffTool S W)
      → IsRefusal (handoff b out env c m t).1
      → IsRejected m.handoff_id t (handoff b out env c m t).0
  unfolding handoff
  handoff_refused t h = by_evaluator-IsRejected t.permission_evaluator t h
