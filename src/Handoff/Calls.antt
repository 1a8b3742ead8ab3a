-- ===== src/Handoff/Calls.antt =====
-- `HandoffTool.handoff` of src/magsag/routing/handoff_tool.py: the policy, the adapter and the tracking
-- of the request.
use Prim.Native.String.{◌++◌ as append}
use agdd.Prelude.{String, true, Option, none, some, if◌then◌else◌, str_eq}
use agdd.Dict
use agdd.Dict.{Dict}
use agdd.Result.{Result, ok, raise}
use agdd.Value.{Fields, str, dict, end, field}
use agdd.Permissions.{ToolPermission, always, require_approval, never}
use agdd.Evaluator.Policy.{Error}
use agdd.Approval.Gate.{Outside, Backend, Gate}
use agdd.Approval.Create.{create_ticket}
use agdd.Approval.Execution.{
  Poll, waiting, decided, wait_for_decision, RawPermission, permission, text, unsupported,
}
use agdd.Handoff.Request.{in_progress, completed, failed, rejected, HandoffRequest}
use agdd.Handoff.Adapters.{HandoffAdapter}
use agdd.Handoff.Tool.{
  HandoffEvent, not_allowed, gate_missing, approval_failed, unsupported_platform, adapter_error,
  evaluator_error, Environment, HandoffTool, Wanted, Moment, Ending, finished, undecided, Verdict,
  allowed, awaited, refused, stopped, new_request, policy_context, get_adapter,
}

-- `run_id or "unknown"`
abbrev pub run_or_unknown : Option String → String
run_or_unknown none = "unknown"
run_or_unknown (some s) = if str_eq s "" then "unknown" else s

abbrev pub ticket_metadata : Wanted → Fields
ticket_metadata c =
    field "handoff"
      (dict (field "target_agent" (str c.target_agent) (field "platform" (str c.platform) end))) end

abbrev pub ticket_args : Wanted → Fields
ticket_args c =
    field "target_agent" (str c.target_agent)
      (field "task" (str c.task) (field "platform" (str c.platform) end))

-- The two comparisons with the answer of the evaluator. A member of `ToolPermission` equals its text,
-- and any other answer goes on like `always`.
unfoldable pub decision_of : RawPermission → ToolPermission
decision_of (permission p) = p
decision_of (text s) =
    if str_eq s "never"
    then never
    else if str_eq s "require_approval"
    then require_approval
    else always
decision_of unsupported = always

-- The payload of an event, whose last part differs.
abbrev pub event_payload : Wanted → String → Fields → Fields
event_payload c handoff_id last =
    field "handoff_id" (str handoff_id)
      (field "target_agent" (str c.target_agent) (field "platform" (str c.platform) last))

abbrev pub answer_of : String → Fields → Fields
answer_of handoff_id result =
    field "handoff_id" (str handoff_id)
      (field "status" (str "completed") (field "result" (dict result) end))

module _ {S W : Type 0} where
  -- `self._requests[request.handoff_id] = request`
  abbrev pub track : HandoffRequest → HandoffTool S W → HandoffTool S W
  track r t = record t { requests = Dict.put t.requests r.handoff_id r }

module _ {S W : Type 0} (b : Backend S) (out : Outside) (env : Environment W) where
  unfoldable pub record_event :
      Wanted → Moment → String → String → Fields → HandoffTool S W → HandoffTool S W
  record_event c m event_type message payload t = elim c.run_id [
    | none ↦ t
    | some run_id ↦
        let event : HandoffEvent = record {
          run_id = run_id;
          agent_slug = c.source_agent;
          event_type = event_type;
          timestamp = m.now;
          message = message;
          payload = payload;
        } in
        let (w, got) = env.get_storage_backend t.world in
        if str_eq run_id ""
        then t
        else if t.has_storage
        then record t { world = env.append_event event t.world }
        else if got
        then record t { has_storage = true; world = env.append_event event w }
        else record t { world = w }
  ]

  unfoldable pub verdict_of : Poll → Verdict
  verdict_of waiting = awaited
  verdict_of (decided (ok ticket)) = allowed
  verdict_of (decided (raise error)) =
      refused (append "Approval denied: " (env.error_text error)) (approval_failed error)

  -- The ticket of a handoff that needs approval, and the wait for the decision.
  unfoldable pub ask_gate : Wanted → Moment → Gate S → Gate S × Verdict
  unfolding verdict_of
  ask_gate c m g =
      let (g1, ticket) =
        create_ticket b out m.now m.ticket_id (run_or_unknown c.run_id) c.source_agent "handoff"
          (ticket_args c) none none (some (ticket_metadata c)) g in
      let (g2, poll) = wait_for_decision b out m.rounds ticket g1 in (g2, verdict_of poll)

  -- The branch that needs approval, with the gate of the tool.
  unfoldable pub require_gate :
      Wanted → Moment → Option (Gate S) → HandoffTool S W → HandoffTool S W × Verdict
  require_gate c m none t =
      (t, refused "Approval required but approval gate not configured" gate_missing)
  require_gate c m (some g) t =
      let (g', verdict) = ask_gate c m g in (record t { approval_gate = some g' }, verdict)

  unfoldable pub by_decision :
      Wanted → Moment → ToolPermission → HandoffTool S W → HandoffTool S W × Verdict
  by_decision c m never t = (t, refused "Handoff not allowed by policy" not_allowed)
  by_decision c m require_approval t = require_gate c m t.approval_gate t
  by_decision c m always t = (t, allowed)

  unfoldable pub by_permission :
      Wanted → Moment → Result Error RawPermission → HandoffTool S W → HandoffTool S W × Verdict
  by_permission c m (raise error) t = (t, stopped (evaluator_error error))
  by_permission c m (ok answer) t = by_decision c m (decision_of answer) t

  unfoldable pub by_evaluator :
      Wanted
      → Moment
      → Option (String → Fields → Result Error RawPermission)
      → HandoffTool S W
      → HandoffTool S W × Verdict
  by_evaluator c m none t = (t, allowed)
  by_evaluator c m (some evaluate) t = by_permission c m (evaluate "handoff" (policy_context c)) t

  abbrev pub check_policy : Wanted → Moment → HandoffTool S W → HandoffTool S W × Verdict
  check_policy c m t = by_evaluator c m t.permission_evaluator t

  -- The request after an adapter has returned or raised, its event and the answer.
  unfoldable pub settle :
      Wanted
      → Moment
      → HandoffRequest
      → Result String Fields
      → HandoffTool S W
      → HandoffTool S W × Ending
  settle c m r (ok result) t = (
    record_event c m "handoff.completed" (append "Handoff " (append r.handoff_id " completed"))
        (event_payload c r.handoff_id (field "result" (dict result) end))
        (track (record r { status = completed; result = some result }) t),
    finished (ok (answer_of r.handoff_id result)),
  )
  settle c m r (raise error) t = (
    record_event c m "handoff.failed" (append "Handoff " (append r.handoff_id " failed"))
        (event_payload c r.handoff_id (field "error" (str error) end))
        (track (record r { status = failed; error = some error }) t),
    finished (raise (adapter_error error)),
  )

  unfoldable pub run_adapter :
      Wanted
      → Moment
      → HandoffRequest
      → HandoffAdapter W
      → HandoffTool S W
      → HandoffTool S W × Ending
  run_adapter c m r a t =
      let started : HandoffRequest = record r { status = in_progress } in
      let tracked = track started t in
      let (w, answer) = a.execute_handoff started tracked.world in
      settle c m started answer (record tracked { world = w })

  unfoldable pub run_or_fail :
      Wanted
      → Moment
      → HandoffRequest
      → Option (HandoffAdapter W)
      → HandoffTool S W
      → HandoffTool S W × Ending
  run_or_fail c m r none t = (
    track (record r { status = failed; error = some (append "Unsupported platform: " c.platform) })
        t,
    finished (raise unsupported_platform),
  )
  run_or_fail c m r (some a) t = run_adapter c m r a t

  abbrev pub requested : Wanted → Moment → HandoffTool S W → HandoffTool S W
  requested c m t =
      record_event c m "handoff.requested"
        (append "Handoff requested to "
          (append c.target_agent (append " (" (append c.platform ")"))))
        (event_payload c m.handoff_id (field "task" (str c.task) end)) t

  unfoldable pub execute :
      Wanted → Moment → HandoffRequest → HandoffTool S W → HandoffTool S W × Ending
  execute c m r t =
      let t' = requested c m t in run_or_fail c m r (get_adapter c.platform t'.adapters) t'

  unfoldable pub by_verdict :
      Wanted → Moment → HandoffRequest → Verdict → HandoffTool S W → HandoffTool S W × Ending
  by_verdict c m r allowed t = execute c m r t
  by_verdict c m r awaited t = (t, undecided)
  by_verdict c m r (stopped error) t = (t, finished (raise error))
  by_verdict c m r (refused reason error) t =
      (track (record r { status = rejected; error = some reason }) t, finished (raise error))

  unfoldable pub handoff : Wanted → Moment → HandoffTool S W → HandoffTool S W × Ending
  unfolding new_request
  handoff c m t =
      let (t', verdict) = check_policy c m t in by_verdict c m (new_request c m) verdict t'
