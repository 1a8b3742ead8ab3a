-- ===== src/Handoff/Tool.antt =====
-- `HandoffTool` of src/magsag/routing/handoff_tool.py, on the approval gate and an evaluator of
-- permissions. One handoff ends before the next one starts, and what others do to the gate meanwhile
-- are the rounds of its wait. An exception of an adapter is its text.
use agdd.Prelude.{
  ℕ, String, Bool, true, Option, none, some, List, [], ◌∷◌, ltb, if◌then◌else◌, str_eq, get_or,
}
use agdd.Dict
use agdd.Dict.{Dict}
use agdd.Result.{Result, ok, raise}
use agdd.Value.{Fields, str, end, field}
use agdd.Evaluator.Policy.{Error}
use agdd.Approval.Gate.{Gate, GateError}
use agdd.Approval.Execution.{Round, RawPermission}
use agdd.Handoff.Request.{HandoffStatus, pending, HandoffRequest, text_or_null, status_text}
use agdd.Handoff.Adapters.{HandoffAdapter}

pub record HandoffEvent : Type 0 where
  pub run_id : String
  pub agent_slug : String
  pub event_type : String
  pub timestamp : ℕ
  pub message : String
  pub payload : Fields

pub data HandoffError : Type 0 where
  -- PermissionError, for its three reasons.
  not_allowed gate_missing : HandoffError
  approval_failed : GateError → HandoffError
  -- ValueError
  unsupported_platform : HandoffError
  adapter_error : String → HandoffError
  evaluator_error : Error → HandoffError

-- The storage of events, and the texts of exceptions.
pub record Environment (W : Type 0) : Type 0 where
  pub get_storage_backend : W → W × Bool
  pub append_event : HandoffEvent → W → W
  pub error_text : GateError → String

pub record HandoffTool (S W : Type 0) : Type 0 where
  pub permission_evaluator : Option (String → Fields → Result Error RawPermission)
  pub approval_gate : Option (Gate S)
  pub adapters : List (HandoffAdapter W)
  pub requests : Dict HandoffRequest
  pub has_storage : Bool
  pub world : W

-- The arguments of a handoff.
pub record Wanted : Type 0 where
  pub source_agent : String
  pub target_agent : String
  pub task : String
  pub context : Option Fields
  pub payload : Option Fields
  pub platform : String
  pub run_id : Option String

-- The identifiers that `uuid4` gives, the time, and the rounds of the wait.
pub record Moment : Type 0 where
  pub handoff_id : String
  pub ticket_id : String
  pub now : ℕ
  pub rounds : List Round

-- What a handoff comes to: it returns or raises, or it still waits for a decision.
pub data Ending : Type 0 where
  finished : Result HandoffError Fields → Ending
  undecided : Ending

-- What the policy says: go on, refuse with the error that the request keeps, raise, or wait.
pub data Verdict : Type 0 where
  allowed awaited : Verdict
  refused : String → HandoffError → Verdict
  stopped : HandoffError → Verdict

unfoldable pub new_request : Wanted → Moment → HandoffRequest
new_request c m = record {
  handoff_id = m.handoff_id;
  source_agent = c.source_agent;
  target_agent = c.target_agent;
  task = c.task;
  context = get_or c.context end;
  payload = c.payload;
  created_at = m.now;
  status = pending;
  result = none;
  error = none;
  metadata = field "platform" (str c.platform) (field "run_id" (text_or_null c.run_id) end);
}

-- The context of the evaluation.
unfoldable pub policy_context : Wanted → Fields
policy_context c = field "agent_slug" (str c.source_agent) (
    field "run_id" (text_or_null c.run_id)
      (field "target_agent" (str c.target_agent) (field "platform" (str c.platform) end)))

abbrev pub wants_agent : Option String → HandoffRequest → Bool
wants_agent none r = true
wants_agent (some s) r = if str_eq s "" then true else str_eq r.source_agent s

abbrev pub wants_status : Option HandoffStatus → HandoffRequest → Bool
wants_status none r = true
wants_status (some s) r = str_eq (status_text r.status) (status_text s)

unfoldable pub filtered :
    Option String → Option HandoffStatus → List (String × HandoffRequest) → List HandoffRequest
filtered source_agent status [] = []
filtered source_agent status ((_, r) ∷ l) =
    let rest = filtered source_agent status l in
    if wants_agent source_agent r then (if wants_status status r then r ∷ rest else rest) else rest

-- The newest first; equal times stay in their order.
unfoldable pub insert_newest : HandoffRequest → List HandoffRequest → List HandoffRequest
insert_newest r [] = r ∷ []
insert_newest r (q ∷ l) =
    let rest = insert_newest r l in if ltb r.created_at q.created_at then q ∷ rest else r ∷ q ∷ l

unfoldable pub newest_first : List HandoffRequest → List HandoffRequest
unfolding insert_newest
newest_first [] = []
newest_first (r ∷ l) = insert_newest r (newest_first l)

unfoldable pub get_adapter :
    {W : Type 0} → String → List (HandoffAdapter W) → Option (HandoffAdapter W)
get_adapter platform [] = none
get_adapter platform (a ∷ adapters) =
    let rest = get_adapter platform adapters in
    if a.supports_platform platform then some a else rest

module _ {S W : Type 0} where
  unfoldable pub get_tool_schema : String → HandoffTool S W → Result HandoffError Fields
  get_tool_schema platform t = elim (get_adapter platform t.adapters) [
    | none ↦ raise unsupported_platform
    | some a ↦ ok a.format_tool_schema
  ]

  unfoldable pub get_handoff : String → HandoffTool S W → Option HandoffRequest
  get_handoff handoff_id t = Dict.get t.requests handoff_id

  unfoldable pub list_handoffs :
      Option String → Option HandoffStatus → HandoffTool S W → List HandoffRequest
  list_handoffs source_agent status t =
      newest_first (filtered source_agent status (Dict.items t.requests))
