-- ===== src/Handoff/Adapters.antt =====
-- The adapters of src/magsag/routing/handoff_tool.py: the platforms that each serves, what it does
-- with a request and the schema that it offers. A runner is a parameter, and so is the world it
-- changes; an exception is its text.
use Prim.Native.String.{◌++◌ as append}
use agdd.Prelude.{
  String, Bool, false, ◌||◌, Option, none, some, List, [], ◌∷◌, if◌then◌else◌, str_eq,
}
use agdd.Text.{codes, lower, eq_codes}
use agdd.Result.{Result, ok, raise}
use agdd.Value.{Value, Items, Fields, null, str, list, dict, nil, cons, end, field}
use agdd.Value.Equality.{get_field, put_field}
use agdd.Handoff.Request.{HandoffRequest}

pub record HandoffAdapter (W : Type 0) : Type 0 where
  pub supports_platform : String → Bool
  pub execute_handoff : HandoffRequest → W → W × Result String Fields
  pub format_tool_schema : Fields

-- `invoke_mag`, with the agent, the payload and the context.
abbrev pub Runner : Type 0 → Type 0
Runner W = String → Fields → Fields → W → W × Result String Value

-- `platform.lower() in (…)`
unfoldable pub is_named : String → List String → Bool
unfolding lower eq_codes
is_named platform [] = false
is_named platform (name ∷ names) =
    eq_codes (lower (codes platform)) (codes name) || is_named platform names

-- `setdefault`
unfoldable pub set_default : String → Value → Fields → Fields
unfolding get_field put_field
set_default k v fs = elim (get_field k fs) [ none ↦ put_field k v fs | some w ↦ fs ]

abbrev or_null : Option Value → Value
or_null none = null
or_null (some v) = v

-- `request.payload or {…}`
unfoldable pub payload_of : HandoffRequest → Fields
payload_of r =
    let given = field "task" (str r.task) (field "context" (dict r.context) end) in
    elim r.payload [
      | none ↦ given
      | some fs ↦ elim fs [ end ↦ given | field k v rest ↦ field k v rest ]
    ]

-- `if parent_run: run_context.setdefault(…)`; the run of a request is a text or nothing.
abbrev with_parent : Option Value → Fields → Fields
with_parent (some (str s)) fs = if str_eq s "" then fs else set_default "parent_run_id" (str s) fs
with_parent _ fs = fs

unfoldable pub run_context_of : HandoffRequest → Fields
unfolding set_default get_field
run_context_of r = with_parent (get_field "run_id" r.metadata) (
    set_default "handoff_platform" (or_null (get_field "platform" r.metadata)) (
      set_default "handoff_source_agent" (str r.source_agent)
        (set_default "handoff_id" (str r.handoff_id) r.context)))

abbrev handed_off : String → String → Fields
handed_off message handoff_id =
    field "status" (str "completed")
      (field "message" (str message) (field "handoff_id" (str handoff_id) end))

unfoldable pub execute_magsag :
    {W : Type 0} → Option (Runner W) → HandoffRequest → W → W × Result String Fields
unfolding payload_of run_context_of
execute_magsag none r w = (
  w,
  ok (
      handed_off (append "Handed off to " (append r.target_agent " (runner not configured)"))
        r.handoff_id),
)
execute_magsag (some invoke_mag) r w =
    let (w', answer) = invoke_mag r.target_agent (payload_of r) (run_context_of r) w in
    elim answer [
      | raise error ↦ (w', raise error)
      | ok output ↦ (
        w',
        ok (
            field "status" (str "success") (
              field "handoff_id" (str r.handoff_id)
                (field "agent" (str r.target_agent) (field "output" output end)))),
      )
    ]

-- A property of a schema.
abbrev property : String → String → String → Fields → Fields
property name type description =
    field name (dict (field "type" (str type) (field "description" (str description) end)))

abbrev texts : List String → Items
texts [] = nil
texts (s ∷ l) = cons (str s) (texts l)

abbrev object : Fields → List String → Value
object properties required = dict (
    field "type" (str "object")
      (field "properties" (dict properties) (field "required" (list (texts required)) end)))

abbrev schema : String → String → Value → Fields
schema description key parameters =
    field "name" (str "handoff") (field "description" (str description) (field key parameters end))

unfoldable pub magsag_schema : Fields
magsag_schema = schema "Delegate work to another agent or system" "parameters" (
    object
      (property "target_agent" "string" "Agent slug or identifier to delegate to" (
        property "task" "string" "Task description for the target agent"
          (property "context" "object" "Additional context to pass to target agent" end)))
      ("target_agent" ∷ "task" ∷ []))

unfoldable pub adk_schema : Fields
adk_schema = schema "Transfer conversation to another specialized agent" "input_schema" (
    object
      (property "target" "string" "Target agent identifier" (
        property "message" "string" "Message to pass to target agent"
          (property "context" "object" "Contextual information" end)))
      ("target" ∷ "message" ∷ []))

unfoldable pub openai_schema : Fields
openai_schema = field "type" (str "function") (
    field "function"
      (dict (
        schema "Delegate task to another agent" "parameters" (
          object
            (property "agent_id" "string" "Target agent ID" (
              property "instructions" "string" "Instructions for the target agent"
                (property "context" "object" "Additional context" end)))
            ("agent_id" ∷ "instructions" ∷ []))))
      end)

unfoldable pub anthropic_schema : Fields
anthropic_schema = schema "Delegate work to a specialized agent" "input_schema" (
    object
      (property "target_agent" "string" "Target agent name or ID" (
        property "request" "string" "What you need the target agent to do"
          (property "context" "object" "Relevant context for the target agent" end)))
      ("target_agent" ∷ "request" ∷ []))

module _ {W : Type 0} where
  unfoldable pub magsag_adapter : Option (Runner W) → HandoffAdapter W
  unfolding is_named execute_magsag magsag_schema
  magsag_adapter runner = record {
    supports_platform = λ platform. is_named platform ("magsag" ∷ "native" ∷ []);
    execute_handoff = execute_magsag runner;
    format_tool_schema = magsag_schema;
  }

  -- The adapters that leave the work to the environment.
  abbrev message_adapter : List String → String → Fields → HandoffAdapter W
  message_adapter names prefix tool_schema = record {
    supports_platform = λ platform. is_named platform names;
    execute_handoff = λ r w. (w, ok (handed_off (append prefix r.target_agent) r.handoff_id));
    format_tool_schema = tool_schema;
  }

  unfoldable pub adk_adapter : HandoffAdapter W
  unfolding is_named adk_schema
  adk_adapter = message_adapter ("adk" ∷ "anthropic-adk" ∷ []) "Handed off to ADK agent " adk_schema

  unfoldable pub openai_adapter : HandoffAdapter W
  unfolding is_named openai_schema
  openai_adapter =
      message_adapter ("openai" ∷ "openai-compat" ∷ []) "Handed off to OpenAI agent " openai_schema

  unfoldable pub anthropic_adapter : HandoffAdapter W
  unfolding is_named anthropic_schema
  anthropic_adapter =
      message_adapter ("anthropic" ∷ "claude" ∷ []) "Handed off to Anthropic agent "
        anthropic_schema

  unfoldable pub default_adapters : Option (Runner W) → List (HandoffAdapter W)
  unfolding magsag_adapter adk_adapter openai_adapter anthropic_adapter
  default_adapters runner =
      magsag_adapter runner ∷ adk_adapter ∷ openai_adapter ∷ anthropic_adapter ∷ []
