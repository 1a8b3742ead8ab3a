-- ===== src/Approval/Execution.antt =====
-- `wait_for_decision` and `execute_with_approval`, src/magsag/governance/approval_gate.py.
-- A wait is a list of rounds: what others do to the gate while the waiter sleeps, and the time at
-- which it polls again. The tool itself is not run: the outcome says whether it is called, and with
-- which arguments.
use agdd.Prelude.{
  ◌≡◌, refl, ◌⊎◌, inl, inr, ℕ, String, Bool, true, false, Option, none, some, List, [], ◌∷◌, leb,
  if◌then◌else◌, str_eq, ◌||◌,
}
use agdd.Dict
use agdd.Result.{Result, ok, raise}
use agdd.Value.{Value, Fields, str, dict, end, field}
use agdd.Value.Equality.{get_field, put_field, py_eq}
use agdd.Permissions.{ToolPermission, always, require_approval, never}
use agdd.Approval.Ticket.{approved, denied, Ticket}
use agdd.Approval.Gate.{
  Outside, Backend, Gate, GateError, gate_error, timeout_error, denied_error, value_error,
  type_error,
}
use agdd.Approval.Create.{create_ticket}
use agdd.Approval.Resolve.{get_ticket, approve_ticket, deny_ticket, expire_ticket}
use agdd.Approval.Sweep.{list_pending_tickets, expire_old_tickets}

-- A call of the gate by someone else, with the time of the call.
pub data Action : Type 0 where
  create :
      ℕ
      → String
      → String
      → String
      → String
      → Fields
      → Option String
      → Option ℕ
      → Option Fields
      → Action
  look_up : String → Action
  approve : ℕ → String → String → Option Fields → Option String → Action
  deny : ℕ → String → String → Option String → Option Fields → Action
  list_pending : Option String → Option String → Action
  sweep : ℕ → Action

pub record Round : Type 0 where
  pub before : List Action
  pub now : ℕ

-- The end of one poll.
pub data Poll : Type 0 where
  waiting : Poll
  decided : Result GateError Ticket → Poll

-- A poll goes on, or it ends the wait.
pub Poll-cases : (p : Poll) → (p ≡ waiting) ⊎ ((d : Result GateError Ticket) × (p ≡ decided d))
Poll-cases waiting = inl refl
Poll-cases (decided d) = inr (d, refl)

abbrev is_empty : Fields → Bool
is_empty end = true
is_empty (field k v fs) = false

-- The original arguments, where the ticket at hand has none or has the masked ones.
unfoldable pub restore_args : Ticket → Ticket → Ticket
restore_args original current =
    if is_empty current.tool_args || py_eq (dict current.tool_args) (dict current.masked_args)
    then record current { tool_args = original.tool_args }
    else current

-- The decision on a ticket that has not expired. The restored arguments are written to the object
-- that `_tickets` holds.
unfoldable pub poll_status : {S : Type 0} → Ticket → Ticket → Gate S → Gate S × Poll
unfolding restore_args
poll_status original current g = elim current.status [
  | approved ↦
      let t = restore_args original current in
      (record g { tickets = Dict.put g.tickets current.ticket_id t }, decided (ok t))
  | denied ↦ (g, decided (raise denied_error))
  | _ ↦ (g, waiting)
]

-- `isinstance(raw_permission, ...)`: a permission, a text, or anything else.
pub data RawPermission : Type 0 where
  permission : ToolPermission → RawPermission
  text : String → RawPermission
  unsupported : RawPermission

unfoldable pub gate_evaluate : RawPermission → Result GateError ToolPermission
gate_evaluate (permission p) = ok p
gate_evaluate (text s) =
    if str_eq s "always"
    then ok always
    else if str_eq s "require_approval"
    then ok require_approval
    else if str_eq s "never"
    then ok never
    else raise value_error
gate_evaluate unsupported = raise type_error

-- `ctx.update(...)`
unfoldable pub execution_context : Fields → String → String → String → Fields → Fields
unfolding put_field
execution_context context agent_slug run_id tool_name tool_args =
    put_field "tool_args" (dict tool_args) (
      put_field "tool_name" (str tool_name)
        (put_field "run_id" (str run_id) (put_field "agent_slug" (str agent_slug) context)))

unfoldable pub approval_metadata : Fields → Option Fields
unfolding get_field
approval_metadata ctx = elim (get_field "approval_metadata" ctx) [
  | none ↦ none
  | some v ↦ elim v [ dict fs ↦ some fs | Value.null ↦ none | w ↦ some (field "value" w end) ]
]

-- The step of the context, if it is a text.
unfoldable pub step_of : Fields → Option String
unfolding get_field
step_of ctx = elim (get_field "step_id" ctx) [
  | none ↦ none
  | some v ↦ elim v [ str s ↦ some s | _ ↦ none ]
]

-- How `execute_with_approval` ends: the tool was called with these arguments, it raised, or it
-- still polls after the rounds given.
pub data Outcome : Type 0 where
  called : Fields → Outcome
  raised : GateError → Outcome
  polling : Outcome

abbrev pub outcome_of : Fields → Poll → Outcome
outcome_of tool_args waiting = polling
outcome_of tool_args (decided (ok t)) = called tool_args
outcome_of tool_args (decided (raise e)) = raised e

-- The branches on the permission; the last argument is what the branch that asks comes to.
unfoldable pub by_permission :
    {S : Type 0}
    → Result GateError ToolPermission
    → Fields
    → Gate S
    → Gate S × Outcome
    → Gate S × Outcome
by_permission (raise e) tool_args g asked = (g, raised e)
by_permission (ok never) tool_args g asked = (g, raised denied_error)
by_permission (ok always) tool_args g asked = (g, called tool_args)
by_permission (ok require_approval) tool_args g asked = asked

module _ {S : Type 0} (b : Backend S) (out : Outside) where
  unfoldable pub act : Action → Gate S → Gate S
  act (create now fresh run_id agent_slug tool_name tool_args step_id timeout metadata) g =
      (create_ticket b out now fresh run_id agent_slug tool_name tool_args step_id timeout metadata
        g).0
  act (look_up ticket_id) g = (get_ticket b out ticket_id g).0
  act (approve now ticket_id approved_by response reason) g =
      (approve_ticket b out now ticket_id approved_by response reason g).0
  act (deny now ticket_id denied_by reason response) g =
      (deny_ticket b out now ticket_id denied_by reason response g).0
  act (list_pending run_id agent_slug) g = (list_pending_tickets b out run_id agent_slug g).0
  act (sweep now) g = (expire_old_tickets b out now g).0

  unfoldable pub act_all : List Action → Gate S → Gate S
  act_all [] g = g
  act_all (a ∷ l) g = act_all l (act a g)

  -- One turn of the loop, up to `asyncio.sleep`.
  unfoldable pub poll : ℕ → Ticket → Gate S → Gate S × Poll
  unfolding poll_status
  poll now original g =
      let (g1, found) = get_ticket b out original.ticket_id g in
      elim found [
        | none ↦ (g1, decided (raise gate_error))
        | some current ↦
            if leb current.expires_at now
            then ((expire_ticket b out now current g1).0, decided (raise timeout_error))
            else poll_status original current g1
      ]

  unfoldable pub wait_for_decision : List Round → Ticket → Gate S → Gate S × Poll
  wait_for_decision [] original g = (g, waiting)
  wait_for_decision (r ∷ rounds) original g =
      let (g1, p) = poll r.now original (act_all r.before g) in
      elim p [ waiting ↦ wait_for_decision rounds original g1 | decided d ↦ (g1, decided d) ]

  -- The branch that creates a ticket and waits.
  unfoldable pub ask :
      ℕ
      → String
      → String
      → String
      → String
      → Fields
      → Fields
      → List Round
      → Gate S
      → Gate S × Outcome
  ask now fresh run_id agent_slug tool_name tool_args ctx rounds g =
      let (g1, t) =
        create_ticket b out now fresh run_id agent_slug tool_name tool_args (step_of ctx) none
          (approval_metadata ctx) g in
      let (g2, p) = wait_for_decision rounds t g1 in (g2, outcome_of tool_args p)

  unfoldable pub execute_with_approval :
      (String → Fields → RawPermission)
      → ℕ
      → String
      → String
      → String
      → String
      → Fields
      → Fields
      → List Round
      → Gate S
      → Gate S × Outcome
  execute_with_approval evaluator now fresh run_id agent_slug tool_name tool_args context rounds g =
      let ctx = execution_context context agent_slug run_id tool_name tool_args in
      by_permission (gate_evaluate (evaluator tool_name ctx)) tool_args g
        (ask now fresh run_id agent_slug tool_name tool_args ctx rounds g)
