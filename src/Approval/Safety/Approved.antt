-- ===== src/Approval/Safety/Approved.antt =====
-- A tool that needs approval is called only after an approval of its ticket.
use agdd.Prelude.{
  ℕ, String, ◌≡◌, ◌≢◌, refl, ◌⊎◌, Bool, true, false, ◌||◌, Option, none, List, [], ◌∷◌, arith,
  Bool-cases, inl, inr,
}
use agdd.Dict.{get-put_self}
use agdd.Value.{Fields}
use agdd.Result.{Result, ok, raise}
use agdd.Permissions.{ToolPermission, always}
use agdd.Approval.Ticket.{Ticket}
use agdd.Approval.Gate.{Outside, Backend, Gate, GateError}
use agdd.Approval.Create.{create_ticket, new_ticket, timeout_of}
use agdd.Approval.Execution.{
  Round, Poll, waiting, decided, Poll-cases, poll, wait_for_decision, act_all, RawPermission,
  gate_evaluate, execution_context, Outcome, called, execute_with_approval, by_permission, ask,
  outcome_of, step_of, approval_metadata,
}
use agdd.Approval.Lookup.{tickets-persist, tickets-ensure_run, get_ticket_known}
use agdd.Approval.Safety.Guard.{IsFaithful, IsKeyed, Guard, put-IsKeyed, approved_in, act_all-Guard}

abbrev pub approved_within : String → List Round → Bool
approved_within id [] = false
approved_within id (r ∷ rounds) = approved_in id r.before || approved_within id rounds

module _ {S : Type 0} (b : Backend S) (out : Outside) (faithful : IsFaithful b) where
  -- A poll of a ticket that is not approved returns no ticket, and if it goes on it changed nothing.
  poll_unapproved :
      (now : ℕ) (original : Ticket) (g : Gate S)
      → Guard original.ticket_id g.tickets
      → ((t : Ticket) → (poll b out now original g).1 ≢ decided (ok t))
        × ((poll b out now original g).1 ≡ waiting → (poll b out now original g).0 ≡ g)
  unfolding poll
  poll_unapproved now original g h =
      let known = get_ticket_known b out original.ticket_id h.ticket g h.found in
      (λ t q. ground (arith, known), λ q. ground (arith, known))

  pub wait_unapproved :
      (rounds : List Round) (original : Ticket) (g : Gate S) (t : Ticket)
      → Guard original.ticket_id g.tickets
      → approved_within original.ticket_id rounds ≡ false
      → (wait_for_decision b out rounds original g).1 ≢ decided (ok t)
  unfolding wait_for_decision
  wait_unapproved [] original g t h ne q = cc
  wait_unapproved (r ∷ rounds) original g t h ne q =
      let g1 = act_all b out r.before g in
      let guard = act_all-Guard original.ticket_id b out faithful r.before g h (ground arith) in
      let (never_ok, unchanged) = poll_unapproved r.now original g1 guard in
      elim (Poll-cases (poll b out r.now original g1).1) [
        | inl w ↦
            wait_unapproved rounds original (poll b out r.now original g1).0 t
              (rw (unchanged w) guard) (ground arith) (ground arith)
        | inr (d, e) ↦ never_ok t (ground arith)
      ]

decided_ok :
    (tool_args args : Fields) (p : Poll)
    → outcome_of tool_args p ≡ called args
    → (t : Ticket) × (p ≡ decided (ok t)) × (args ≡ tool_args)
decided_ok tool_args args waiting q = cc
decided_ok tool_args args (decided (ok t)) q = (t, refl, ground arith)
decided_ok tool_args args (decided (raise e)) q = cc

module _ {S : Type 0} (b : Backend S) (out : Outside) where
  pub created-Guard :
      (now : ℕ) (fresh run_id agent_slug tool_name : String) (tool_args : Fields)
      (step_id : Option String) (timeout : Option ℕ) (metadata : Option Fields) (g : Gate S)
      → IsKeyed g.tickets
      → Guard fresh
          (create_ticket b out now fresh run_id agent_slug tool_name tool_args step_id timeout
            metadata g).0.tickets
  unfolding create_ticket new_ticket
  created-Guard now fresh run_id agent_slug tool_name tool_args step_id timeout metadata g h =
      rw (tickets-persist, tickets-ensure_run)
        (record {
          keyed = put-IsKeyed g.tickets t h;
          ticket = t;
          found = get-put_self g.tickets fresh t;
          unapproved = λ q. cc;
        })
    where
      t : Ticket
      t =
          new_ticket out now fresh run_id agent_slug tool_name tool_args step_id
            (timeout_of timeout g.default_timeout_minutes) metadata

  ask-called :
      (now : ℕ) (fresh run_id agent_slug tool_name : String) (tool_args ctx args : Fields)
      (rounds : List Round) (g : Gate S)
      → IsFaithful b
      → IsKeyed g.tickets
      → (ask b out now fresh run_id agent_slug tool_name tool_args ctx rounds g).1 ≡ called args
      → (args ≡ tool_args) × (approved_within fresh rounds ≡ true)
  unfolding ask create_ticket new_ticket
  ask-called now fresh run_id agent_slug tool_name tool_args ctx args rounds g faithful keyed q =
      let (g1, t) =
        create_ticket b out now fresh run_id agent_slug tool_name tool_args (step_of ctx) none
          (approval_metadata ctx) g in
      let (t1, d, e) = decided_ok tool_args args (wait_for_decision b out rounds t g1).1 q in
      elim (Bool-cases (approved_within fresh rounds)) [
        | inl a ↦ (e, a)
        | inr a ↦ absurd (
            wait_unapproved b out faithful rounds t g1 t1
              (created-Guard now fresh run_id agent_slug tool_name tool_args (step_of ctx) none
                (approval_metadata ctx) g keyed)
              a d)
      ]

called_by :
    {S : Type 0} (r : Result GateError ToolPermission) (tool_args args : Fields) (g : Gate S)
    (asked : Gate S × Outcome)
    → (by_permission r tool_args g asked).1 ≡ called args
    → ((args ≡ tool_args) × (r ≡ ok always)) ⊎ (asked.1 ≡ called args)
unfolding by_permission
called_by r tool_args args g asked q = ground arith

-- If `execute_with_approval` calls the tool, then it does so with the arguments given, and the
-- policy allows the tool outright, or among the actions of the rounds there is an approval of the
-- very ticket that this call created. Every ticket in memory stands under its own identifier, as in
-- a new gate, and the backend returns tickets only under theirs.
pub execute_needs_approval :
    {S : Type 0} (b : Backend S) (out : Outside) (evaluator : String → Fields → RawPermission)
    (now : ℕ) (fresh run_id agent_slug tool_name : String) (tool_args context args : Fields)
    (rounds : List Round) (g : Gate S)
    → IsFaithful b
    → IsKeyed g.tickets
    → (execute_with_approval b out evaluator now fresh run_id agent_slug tool_name tool_args context
        rounds g).1
      ≡ called args
    → (args ≡ tool_args)
      × ((gate_evaluate (
              evaluator tool_name (execution_context context agent_slug run_id tool_name tool_args))
            ≡ ok always)
          ⊎ (approved_within fresh rounds ≡ true))
unfolding execute_with_approval
execute_needs_approval b out evaluator now fresh run_id agent_slug tool_name tool_args context args
      rounds g faithful keyed q =
    let ctx = execution_context context agent_slug run_id tool_name tool_args in
    elim (called_by (gate_evaluate (evaluator tool_name ctx)) tool_args args g
      (ask b out now fresh run_id agent_slug tool_name tool_args ctx rounds g) q) [
        | inl (e, a) ↦ (e, inl a)
        | inr a ↦
            let (e, yes_) =
              ask-called b out now fresh run_id agent_slug tool_name tool_args ctx args rounds g
                faithful keyed a in
            (e, inr yes_)
      ]
