-- ===== src/Approval/Liveness/Calls.antt =====
-- `execute_with_approval` from the request to its end, where the policy asks for approval.
use agdd.Prelude.{
  ℕ, ◌+◌, ◌*◌, ◌<◌, ◌≤◌, String, ◌≡◌, refl, ap, ◌∙◌, Option, none, List, [], ◌∷◌, ◌++◌, All,
}
use agdd.Dict.{get-put_self}
use agdd.Value.{Fields}
use agdd.Result.{ok}
use agdd.Permissions.{require_approval}
use agdd.Approval.Ticket.{Ticket}
use agdd.Approval.Gate.{Outside, Backend, Gate, timeout_error, denied_error}
use agdd.Approval.Create.{create_ticket, new_ticket, timeout_of}
use agdd.Approval.Execution.{
  Round, approve, deny, Poll, RawPermission, gate_evaluate, execution_context, approval_metadata,
  step_of, called, raised, outcome_of, by_permission, ask, execute_with_approval,
}
use agdd.Approval.Lookup.{tickets-persist, tickets-ensure_run}
use agdd.Approval.Liveness.Waits.{IsOpen, quiet, wait_quiet, wait_late, wait_approved, wait_denied}

-- When a ticket that is created now, with the default timeout, expires.
abbrev pub deadline : {S : Type 0} → Gate S → ℕ → ℕ
deadline g now = now + g.default_timeout_minutes * 60000000

module _ {S : Type 0} (b : Backend S) (out : Outside) (now : ℕ)
    (fresh run_id agent_slug tool_name : String) (tool_args ctx : Fields) (g : Gate S) where
  abbrev asked_for : Ticket
  asked_for =
      new_ticket out now fresh run_id agent_slug tool_name tool_args (step_of ctx)
        (timeout_of none g.default_timeout_minutes) (approval_metadata ctx)

  abbrev with_ticket : Gate S
  with_ticket =
      (create_ticket b out now fresh run_id agent_slug tool_name tool_args (step_of ctx) none
        (approval_metadata ctx) g).0

  created_IsOpen : IsOpen asked_for with_ticket
  unfolding create_ticket new_ticket
  created_IsOpen = record {
    found = rw (tickets-persist, tickets-ensure_run) (get-put_self g.tickets fresh asked_for);
    open_status = refl;
  }

  ask_unattended :
      (early : List ℕ) (late : ℕ) (rest : List ℕ)
      → All (λ n. n < deadline g now) early
      → deadline g now ≤ late
      → (ask b out now fresh run_id agent_slug tool_name tool_args ctx
          (quiet early ++ quiet (late ∷ rest))
          g).1
        ≡ raised timeout_error
  unfolding ask create_ticket new_ticket
  ask_unattended early late rest he h = ap (outcome_of tool_args) (
      ap (λ (r : Gate S × Poll). r.1)
        (wait_quiet b out asked_for with_ticket created_IsOpen early (quiet (late ∷ rest)) he)
      ∙ wait_late b out asked_for with_ticket created_IsOpen late rest h)

  ask_approved :
      (early : List ℕ) (at polled : ℕ) (by : String) (response : Option Fields)
      (reason : Option String) (rest : List Round)
      → All (λ n. n < deadline g now) early
      → polled < deadline g now
      → (ask b out now fresh run_id agent_slug tool_name tool_args ctx
          (quiet early
            ++ (record { before = approve at fresh by response reason ∷ []; now = polled } ∷ rest))
          g).1
        ≡ called tool_args
  unfolding ask create_ticket new_ticket
  ask_approved early at polled by response reason rest he h = ap (outcome_of tool_args) (
      wait_approved b out asked_for with_ticket created_IsOpen early at polled by response reason
        rest he h)

  ask_denied :
      (early : List ℕ) (at polled : ℕ) (by : String) (reason : Option String)
      (response : Option Fields) (rest : List Round)
      → All (λ n. n < deadline g now) early
      → polled < deadline g now
      → (ask b out now fresh run_id agent_slug tool_name tool_args ctx
          (quiet early
            ++ (record { before = deny at fresh by reason response ∷ []; now = polled } ∷ rest))
          g).1
        ≡ raised denied_error
  unfolding ask create_ticket new_ticket
  ask_denied early at polled by reason response rest he h = ap (outcome_of tool_args) (
      wait_denied b out asked_for with_ticket created_IsOpen early at polled by reason response rest
        he h)

module _ {S : Type 0} (b : Backend S) (out : Outside) (evaluator : String → Fields → RawPermission)
    (now : ℕ) (fresh run_id agent_slug tool_name : String) (tool_args context : Fields) (g : Gate S)
    (asks : gate_evaluate
        (evaluator tool_name (execution_context context agent_slug run_id tool_name tool_args))
      ≡ ok require_approval) where
  abbrev ctx : Fields
  ctx = execution_context context agent_slug run_id tool_name tool_args

  -- Where the policy asks for approval and, after polls before the deadline at which nobody had
  -- acted, somebody approves the ticket, and the next poll is before the deadline too, the tool is
  -- called with the arguments given, whatever comes later.
  pub execute_approved :
      (early : List ℕ) (at polled : ℕ) (by : String) (response : Option Fields)
      (reason : Option String) (rest : List Round)
      → All (λ n. n < deadline g now) early
      → polled < deadline g now
      → (execute_with_approval b out evaluator now fresh run_id agent_slug tool_name tool_args
          context
          (quiet early
            ++ (record { before = approve at fresh by response reason ∷ []; now = polled } ∷ rest))
          g).1
        ≡ called tool_args
  unfolding execute_with_approval by_permission ask
  execute_approved early at polled by response reason rest he h =
      rw (asks, by_permission)
        (ask_approved b out now fresh run_id agent_slug tool_name tool_args ctx g early at polled by
          response reason rest he h)

  -- Where the policy asks for approval and, after polls before the deadline at which nobody had
  -- acted, somebody denies the ticket, and the next poll is before the deadline too, the call raises
  -- `ApprovalDeniedError`, and the tool is not called.
  pub execute_denied :
      (early : List ℕ) (at polled : ℕ) (by : String) (reason : Option String)
      (response : Option Fields) (rest : List Round)
      → All (λ n. n < deadline g now) early
      → polled < deadline g now
      → (execute_with_approval b out evaluator now fresh run_id agent_slug tool_name tool_args
          context
          (quiet early
            ++ (record { before = deny at fresh by reason response ∷ []; now = polled } ∷ rest))
          g).1
        ≡ raised denied_error
  unfolding execute_with_approval by_permission ask
  execute_denied early at polled by reason response rest he h =
      rw (asks, by_permission)
        (ask_denied b out now fresh run_id agent_slug tool_name tool_args ctx g early at polled by
          reason response rest he h)

  -- Where the policy asks for approval and nobody acts, the call raises `ApprovalTimeoutError` at
  -- the first poll at or after the deadline: it does not poll forever.
  pub execute_unattended :
      (early : List ℕ) (late : ℕ) (rest : List ℕ)
      → All (λ n. n < deadline g now) early
      → deadline g now ≤ late
      → (execute_with_approval b out evaluator now fresh run_id agent_slug tool_name tool_args
          context
          (quiet early ++ quiet (late ∷ rest))
          g).1
        ≡ raised timeout_error
  unfolding execute_with_approval by_permission ask
  execute_unattended early late rest he h =
      rw (asks, by_permission)
        (ask_unattended b out now fresh run_id agent_slug tool_name tool_args ctx g early late rest
          he h)
