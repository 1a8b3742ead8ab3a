-- ===== src/Examples/HandoffCalls.antt =====
-- Handoffs that wait for approval, that are refused and that fail.
use agdd.Prelude.{
  ℕ, suc, String, ◌≡◌, refl, subst, Option, false, none, some, List, [], ◌∷◌, ◌++◌, arith, Memᴰ,
  ◌↔◌, ◌⊎◌,
}
use agdd.Dict
use agdd.Text.{lower, to_lower, eq_codes}
use agdd.Result.{Result, ok}
use agdd.Value.{Fields, null}
use agdd.Permissions.{require_approval}
use agdd.Evaluator.Policy.{Error}
use agdd.Approval.Ticket.{TicketRecord}
use agdd.Approval.Gate.{Gate}
use agdd.Approval.Safety.Guard.{IsKeyed}
use agdd.Approval.Execution.{approve, RawPermission, permission, text}
use agdd.Approval.Liveness.Waits.{quiet}
use agdd.Examples.Fixtures.{
  list_backend, outside, list_backend-IsFaithful, new_gate, new_gate-IsKeyed,
}
use agdd.Handoff.Request.{HandoffRequest, completed}
use agdd.Handoff.Adapters.{Runner, is_named, magsag_adapter, default_adapters}
use agdd.Handoff.Tool.{
  Environment, HandoffTool, Wanted, Moment, new_request, policy_context, get_adapter, list_handoffs,
}
use agdd.Handoff.Calls.{
  handoff, by_evaluator, by_permission, by_decision, decision_of, by_verdict, requested,
}
use agdd.Handoff.Settled.{AllSettled, handoff_all, AllSettled-handoff_all}
use agdd.Handoff.Guards.{IsAllowed, IsUntouched, handoff_needs_approval}
use agdd.Handoff.Refusals.{IsRefusal, IsRejected, handoff_refused}
use agdd.Handoff.Newest.{IsNewestFirst}
use agdd.Handoff.Listed.{IsWanted, list_handoffs_exact}
use agdd.Handoff.Approved.{HasCalled, handoff_approved}

-- The world counts the calls of agents.
abbrev runner : Runner ℕ
runner slug payload context w = (suc w, ok null)

abbrev environment : Environment ℕ
environment = record {
  get_storage_backend = λ w. (w, false);
  append_event = λ event w. w;
  error_text = λ error. "denied";
}

abbrev asks : String → Fields → Result Error RawPermission
asks name context = ok (permission require_approval)

abbrev forbids : String → Fields → Result Error RawPermission
forbids name context = ok (text "never")

abbrev tool : (String → Fields → Result Error RawPermission) → HandoffTool (List TicketRecord) ℕ
tool evaluate = record {
  permission_evaluator = some evaluate;
  approval_gate = some new_gate;
  adapters = default_adapters (some runner);
  requests = Dict.empty;
  has_storage = false;
  world = 0;
}

abbrev wanted : Wanted
wanted = record {
  source_agent = "lead";
  target_agent = "writer";
  task = "draft";
  context = none;
  payload = none;
  platform = "MAGSAG";
  run_id = some "r1";
}

abbrev approved_moment : Moment
approved_moment = record {
  handoff_id = "h1";
  ticket_id = "t1";
  now = 0;
  rounds =
      quiet (1 ∷ 2 ∷ []) ++ (record { before = approve 3 "t1" "ann" none none ∷ []; now = 4 } ∷ []);
}

adapter_found :
    get_adapter wanted.platform (tool asks).adapters ≡ some (magsag_adapter (some runner))
unfolding get_adapter default_adapters magsag_adapter is_named lower to_lower eq_codes
adapter_found = refl

handoff_approved_example :
    HasCalled
      (magsag_adapter (some runner))
      (new_request wanted approved_moment)
      (requested list_backend outside environment wanted approved_moment (tool asks)).world
      (handoff list_backend outside environment wanted approved_moment (tool asks))
handoff_approved_example =
    handoff_approved list_backend outside environment wanted approved_moment (1 ∷ 2 ∷ []) 3 4 "ann"
      none none [] asks new_gate (magsag_adapter (some runner)) (tool asks) refl refl refl
      adapter_found refl (omega arith, (omega arith, tt)) (omega arith)

abbrev KeyedOrNone : Option (Gate (List TicketRecord)) → Type 0
KeyedOrNone none = Unit
KeyedOrNone (some g) = IsKeyed g.tickets

handoff_needs_approval_example :
    IsAllowed (asks "handoff" (policy_context wanted)) approved_moment
    ⊎ IsUntouched
        (tool asks)
        (handoff list_backend outside environment wanted approved_moment (tool asks)).0
handoff_needs_approval_example =
    handoff_needs_approval list_backend outside environment list_backend-IsFaithful wanted
      approved_moment asks (tool asks) refl (λ g e. subst KeyedOrNone e new_gate-IsKeyed)

forbidden_refused :
    IsRefusal (handoff list_backend outside environment wanted approved_moment (tool forbids)).1
unfolding handoff by_evaluator by_permission by_decision decision_of by_verdict
forbidden_refused = tt

handoff_refused_example :
    IsRejected "h1"
      (tool forbids)
      (handoff list_backend outside environment wanted approved_moment (tool forbids)).0
handoff_refused_example =
    handoff_refused list_backend outside environment wanted approved_moment (tool forbids)
      forbidden_refused

abbrev two_calls : HandoffTool (List TicketRecord) ℕ
two_calls =
    handoff_all list_backend outside environment
      ((wanted, approved_moment)
        ∷ (record wanted { platform = "none" }, record approved_moment { handoff_id = "h2" })
        ∷ [])
      (tool asks)

AllSettled-handoff_all_example : AllSettled two_calls
unfolding Dict.empty
AllSettled-handoff_all_example =
    AllSettled-handoff_all list_backend outside environment
      ((wanted, approved_moment)
        ∷ (record wanted { platform = "none" }, record approved_moment { handoff_id = "h2" })
        ∷ [])
      (tool asks) tt

list_handoffs_exact_example :
    IsNewestFirst (list_handoffs (some "lead") (some completed) two_calls)
    × ((x : HandoffRequest)
        → (Memᴰ x (list_handoffs (some "lead") (some completed) two_calls)
            ↔ IsWanted (some "lead") (some completed) (Dict.items two_calls.requests) x))
list_handoffs_exact_example = list_handoffs_exact (some "lead") (some completed) two_calls
