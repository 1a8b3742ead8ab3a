-- ===== src/Examples/ApprovalCalls.antt =====
-- The approval gate at work on one ticket.
use agdd.Prelude.{◌<◌, String, ◌≡◌, ◌⊎◌, refl, true, none, some, List, [], ◌∷◌, ◌++◌, arith}
use agdd.Dict
use agdd.Dict.{get-put_self}
use agdd.Dict.Distinct.{put-HasDistinctKeys, empty-HasDistinctKeys}
use agdd.Approval.Sweep.{
  expire_old_tickets, expire_each, list_pending_tickets, pending_in_memory, add_stored,
  sort_by_request,
}
use agdd.Approval.Overdue.Listed.{AllKeyed}
use agdd.Approval.Overdue.Swept.{sweep_leaves_none_overdue}
use agdd.Value.{Fields, str, end, field}
use agdd.Result.{ok, raise}
use agdd.Permissions.{always, require_approval}
use agdd.Approval.Ticket.{Ticket, TicketRecord, approved, expired, ticket_to_record}
use agdd.Approval.Gate.{Gate, gate_error, timeout_error, denied_error}
use agdd.Approval.Create.{new_ticket}
use agdd.Approval.Resolve.{resolved, approve_ticket, deny_ticket}
use agdd.Approval.Execution.{
  Round, approve, deny, decided, poll, RawPermission, permission, gate_evaluate, execution_context,
  called, raised, execute_with_approval,
}
use agdd.Approval.Safety.Approved.{approved_within, execute_needs_approval}
use agdd.Approval.Liveness.Waits.{quiet}
use agdd.Approval.Liveness.Calls.{execute_approved, execute_denied, execute_unattended}
use agdd.Approval.Liveness.Hidden.{resolved_once, late_poll_expires, poll_ignores_store}
use agdd.Examples.Fixtures.{
  list_backend, outside, list_backend-IsFaithful, new_gate, new_gate-IsKeyed,
}

abbrev path_args : Fields
path_args = field "path" (str "/tmp/a") end

abbrev asks : String → Fields → RawPermission
asks tool_name ctx = permission require_approval

abbrev early_approval : List Round
early_approval =
    quiet (1 ∷ 2 ∷ []) ++ (record { before = approve 3 "t1" "ann" none none ∷ []; now = 4 } ∷ [])

abbrev early_denial : List Round
early_denial =
    quiet (1 ∷ 2 ∷ []) ++ (record { before = deny 3 "t1" "ann" none none ∷ []; now = 4 } ∷ [])

execute_approved_example :
    (execute_with_approval list_backend outside asks 0 "t1" "r1" "agent" "rm" path_args end
      early_approval new_gate).1
    ≡ called path_args
unfolding gate_evaluate
execute_approved_example =
    execute_approved list_backend outside asks 0 "t1" "r1" "agent" "rm" path_args end new_gate refl
      (1 ∷ 2 ∷ []) 3 4 "ann" none none [] (omega arith, (omega arith, tt)) (omega arith)

execute_denied_example :
    (execute_with_approval list_backend outside asks 0 "t1" "r1" "agent" "rm" path_args end
      early_denial new_gate).1
    ≡ raised denied_error
unfolding gate_evaluate
execute_denied_example =
    execute_denied list_backend outside asks 0 "t1" "r1" "agent" "rm" path_args end new_gate refl
      (1 ∷ 2 ∷ []) 3 4 "ann" none none [] (omega arith, (omega arith, tt)) (omega arith)

execute_unattended_example :
    (execute_with_approval list_backend outside asks 0 "t1" "r1" "agent" "rm" path_args end
      (quiet (1 ∷ []) ++ quiet (1800000000 ∷ []))
      new_gate).1
    ≡ raised timeout_error
unfolding gate_evaluate
execute_unattended_example =
    execute_unattended list_backend outside asks 0 "t1" "r1" "agent" "rm" path_args end new_gate
      refl (1 ∷ []) 1800000000 [] (omega arith, tt) (omega arith)

runs_after_approval :
    (execute_with_approval list_backend outside asks 0 "t1" "r1" "agent" "rm" path_args end
      early_approval new_gate).1
    ≡ called path_args
unfolding gate_evaluate
runs_after_approval =
    execute_approved list_backend outside asks 0 "t1" "r1" "agent" "rm" path_args end new_gate refl
      (1 ∷ 2 ∷ []) 3 4 "ann" none none [] (omega arith, (omega arith, tt)) (omega arith)

execute_needs_approval_example :
    (path_args ≡ path_args)
    × ((gate_evaluate (asks "rm" (execution_context end "agent" "r1" "rm" path_args)) ≡ ok always)
        ⊎ (approved_within "t1" early_approval ≡ true))
execute_needs_approval_example =
    execute_needs_approval list_backend outside asks 0 "t1" "r1" "agent" "rm" path_args end
      path_args early_approval new_gate list_backend-IsFaithful new_gate-IsKeyed runs_after_approval

abbrev asked : Ticket
asked = new_ticket outside 0 "t1" "r1" "agent" "rm" path_args none 30 none

abbrev done : Ticket
done = resolved 3 approved "ann" none end asked

abbrev gate_with : Ticket → Gate (List TicketRecord)
gate_with t = record new_gate { tickets = Dict.put Dict.empty "t1" t }

found : (t : Ticket) → Dict.get (gate_with t).tickets "t1" ≡ some t
found t = get-put_self Dict.empty "t1" t

late_poll_expires_example :
    ((poll list_backend outside 1800000000 done (gate_with done)).1 ≡ decided (raise timeout_error))
    × ((u : Ticket) × (Dict.get
            (poll list_backend outside 1800000000 done (gate_with done)).0.tickets
            done.ticket_id
          ≡ some u)
        × (u.status ≡ expired)
        × (u.resolved_by ≡ some "system:auto-expire"))
unfolding new_ticket
late_poll_expires_example =
    late_poll_expires list_backend outside 1800000000 done done (gate_with done) (found done) refl
      (λ e. cc) (omega arith)

poll_ignores_store_example :
    (poll list_backend outside 5 asked
      (record (gate_with asked) { ticket_store = some (ticket_to_record done ∷ []) })).1
    ≡ (poll list_backend outside 5 asked (gate_with asked)).1
unfolding new_ticket
poll_ignores_store_example =
    poll_ignores_store list_backend outside 5 asked asked (gate_with asked)
      (some (ticket_to_record done ∷ [])) (found asked)

resolved_once_example :
    (approve_ticket list_backend outside 9 "t1" "bob" none none (gate_with done)
      ≡ (gate_with done, raise gate_error))
    × (deny_ticket list_backend outside 9 "t1" "bob" none none (gate_with done)
        ≡ (gate_with done, raise gate_error))
resolved_once_example =
    resolved_once list_backend outside 9 "t1" "bob" none none done (gate_with done) (found done)
      (λ e. cc)

asked_keyed : AllKeyed (Dict.items (gate_with asked).tickets)
unfolding Dict.put Dict.empty new_ticket
asked_keyed = (refl, tt)

swept :
    Dict.get (expire_old_tickets list_backend outside 5 (gate_with asked)).0.tickets "t1"
    ≡ some asked
unfolding expire_old_tickets expire_each list_pending_tickets pending_in_memory add_stored
    sort_by_request Dict.get Dict.put Dict.empty new_ticket
swept = refl

sweep_leaves_none_overdue_example : 5 < 1800000000
unfolding new_ticket
sweep_leaves_none_overdue_example =
    sweep_leaves_none_overdue list_backend outside 5 "t1" asked (gate_with asked) asked_keyed
      (put-HasDistinctKeys Dict.empty "t1" asked (empty-HasDistinctKeys {V = Ticket})) swept refl
