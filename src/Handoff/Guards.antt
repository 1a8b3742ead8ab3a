-- ===== src/Handoff/Guards.antt =====
-- Which handoffs reach an adapter.
use agdd.Prelude.{
  ◌⊎◌, String, ◌≡◌, ◌≢◌, refl, ap, subst, true, false, Option, none, some, Bool-cases, inl, inr,
  arith, str_eq, eq_iff,
}
use agdd.Result.{Result, ok, raise}
use agdd.Value.{Fields}
use agdd.Permissions.{ToolPermission, always, require_approval, never}
use agdd.Evaluator.Policy.{Error}
use agdd.Approval.Ticket.{Ticket}
use agdd.Approval.Gate.{Outside, Backend, Gate}
use agdd.Approval.Create.{create_ticket, new_ticket}
use agdd.Approval.Execution.{
  Poll, waiting, decided, wait_for_decision, RawPermission, permission, text, unsupported,
}
use agdd.Approval.Safety.Guard.{IsFaithful, IsKeyed}
use agdd.Approval.Safety.Approved.{approved_within, created-Guard, wait_unapproved}
use agdd.Handoff.Tool.{
  Environment, HandoffTool, Wanted, Moment, Verdict, new_request, policy_context,
}
use agdd.Handoff.Calls.{
  decision_of, verdict_of, ask_gate, require_gate, by_permission, by_decision, check_policy,
  by_evaluator, by_verdict, handoff, run_or_unknown, ticket_args, ticket_metadata,
}

-- What adapters and the storage of events change is as before, and no storage was acquired.
abbrev pub IsUntouched : {S W : Type 0} → HandoffTool S W → HandoffTool S W → Type 0
IsUntouched before after = (after.world ≡ before.world) × (after.has_storage ≡ before.has_storage)

-- The gate of the tool, if it has one, keeps every ticket under its own identifier.
abbrev pub HasKeyedGate : {S W : Type 0} → HandoffTool S W → Type 0
HasKeyedGate {S = S} t = (g : Gate S) → t.approval_gate ≡ some g → IsKeyed g.tickets

-- The answer is this permission, or its text.
abbrev pub Means : ToolPermission → String → RawPermission → Type 0
Means p s q = (q ≡ permission p) ⊎ (q ≡ text s)

-- The evaluator answers neither that handoffs are forbidden nor that they need approval, or it
-- answers that they need it and the ticket was approved.
abbrev pub IsAllowed : Result Error RawPermission → Moment → Type 0
IsAllowed (raise error) m = ⊥
IsAllowed (ok q) m =
    (¬ (Means never "never" q) × ¬ (Means require_approval "require_approval" q))
    ⊎ (Means require_approval "require_approval" q × (approved_within m.ticket_id m.rounds ≡ true))

text_differs :
    (p : ToolPermission) (name s : String) → str_eq s name ≡ false → ¬ (Means p name (text s))
text_differs p name s h (inl e) = cc
text_differs p name s h (inr e) = ground (arith, eq_iff s name)

decision_cases :
    (q : RawPermission)
    → (decision_of q ≡ never)
      ⊎ (((decision_of q ≡ require_approval) × Means require_approval "require_approval" q)
          ⊎ (¬ (Means never "never" q) × ¬ (Means require_approval "require_approval" q)))
unfolding decision_of
decision_cases (permission never) = inl refl
decision_cases (permission require_approval) = inr (inl (refl, inl refl))
decision_cases (permission always) =
    inr (inr (λ m. elim m [ inl e ↦ cc | inr e ↦ cc ], λ m. elim m [ inl e ↦ cc | inr e ↦ cc ]))
decision_cases (text s) = elim (Bool-cases (str_eq s "never")) [
  | inl e ↦ inl (rw e refl)
  | inr e ↦ elim (Bool-cases (str_eq s "require_approval")) [
    | inl a ↦ inr (inl (rw (e, a) refl, inr (ap text ((eq_iff s "require_approval").0 a))))
    | inr a ↦
        inr (
          inr
            (text_differs never "never" s e, text_differs require_approval "require_approval" s a))
  ]
]
decision_cases unsupported =
    inr (inr (λ m. elim m [ inl e ↦ cc | inr e ↦ cc ], λ m. elim m [ inl e ↦ cc | inr e ↦ cc ]))

module _ {S W : Type 0} (b : Backend S) (out : Outside) (env : Environment W)
    (faithful : IsFaithful b) (c : Wanted) (m : Moment) where
  verdict_of-IsUntouched :
      (p : Poll) (t : HandoffTool S W)
      → ((ticket : Ticket) → p ≢ decided (ok ticket))
      → IsUntouched t (by_verdict b out env c m (new_request c m) (verdict_of b out env p) t).0
  unfolding verdict_of by_verdict
  verdict_of-IsUntouched waiting t h = (refl, refl)
  verdict_of-IsUntouched (decided (ok ticket)) t h = absurd (h ticket refl)
  verdict_of-IsUntouched (decided (raise error)) t h = (refl, refl)

  ask_gate-IsUntouched :
      (g : Gate S) (t : HandoffTool S W)
      → IsKeyed g.tickets
      → approved_within m.ticket_id m.rounds ≡ false
      → IsUntouched t (by_verdict b out env c m (new_request c m) (ask_gate b out env c m g).1 t).0
  unfolding ask_gate create_ticket new_ticket
  ask_gate-IsUntouched g t keyed a =
      let (g1, ticket) =
        create_ticket b out m.now m.ticket_id (run_or_unknown c.run_id) c.source_agent "handoff"
          (ticket_args c) none none (some (ticket_metadata c)) g in
      verdict_of-IsUntouched (wait_for_decision b out m.rounds ticket g1).1 t (λ got e.
        wait_unapproved b out faithful m.rounds ticket g1 got
          (created-Guard b out m.now m.ticket_id (run_or_unknown c.run_id) c.source_agent "handoff"
            (ticket_args c) none none (some (ticket_metadata c)) g keyed)
          a e)

  -- A handoff with this verdict leaves the world as it is in `t`.
  abbrev Spares : HandoffTool S W → HandoffTool S W × Verdict → Type 0
  Spares t x = IsUntouched t (by_verdict b out env c m (new_request c m) x.1 x.0).0

  require_gate-IsUntouched :
      (gate : Option (Gate S)) (t : HandoffTool S W)
      → ((g : Gate S) → gate ≡ some g → IsKeyed g.tickets)
      → approved_within m.ticket_id m.rounds ≡ false
      → Spares t (require_gate b out env c m gate t)
  unfolding require_gate by_verdict
  require_gate-IsUntouched none t keyed a = (refl, refl)
  require_gate-IsUntouched (some g) t keyed a =
      ask_gate-IsUntouched g (record t { approval_gate = some (ask_gate b out env c m g).0 })
        (keyed g refl) a

  never-IsUntouched : (t : HandoffTool S W) → Spares t (by_decision b out env c m never t)
  unfolding by_decision by_verdict
  never-IsUntouched t = (refl, refl)

  asked-IsUntouched :
      (t : HandoffTool S W)
      → HasKeyedGate t
      → approved_within m.ticket_id m.rounds ≡ false
      → Spares t (by_decision b out env c m require_approval t)
  unfolding by_decision
  asked-IsUntouched t keyed a = require_gate-IsUntouched t.approval_gate t keyed a

  by_permission-IsUntouched :
      (p : Result Error RawPermission) (t : HandoffTool S W)
      → HasKeyedGate t
      → IsAllowed p m ⊎ Spares t (by_permission b out env c m p t)
  unfolding by_permission by_verdict
  by_permission-IsUntouched (raise error) t keyed = inr (refl, refl)
  by_permission-IsUntouched (ok q) t keyed = elim (decision_cases q) [
    | inl e ↦ inr (rw e (never-IsUntouched t))
    | inr (inr other) ↦ inl (inl other)
    | inr (inl (e, asks)) ↦ elim (Bool-cases (approved_within m.ticket_id m.rounds)) [
      | inl a ↦ inl (inr (asks, a))
      | inr a ↦ inr (rw e (asked-IsUntouched t keyed a))
    ]
  ]

  check_policy-evaluated :
      (evaluate : String → Fields → Result Error RawPermission) (t : HandoffTool S W)
      → t.permission_evaluator ≡ some evaluate
      → by_permission b out env c m (evaluate "handoff" (policy_context c)) t
        ≡ check_policy b out env c m t
  unfolding by_evaluator
  check_policy-evaluated evaluate t e = rw e refl

  -- In a handoff of a tool with an evaluator, neither an adapter nor the storage of events changes
  -- anything, unless the evaluator answers neither `never` nor `require_approval`, or it answers
  -- `require_approval` and among the actions of the rounds of the wait there is an approval of the
  -- very ticket that this handoff created. Every ticket of the gate stands under its own identifier,
  -- as in a new gate, and the backend returns tickets only under theirs.
  pub handoff_needs_approval :
      (evaluate : String → Fields → Result Error RawPermission) (t : HandoffTool S W)
      → t.permission_evaluator ≡ some evaluate
      → HasKeyedGate t
      → IsAllowed (evaluate "handoff" (policy_context c)) m
        ⊎ IsUntouched t (handoff b out env c m t).0
  unfolding handoff
  handoff_needs_approval evaluate t e keyed =
      elim (by_permission-IsUntouched (evaluate "handoff" (policy_context c)) t keyed) [
        | inl allowed ↦ inl allowed
        | inr same ↦ inr (subst (Spares t) (check_policy-evaluated evaluate t e) same)
      ]
