-- ===== src/Evaluator/Sources.antt =====
-- Every answer of `evaluate` is written in the policy.
use agdd.Prelude.{
  String, ◌≢◌, List, [], ◌∷◌, Option, none, some, arith, All, get_or, Option-cases, inl, inr,
}
use agdd.Dict
use agdd.Dict.{All-get}
use agdd.Result.{ok}
use agdd.Value.{Fields}
use agdd.Permissions.{ToolPermission}
use agdd.Evaluator.Policy.{
  Policy, ToolConfig, CategoryConfig, ContextRule, DangerousPattern, EnvironmentConfig, Answer,
  parse_permission, fallback_permission,
}
use agdd.Evaluator.Evaluate.{
  Decision, decide, decide_if_given, match_overrides, check_environment, check_environment_override,
  check_tool_permission, or_else, evaluate, check_context_rules, check_dangerous_patterns,
  check_category, check_category_permission, undecided,
}

abbrev Unread : ToolPermission → String → Type 0
Unread r text = parse_permission text ≢ ok r

-- An absent permission reads as nothing.
abbrev UnreadIfGiven : ToolPermission → Option String → Type 0
UnreadIfGiven r none = Unit
UnreadIfGiven r (some text) = Unread r text

-- No permission text of the policy reads as `r`.
pub record Excludes (r : ToolPermission) (p : Policy) : Type 0 where
  pub by_default : Unread r (get_or p.default_permission fallback_permission)
  pub by_tools :
      All (λ (e : String × ToolConfig). UnreadIfGiven r e.1.permission) (Dict.items p.tools)
  pub by_categories : All (λ (c : CategoryConfig). UnreadIfGiven r c.permission) p.categories
  pub by_rules : All (λ (c : ContextRule). UnreadIfGiven r c.permission) p.context_rules
  pub by_patterns :
      All (λ (c : DangerousPattern). UnreadIfGiven r c.permission) p.dangerous_patterns
  pub by_environments :
      All
        (λ (e : String × EnvironmentConfig).
          All (λ (o : String × String). Unread r o.1) (Dict.items e.1.overrides)
          × UnreadIfGiven r e.1.default_permission)
        (Dict.items p.environments)

module _ (r : ToolPermission) where
  abbrev Avoids : Decision → Type 0
  Avoids d = d ≢ ok (some r)

  decide-Avoids : (text : String) → Unread r text → Avoids (decide text)
  unfolding decide
  decide-Avoids text h e = ground arith

  decide_if_given-Avoids :
      (o : Option String) (later : Decision)
      → UnreadIfGiven r o
      → Avoids later
      → Avoids (decide_if_given o later)
  unfolding decide_if_given decide
  decide_if_given-Avoids none later h k = k
  decide_if_given-Avoids (some text) later h k = ground arith

  match_overrides-Avoids :
      (tool_name : String) (l : List (String × String)) (later : Decision)
      → All (λ (o : String × String). Unread r o.1) l
      → Avoids later
      → Avoids (match_overrides tool_name l later)
  unfolding match_overrides
  match_overrides-Avoids tool_name [] later h k = k
  match_overrides-Avoids tool_name ((pattern, text) ∷ l) later h k =
      ground (arith, match_overrides-Avoids tool_name l later h.1 k, decide-Avoids text h.0)

  check_environment-Avoids :
      (tool_name : String) (env : EnvironmentConfig)
      → All (λ (o : String × String). Unread r o.1) (Dict.items env.overrides)
      → UnreadIfGiven r env.default_permission
      → Avoids (check_environment tool_name env)
  unfolding check_environment
  check_environment-Avoids tool_name env h k =
      elim (Option-cases (Dict.get env.overrides tool_name)) [
        | inl e ↦ λ q. ground (
          arith,
          match_overrides-Avoids tool_name (Dict.items env.overrides)
              (decide_if_given env.default_permission undecided) h
              (decide_if_given-Avoids env.default_permission undecided k (λ u. cc)),
        )
        | inr (text, e) ↦ λ q. ground (
          arith,
          decide-Avoids text
              (All-get (λ (o : String × String). Unread r o.1) env.overrides tool_name h e),
        )
      ]

  check_environment_override-Avoids :
      (p : Policy) (environment tool_name : String)
      → Excludes r p
      → Avoids (check_environment_override p environment tool_name)
  unfolding check_environment_override
  check_environment_override-Avoids p environment tool_name x =
      elim (Option-cases (Dict.get p.environments environment)) [
        | inl e ↦ λ q. ground arith
        | inr (env, e) ↦
            let known =
              All-get
                (λ (e : String × EnvironmentConfig).
                  All (λ (o : String × String). Unread r o.1) (Dict.items e.1.overrides)
                  × UnreadIfGiven r e.1.default_permission)
                p.environments environment x.by_environments e in
            λ q. ground (arith, check_environment-Avoids tool_name env known.0 known.1)
      ]

  check_tool_permission-Avoids :
      (p : Policy) (tool_name : String) → Excludes r p → Avoids (check_tool_permission p tool_name)
  unfolding check_tool_permission decide
  check_tool_permission-Avoids p tool_name x = elim (Option-cases (Dict.get p.tools tool_name)) [
    | inl e ↦ λ q. ground arith
    | inr (config, e) ↦
        let known =
          All-get (λ (e : String × ToolConfig). UnreadIfGiven r e.1.permission) p.tools tool_name
            x.by_tools e in
        λ q. ground (arith, known)
  ]

  check_context_rules-Avoids :
      (tool_name : String) (c : Fields) (rules : List ContextRule)
      → All (λ (c : ContextRule). UnreadIfGiven r c.permission) rules
      → Avoids (check_context_rules tool_name c rules)
  unfolding check_context_rules
  check_context_rules-Avoids tool_name c [] h = λ q. cc
  check_context_rules-Avoids tool_name c (rule ∷ rules) h =
      let later = check_context_rules-Avoids tool_name c rules h.1 in
      λ q. ground (
        arith,
        decide_if_given-Avoids rule.permission (check_context_rules tool_name c rules) h.0 later,
      )

  check_dangerous_patterns-Avoids :
      (tool_name : String) (ds : List DangerousPattern)
      → All (λ (d : DangerousPattern). UnreadIfGiven r d.permission) ds
      → Avoids (check_dangerous_patterns tool_name ds)
  unfolding check_dangerous_patterns
  check_dangerous_patterns-Avoids tool_name [] h = λ q. cc
  check_dangerous_patterns-Avoids tool_name (d ∷ ds) h =
      let later = check_dangerous_patterns-Avoids tool_name ds h.1 in
      λ q. ground (
        arith,
        decide_if_given-Avoids d.permission (check_dangerous_patterns tool_name ds) h.0 later,
      )

  check_category-Avoids :
      (tool_name : String) (permission : Option String) (patterns : List String) (later : Decision)
      → UnreadIfGiven r permission
      → Avoids later
      → Avoids (check_category tool_name permission patterns later)
  unfolding check_category
  check_category-Avoids tool_name permission [] later h k = k
  check_category-Avoids tool_name permission (pattern ∷ patterns) later h k =
      let rest = check_category-Avoids tool_name permission patterns later h k in
      λ q. ground (
        arith,
        decide_if_given-Avoids permission (check_category tool_name permission patterns later) h
            rest,
      )

  check_category_permission-Avoids :
      (tool_name : String) (cs : List CategoryConfig)
      → All (λ (c : CategoryConfig). UnreadIfGiven r c.permission) cs
      → Avoids (check_category_permission tool_name cs)
  unfolding check_category_permission
  check_category_permission-Avoids tool_name [] h = λ q. cc
  check_category_permission-Avoids tool_name (c ∷ cs) h =
      check_category-Avoids tool_name c.permission c.tools (check_category_permission tool_name cs)
        h.0 (check_category_permission-Avoids tool_name cs h.1)

  or_else-Avoids :
      (d : Decision) (later : Answer ToolPermission)
      → Avoids d
      → later ≢ ok r
      → or_else d later ≢ ok r
  unfolding or_else
  or_else-Avoids d later h k e = ground arith

-- A permission that no text of the policy reads as, nor the fallback where the policy has no
-- default, is never the answer: with no text that reads as `always`, for example, no tool runs
-- without approval, whatever the environment, the tool and the context.
pub evaluate_excluded :
    (r : ToolPermission) (p : Policy) (environment tool_name : String) (c : Fields)
    → Excludes r p
    → evaluate p environment tool_name c ≢ ok r
unfolding evaluate
evaluate_excluded r p environment tool_name c x =
    layer (check_environment_override-Avoids r p environment tool_name x) (
      layer (check_tool_permission-Avoids r p tool_name x) (
        layer (check_context_rules-Avoids r tool_name c p.context_rules x.by_rules) (
          layer (check_dangerous_patterns-Avoids r tool_name p.dangerous_patterns x.by_patterns) (
            layer (check_category_permission-Avoids r tool_name p.categories x.by_categories)
              x.by_default))))
  where
    layer :
        {d : Decision} {later : Answer ToolPermission}
        → Avoids r d
        → later ≢ ok r
        → or_else d later ≢ ok r
    layer {d} {later} = or_else-Avoids r d later
