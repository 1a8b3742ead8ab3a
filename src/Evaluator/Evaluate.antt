-- ===== src/Evaluator/Evaluate.antt =====
-- `PermissionEvaluator.evaluate` of src/magsag/governance/permission_evaluator.py, its layers, and
-- the operations that call it.
use agdd.Prelude.{
  String, Bool, true, false, Option, none, some, List, [], ◌∷◌, get_or, str_eq, if◌then◌else◌,
}
use agdd.Dict
use agdd.Result.{ok, ◌>>=◌}
use agdd.Text.Fnmatch.{fnmatch}
use agdd.Value.{Fields, end}
use agdd.Permissions.{ToolPermission, always}
use agdd.Evaluator.Policy.{
  Answer, Policy, EnvironmentConfig, ToolConfig, ContextRule, DangerousPattern, CategoryConfig,
  fallback_permission, parse_permission,
}
use agdd.Evaluator.Conditions.{matches_context_rule}

-- The answer of a layer: no decision, or a permission.
abbrev pub Decision : Type 0
Decision = Answer (Option ToolPermission)

abbrev pub undecided : Decision
undecided = ok none

unfoldable pub decide : String → Decision
decide text = do p ← parse_permission text; ok (some p)

-- `if permission_str: return ToolPermission(...)`, and what comes after it
unfoldable pub decide_if_given : Option String → Decision → Decision
unfolding decide
decide_if_given none later = later
decide_if_given (some text) later = if str_eq text "" then later else decide text

-- The loop over the patterns of the overrides.
unfoldable pub match_overrides : String → List (String × String) → Decision → Decision
unfolding decide
match_overrides tool_name [] later = later
match_overrides tool_name ((pattern, text) ∷ l) later =
    let rest = match_overrides tool_name l later in
    if fnmatch tool_name pattern then decide text else rest

unfoldable pub check_environment : String → EnvironmentConfig → Decision
unfolding decide decide_if_given match_overrides
check_environment tool_name env = elim (Dict.get env.overrides tool_name) [
  | some text ↦ decide text
  | none ↦
      match_overrides tool_name (Dict.items env.overrides)
        (decide_if_given env.default_permission undecided)
]

unfoldable pub check_environment_override : Policy → String → String → Decision
unfolding check_environment
check_environment_override policy environment tool_name =
    elim (Dict.get policy.environments environment) [
      | none ↦ undecided
      | some env ↦ check_environment tool_name env
    ]

unfoldable pub check_tool_permission : Policy → String → Decision
unfolding decide
check_tool_permission policy tool_name = elim (Dict.get policy.tools tool_name) [
  | none ↦ undecided
  | some config ↦ elim config.permission [ none ↦ undecided | some text ↦ decide text ]
]

unfoldable pub check_context_rules : String → Fields → List ContextRule → Decision
unfolding decide_if_given matches_context_rule
check_context_rules tool_name context [] = undecided
check_context_rules tool_name context (rule ∷ rules) =
    let later = check_context_rules tool_name context rules in
    do
      good ← matches_context_rule tool_name context rule.condition
      if good then decide_if_given rule.permission later else later

unfoldable pub matches_dangerous : String → DangerousPattern → Bool
matches_dangerous tool_name d = elim d.pattern [
  | none ↦ false
  | some p ↦ if str_eq p "" then false else fnmatch tool_name p
]

unfoldable pub check_dangerous_patterns : String → List DangerousPattern → Decision
unfolding decide_if_given matches_dangerous
check_dangerous_patterns tool_name [] = undecided
check_dangerous_patterns tool_name (d ∷ ds) =
    let later = check_dangerous_patterns tool_name ds in
    if matches_dangerous tool_name d then decide_if_given d.permission later else later

-- The inner loop: at each pattern that matches, the permission of the category if it has one.
unfoldable pub check_category : String → Option String → List String → Decision → Decision
unfolding decide_if_given
check_category tool_name permission [] later = later
check_category tool_name permission (pattern ∷ patterns) later =
    let rest = check_category tool_name permission patterns later in
    if fnmatch tool_name pattern then decide_if_given permission rest else rest

unfoldable pub check_category_permission : String → List CategoryConfig → Decision
unfolding check_category
check_category_permission tool_name [] = undecided
check_category_permission tool_name (c ∷ cs) =
    check_category tool_name c.permission c.tools (check_category_permission tool_name cs)

-- A decision ends the evaluation, and an error too.
unfoldable pub or_else : Decision → Answer ToolPermission → Answer ToolPermission
or_else d later = do found ← d; elim found [ none ↦ later | some p ↦ ok p ]

unfoldable pub evaluate : Policy → String → String → Fields → Answer ToolPermission
unfolding or_else
evaluate policy environment tool_name context =
    or_else (check_environment_override policy environment tool_name) (
      or_else (check_tool_permission policy tool_name) (
        or_else (check_context_rules tool_name context policy.context_rules) (
          or_else (check_dangerous_patterns tool_name policy.dangerous_patterns) (
            or_else (check_category_permission tool_name policy.categories)
              (parse_permission (get_or policy.default_permission fallback_permission))))))

pub record ToolMetadata : Type 0 where
  pub tool_name : String
  pub description : String
  pub permission : ToolPermission

abbrev description_of : Option ToolConfig → String
description_of none = ""
description_of (some config) = get_or config.description ""

unfoldable pub get_tool_metadata : Policy → String → String → Answer ToolMetadata
unfolding evaluate
get_tool_metadata policy environment tool_name = do
  permission ← evaluate policy environment tool_name end
  ok (record {
    tool_name = tool_name;
    description = description_of (Dict.get policy.tools tool_name);
    permission = permission;
  })

abbrev pub is_always : ToolPermission → Bool
is_always always = true
is_always _ = false

unfoldable pub allowed_among :
    Policy → String → Fields → List (String × ToolConfig) → Answer (List String)
unfolding evaluate
allowed_among policy environment context [] = ok []
allowed_among policy environment context ((tool_name, _) ∷ tools) = do
  permission ← evaluate policy environment tool_name context
  rest ← allowed_among policy environment context tools
  ok (if is_always permission then tool_name ∷ rest else rest)

unfoldable pub list_allowed_tools : Policy → String → Fields → Answer (List String)
unfolding allowed_among
list_allowed_tools policy environment context =
    allowed_among policy environment context (Dict.items policy.tools)
