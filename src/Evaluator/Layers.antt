-- ===== src/Evaluator/Layers.antt =====
-- The order of the layers of `evaluate`.
use agdd.Prelude.{String, ◌≡◌, ◌≢◌, List, [], ◌∷◌, some, arith, eq_iff}
use agdd.Dict
use agdd.Dict.{Dict, dict_laws}
use agdd.Value.{Fields}
use agdd.Permissions.{ToolPermission}
use agdd.Evaluator.Policy.{Policy, EnvironmentConfig, Answer, parse_permission, ToolConfig}
use agdd.Evaluator.Evaluate.{
  Decision, decide, decide_if_given, match_overrides, check_environment, check_environment_override,
  check_tool_permission, or_else, evaluate, undecided,
}

decide-ne-undecided : (text : String) → decide text ≢ undecided
unfolding decide
decide-ne-undecided text h = ground arith

match_overrides-ne-undecided :
    (tool_name : String) (l : List (String × String)) (later : Decision)
    → later ≢ undecided
    → match_overrides tool_name l later ≢ undecided
unfolding match_overrides
match_overrides-ne-undecided tool_name [] later h = h
match_overrides-ne-undecided tool_name ((pattern, text) ∷ l) later h =
    ground (arith, match_overrides-ne-undecided tool_name l later h, decide-ne-undecided text)

-- A layer that decides, or raises, hides what comes after it.
or_else_decided :
    (d : Decision) (later later' : Answer ToolPermission)
    → d ≢ undecided
    → or_else d later ≡ or_else d later'
unfolding or_else
or_else_decided d later later' h = ground arith

check_environment-ne-undecided :
    (tool_name text : String) (env : EnvironmentConfig)
    → env.default_permission ≡ some text
    → text ≢ ""
    → check_environment tool_name env ≢ undecided
unfolding check_environment
check_environment-ne-undecided tool_name text env given ne = ground (
  arith,
  eq_iff text "",
  decide-ne-undecided text,
  match_overrides-ne-undecided tool_name (Dict.items env.overrides)
      (decide_if_given env.default_permission undecided),
)

environment_known :
    (p : Policy) (environment tool_name : String) (env : EnvironmentConfig)
    → Dict.get p.environments environment ≡ some env
    → check_environment_override p environment tool_name ≡ check_environment tool_name env
unfolding check_environment_override
environment_known p environment tool_name env h = ground arith

-- Where the environment of the evaluator has a default permission, that environment alone decides:
-- two policies that agree on it answer alike, or raise alike, for the same tool, whatever their
-- tools, context rules, dangerous patterns, categories and global default, and whatever the
-- contexts.
pub evaluate_environment_default :
    (p q : Policy) (environment tool_name text : String) (c c' : Fields) (env : EnvironmentConfig)
    → Dict.get p.environments environment ≡ some env
    → Dict.get q.environments environment ≡ some env
    → env.default_permission ≡ some text
    → text ≢ ""
    → evaluate p environment tool_name c ≡ evaluate q environment tool_name c'
unfolding evaluate
evaluate_environment_default p q environment tool_name text c c' env hp hq given ne =
    rw
      (
        environment_known p environment tool_name env hp,
        environment_known q environment tool_name env hq,
      )
      (or_else_decided (check_environment tool_name env) _ _
        (check_environment-ne-undecided tool_name text env given ne))

-- Where the environment does not decide, a permission that the policy gives the tool by its exact
-- name is the answer, whatever the context rules, dangerous patterns and categories say.
pub evaluate_explicit_tool :
    (p : Policy) (environment tool_name text : String) (c : Fields) (config : ToolConfig)
    → check_environment_override p environment tool_name ≡ undecided
    → Dict.get p.tools tool_name ≡ some config
    → config.permission ≡ some text
    → evaluate p environment tool_name c ≡ parse_permission text
unfolding evaluate check_tool_permission or_else decide
evaluate_explicit_tool p environment tool_name text c config free found given = ground arith
