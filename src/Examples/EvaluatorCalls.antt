-- ===== src/Examples/EvaluatorCalls.antt =====
-- Permissions under a small policy.
use agdd.Prelude.{String, ◌≡◌, ◌≢◌, ◌↔◌, refl, none, some, [], ◌∷◌, Memᴰ}
use agdd.Dict
use agdd.Dict.{Dict, get-put_self, get-empty, dict_laws}
use agdd.Result.{ok}
use agdd.Value.{str, end, field}
use agdd.Permissions.{always, require_approval}
use agdd.Evaluator.Policy.{Policy, EnvironmentConfig, ToolConfig, default_policy, parse_permission}
use agdd.Evaluator.Evaluate.{
  evaluate, list_allowed_tools, check_environment_override, check_tool_permission,
}
use agdd.Evaluator.Layers.{evaluate_environment_default}
use agdd.Evaluator.Sources.{Excludes, evaluate_excluded}
use agdd.Evaluator.Allowed.{names, list_allowed_tools_exact}

abbrev reads : ToolConfig
reads = record { permission = some "ALWAYS"; description = none }

abbrev writes : ToolConfig
writes = record { permission = some "never"; description = none }

abbrev production : EnvironmentConfig
production = record { overrides = Dict.empty; default_permission = some "REQUIRE_APPROVAL" }

-- The tools alone, with no environment.
abbrev tools_only : Policy
tools_only = record {
  default_permission = none;
  tools = record { entries = ("read", reads) ∷ ("write", writes) ∷ [] };
  categories = [];
  context_rules = [];
  dangerous_patterns = [];
  environments = Dict.empty;
}

abbrev in_production : Policy
in_production = record tools_only {
  environments = record { entries = ("production", production) ∷ [] };
}

-- The tool that the policy never allows is asked for in production.
never_is_asked : evaluate in_production "production" "write" end ≡ ok require_approval
unfolding evaluate check_environment_override parse_permission Dict.get
never_is_asked = refl

evaluate_environment_default_example :
    evaluate in_production "production" "write" end
    ≡ evaluate
        (record default_policy { environments = in_production.environments })
        "production"
        "write"
        (field "x" (str "y") end)
unfolding Dict.get
evaluate_environment_default_example =
    evaluate_environment_default in_production
      (record default_policy { environments = in_production.environments }) "production" "write"
      "REQUIRE_APPROVAL" end (field "x" (str "y") end) production refl refl refl (λ e. cc)

no_always : Excludes always default_policy
unfolding default_policy parse_permission Dict.empty
no_always = record {
  by_default = λ e. cc;
  by_tools = tt;
  by_categories = tt;
  by_rules = tt;
  by_patterns = tt;
  by_environments = tt;
}

evaluate_excluded_example : evaluate default_policy "production" "read" end ≢ ok always
evaluate_excluded_example =
    evaluate_excluded always default_policy "production" "read" end no_always

abbrev read_tool : String
read_tool = "read"

allowed_tools : list_allowed_tools tools_only "production" end ≡ ok ("read" ∷ [])
unfolding list_allowed_tools evaluate check_environment_override check_tool_permission
    parse_permission Dict.get
allowed_tools = refl

list_allowed_tools_exact_example : Memᴰ read_tool (read_tool ∷ []) ↔ (
    Memᴰ read_tool (names (Dict.items tools_only.tools))
    × (evaluate tools_only "production" "read" end ≡ ok always))
list_allowed_tools_exact_example =
    list_allowed_tools_exact tools_only "production" end ("read" ∷ []) "read" allowed_tools
