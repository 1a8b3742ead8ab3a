-- ===== src/Evaluator/Policy.antt =====
-- The policy document of src/magsag/governance/permission_evaluator.py and its permission texts.
-- A policy is what `yaml.safe_load` returns for a file of the documented shape; an absent key is
-- `none`. Reading the file and the log lines are not modelled.
use agdd.Prelude.{String, Option, some, List, [], if◌then◌else◌}
use agdd.Dict
use agdd.Dict.{Dict}
use agdd.Result.{Result, ok, raise}
use agdd.Text.{codes, lower, eq_codes}
use agdd.Value.{Fields}
use agdd.Permissions.{ToolPermission, always, require_approval, never}

pub data Error : Type 0 where
  value_error : String → Error
  type_error : Error

pub record ToolConfig : Type 0 where
  pub permission : Option String
  pub description : Option String

pub record CategoryConfig : Type 0 where
  pub tools : List String
  pub permission : Option String

pub record Condition : Type 0 where
  pub tool : Option String
  pub tool_pattern : Option String
  pub args_match : Option Fields
  pub context_match : Option Fields

pub record ContextRule : Type 0 where
  pub condition : Condition
  pub permission : Option String

pub record DangerousPattern : Type 0 where
  pub pattern : Option String
  pub permission : Option String

pub record EnvironmentConfig : Type 0 where
  pub overrides : Dict String
  pub default_permission : Option String

pub record Policy : Type 0 where
  pub default_permission : Option String
  pub tools : Dict ToolConfig
  pub categories : List CategoryConfig
  pub context_rules : List ContextRule
  pub dangerous_patterns : List DangerousPattern
  pub environments : Dict EnvironmentConfig

abbrev pub Answer : Type 0 → Type 0
Answer = Result Error

abbrev pub fallback_permission : String
fallback_permission = "REQUIRE_APPROVAL"

-- `_get_default_policy`
unfoldable pub default_policy : Policy
default_policy = record {
  default_permission = some fallback_permission;
  tools = Dict.empty;
  categories = [];
  context_rules = [];
  dangerous_patterns = [];
  environments = Dict.empty;
}

-- `ToolPermission(text.lower())`
unfoldable pub parse_permission : String → Answer ToolPermission
unfolding lower eq_codes
parse_permission text =
    let lowered = lower (codes text) in
    if eq_codes lowered (codes "always")
    then ok always
    else if eq_codes lowered (codes "require_approval")
    then ok require_approval
    else if eq_codes lowered (codes "never")
    then ok never
    else raise (value_error text)
