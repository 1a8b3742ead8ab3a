-- ===== src/Routing/Plan.antt =====
-- `get_plan` of src/magsag/routing/router.py and `Planner` of src/magsag/planner/planner.py. The
-- environment variables are the argument `env`, and the default policy of the package is `default`.
use agdd.Prelude.{String, Bool, Option, none, some, List, [], ◌∷◌, if◌then◌else◌, str_eq, get_or}
use agdd.Value.{pos, Value, Fields, null, int}
use agdd.Value.Equality.{get_field}
use agdd.Routing.Policy.{Route, RoutingPolicy, RouteOverrides, get_route}

pub record Plan : Type 0 where
  pub task_type : String
  pub provider : String
  pub model : String
  pub use_batch : Bool
  pub use_cache : Bool
  pub structured_output : Bool
  pub moderation : Bool
  pub metadata : Fields

-- MAGSAG_PROVIDER and MAGSAG_MODEL
pub record Environment : Type 0 where
  pub provider : Option String
  pub model : Option String

unfoldable pub from_route : Route → Plan
from_route r = record {
  task_type = r.task_type;
  provider = r.provider;
  model = r.model;
  use_batch = r.use_batch;
  use_cache = r.use_cache;
  structured_output = r.structured_output;
  moderation = r.moderation;
  metadata = r.metadata;
}

-- An empty variable counts as absent.
abbrev pub set_variable : Option String → Option String
set_variable none = none
set_variable (some s) = if str_eq s "" then none else some s

-- The explicit value before the variable.
abbrev pub or_variable : Option String → Option String → Option String
or_variable (some s) variable = some s
or_variable none variable = set_variable variable

abbrev pub no_overrides : RouteOverrides
no_overrides = record {
  task_type = none;
  provider = none;
  model = none;
  use_batch = none;
  use_cache = none;
  structured_output = none;
  moderation = none;
  priority = none;
  metadata = none;
}

-- `{**env_overrides, **(overrides or {})}`
unfoldable pub merge_overrides : Environment → Option RouteOverrides → RouteOverrides
merge_overrides env overrides =
    let o = get_or overrides no_overrides in
    record o {
      provider = or_variable o.provider env.provider;
      model = or_variable o.model env.model;
    }

unfoldable pub get_plan :
    RoutingPolicy
    → Environment
    → String
    → Option RouteOverrides
    → Option RoutingPolicy
    → Option Plan
get_plan default env task_type overrides policy =
    elim (get_route (get_or policy default) task_type (some (merge_overrides env overrides))) [
      | none ↦ none
      | some r ↦ some (from_route r)
    ]

-- A step of the chain, and the plan as the other components read it.
pub record Step : Type 0 where
  pub provider : String
  pub model : String
  pub use_batch : Bool
  pub use_cache : Bool
  pub structured_output : Bool
  pub moderation : Bool

pub record PlanIr : Type 0 where
  pub chain : List Step
  pub provider : String
  pub model : String
  pub use_batch : Bool
  pub use_cache : Bool
  pub structured_output : Bool
  pub moderation : Bool
  pub sla_ms : Value
  pub cost_budget : Value

unfoldable pub convert_to_plan_ir : Plan → PlanIr
convert_to_plan_ir p =
    let step : Step = record {
      provider = p.provider;
      model = p.model;
      use_batch = p.use_batch;
      use_cache = p.use_cache;
      structured_output = p.structured_output;
      moderation = p.moderation;
    } in
    record {
      chain = step ∷ [];
      provider = p.provider;
      model = p.model;
      use_batch = p.use_batch;
      use_cache = p.use_cache;
      structured_output = p.structured_output;
      moderation = p.moderation;
      sla_ms = get_or (get_field "sla_ms" p.metadata) (int (pos 30000));
      cost_budget = get_or (get_field "cost_budget" p.metadata) null;
    }

unfoldable pub plan :
    RoutingPolicy
    → Environment
    → Option RoutingPolicy
    → String
    → Option RouteOverrides
    → Option PlanIr
plan default env policy task_type overrides =
    elim (get_plan default env task_type overrides policy) [
      | none ↦ none
      | some p ↦ some (convert_to_plan_ir p)
    ]
