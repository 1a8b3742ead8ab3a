-- ===== src/Routing/Policy.antt =====
-- `RoutingPolicy`, src/magsag/routing/policy.py. The entries of a policy file come with their types
-- and defaults applied; an override that is absent is `none`.
use agdd.Prelude.{
  String, Bool, ◌||◌, Option, none, some, List, [], ◌∷◌, if◌then◌else◌, str_eq, get_or,
}
use agdd.Text.Fnmatch.{fnmatch}
use agdd.Value.{ℤ, Fields}
use agdd.Value.Equality.{lt_int}

pub record Route : Type 0 where
  pub task_type : String
  pub provider : String
  pub model : String
  pub use_batch : Bool
  pub use_cache : Bool
  pub structured_output : Bool
  pub moderation : Bool
  pub priority : ℤ
  pub metadata : Fields

pub record RoutingPolicy : Type 0 where
  pub name : String
  pub description : String
  pub routes : List Route

pub record RouteOverrides : Type 0 where
  pub task_type : Option String
  pub provider : Option String
  pub model : Option String
  pub use_batch : Option Bool
  pub use_cache : Option Bool
  pub structured_output : Option Bool
  pub moderation : Option Bool
  pub priority : Option ℤ
  pub metadata : Option Fields

-- `sort(key=priority, reverse=True)`, which keeps the order of equal priorities.
unfoldable pub insert_route : Route → List Route → List Route
insert_route r [] = r ∷ []
insert_route r (u ∷ l) =
    let rest = insert_route r l in if lt_int r.priority u.priority then u ∷ rest else r ∷ u ∷ l

unfoldable pub sort_routes : List Route → List Route
sort_routes [] = []
sort_routes (r ∷ l) = insert_route r (sort_routes l)

-- `from_yaml`, after the checks of the file's shape.
unfoldable pub from_entries : String → String → List Route → RoutingPolicy
from_entries name description entries = record {
  name = name;
  description = description;
  routes = sort_routes entries;
}

unfoldable pub matches_task : String → Route → Bool
matches_task task_type r = str_eq r.task_type task_type || fnmatch task_type r.task_type

-- The loop up to its first `break`.
unfoldable pub find_route : String → List Route → Option Route
find_route task_type [] = none
find_route task_type (r ∷ l) =
    let rest = find_route task_type l in if matches_task task_type r then some r else rest

-- `route_dict.update(overrides)`
unfoldable pub override_route : RouteOverrides → Route → Route
override_route o r = record {
  task_type = get_or o.task_type r.task_type;
  provider = get_or o.provider r.provider;
  model = get_or o.model r.model;
  use_batch = get_or o.use_batch r.use_batch;
  use_cache = get_or o.use_cache r.use_cache;
  structured_output = get_or o.structured_output r.structured_output;
  moderation = get_or o.moderation r.moderation;
  priority = get_or o.priority r.priority;
  metadata = get_or o.metadata r.metadata;
}

-- No overrides are as good as empty ones.
unfoldable pub get_route : RoutingPolicy → String → Option RouteOverrides → Option Route
get_route policy task_type overrides = elim (find_route task_type policy.routes) [
  | none ↦ none
  | some r ↦ elim overrides [ none ↦ some r | some o ↦ some (override_route o r) ]
]
