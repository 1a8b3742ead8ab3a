-- ===== src/Routing/Overrides.antt =====
-- Where the provider and the model of a plan come from.
use agdd.Prelude.{String, ◌≡◌, Option, some, arith, get_or}
use agdd.Routing.Policy.{
  Route, RoutingPolicy, RouteOverrides, find_route, override_route, get_route,
}
use agdd.Routing.Plan.{
  Environment, PlanIr, from_route, set_variable, no_overrides, merge_overrides, get_plan,
  convert_to_plan_ir, plan,
}

-- For a task with a matching route, the planner's provider and model are the explicit overrides where
-- they are given, else the environment variables where they are set and not empty, else those of the
-- route; and the two flags of the route that say how to run it are kept unless they are overridden.
pub plan_precedence :
    (default : RoutingPolicy) (env : Environment) (policy : Option RoutingPolicy)
    (task_type : String) (overrides : Option RouteOverrides) (r : Route)
    → find_route task_type (get_or policy default).routes ≡ some r
    → let o = get_or overrides no_overrides in
      (p : PlanIr) × (plan default env policy task_type overrides ≡ some p)
      × (p.provider ≡ get_or o.provider (get_or (set_variable env.provider) r.provider))
      × (p.model ≡ get_or o.model (get_or (set_variable env.model) r.model))
      × (p.use_batch ≡ get_or o.use_batch r.use_batch)
      × (p.use_cache ≡ get_or o.use_cache r.use_cache)
unfolding plan get_plan get_route override_route merge_overrides from_route convert_to_plan_ir
plan_precedence default env policy task_type overrides r h = (
  convert_to_plan_ir (from_route (override_route (merge_overrides env overrides) r)),
  ground arith,
  ground arith,
  ground arith,
  ground arith,
  ground arith,
)
