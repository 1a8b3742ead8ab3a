-- ===== src/Examples/RoutingCalls.antt =====
-- Routes of a small policy.
use agdd.Prelude.{String, ◌≡◌, refl, true, false, none, some, List, [], ◌∷◌, Memᴰ, All}
use agdd.Value.{ℤ, pos, end}
use agdd.Value.Equality.{lt_int}
use agdd.Routing.Policy.{
  Route, RoutingPolicy, insert_route, sort_routes, from_entries, matches_task, find_route,
  get_route,
}
use agdd.Routing.Plan.{Environment}
use agdd.Routing.Priority.{get_route_highest}

abbrev route : String → String → ℤ → Route
route task provider priority = record {
  task_type = task;
  provider = provider;
  model = "m";
  use_batch = false;
  use_cache = true;
  structured_output = false;
  moderation = false;
  priority = priority;
  metadata = end;
}

abbrev exact : Route
exact = route "chat" "openai" (pos 0)

abbrev wild : Route
wild = route "*" "local" (pos 10)

abbrev entries : List Route
entries = exact ∷ wild ∷ []

-- The wildcard of higher priority hides the exact route.
wild_first : get_route (from_entries "p" "d" entries) "chat" none ≡ some wild
unfolding get_route from_entries sort_routes insert_route find_route matches_task lt_int
    agdd.Text.Fnmatch.fnmatch
wild_first = refl

get_route_highest_example :
    Memᴰ wild entries
    × (matches_task "chat" wild ≡ true)
    × All
        (λ (u : Route). matches_task "chat" u ≡ true → lt_int wild.priority u.priority ≡ false)
        entries
get_route_highest_example = get_route_highest "p" "d" "chat" entries wild wild_first

missing : get_route (from_entries "p" "d" (exact ∷ [])) "image" none ≡ none
unfolding get_route from_entries sort_routes insert_route find_route matches_task
    agdd.Text.Fnmatch.fnmatch
missing = refl

abbrev default_policy : RoutingPolicy
default_policy = record { name = "p"; description = "d"; routes = exact ∷ [] }

abbrev environment : Environment
environment = record { provider = some "google"; model = some "" }

finds_exact : find_route "chat" default_policy.routes ≡ some exact
unfolding find_route matches_task
finds_exact = refl
