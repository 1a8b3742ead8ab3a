-- ===== src/Examples/OptimizerCalls.antt =====
-- Plans of the optimizer.
use agdd.Prelude.{ℕ, ◌≤◌, ◌<◌, ◌≡◌, refl, true, false, some, arith}
use agdd.Optimizer.{
  ModelTier, SlaParameters, batch, standard, premium, base_cost, tier_quality, optimize,
}
use agdd.Optimizer.Selection.{optimize-within_budget, optimize_cheapest}

abbrev sla : ℕ → ℕ → SlaParameters
sla budget quality = record {
  max_latency_ms = some 8000;
  max_cost = some budget;
  min_quality = quality;
  realtime_required = false;
  allow_cache = true;
  allow_batch = true;
}

-- Quality 0.9 is met by the standard tier, and the premium tier is not chosen.
nine_tenths_is_standard : (optimize (sla 1000 90)).model_tier ≡ standard
unfolding optimize
nine_tenths_is_standard = refl

optimize-within_budget_example :
    (base_cost (optimize (sla 50 95)).model_tier ≤ 50)
    × ((optimize (sla 50 95)).estimated_cost ≤ base_cost (optimize (sla 50 95)).model_tier)
optimize-within_budget_example = optimize-within_budget (sla 50 95) 50 refl

optimize_cheapest_example :
    (90 ≤ tier_quality (optimize (sla 1000 90)).model_tier)
    × (base_cost (optimize (sla 1000 90)).model_tier ≤ base_cost premium)
unfolding base_cost tier_quality
optimize_cheapest_example =
    optimize_cheapest (sla 1000 90) 1000 premium refl (omega arith) (omega arith)

poor_tiers : (t : ModelTier) → base_cost t ≤ 50 → tier_quality t < 95
unfolding base_cost tier_quality
poor_tiers t fits = ground arith

batch_plan : (optimize (sla 1000 90)).mode ≡ batch
unfolding optimize
batch_plan = refl
