-- ===== src/Optimizer/Selection.antt =====
-- What the plans of `optimize` promise: budget, quality and latency.
use agdd.Prelude.{ℕ, ◌≤◌, ◌<◌, ◌≡◌, false, some, arith}
use agdd.Optimizer.{
  ModelTier, SlaParameters, batch, local, mini, standard, premium, base_cost, tier_quality,
  select_model_tier, estimate_cost, optimize,
}

base_cost-select_model_tier :
    (sla : SlaParameters) (budget : ℕ)
    → sla.max_cost ≡ some budget
    → base_cost (select_model_tier sla) ≤ budget
unfolding select_model_tier
base_cost-select_model_tier sla budget h = ground arith

estimate_cost-le :
    (t : ModelTier) (sla : SlaParameters)
    → (optimize sla).estimated_cost ≤ base_cost (optimize sla).model_tier
unfolding optimize estimate_cost
estimate_cost-le t sla = ground arith

-- If the request names a budget, then whatever quality it asks for, the tier of the plan costs no
-- more than the budget before any cache discount, and the plan's estimate costs no more than that.
pub optimize-within_budget :
    (sla : SlaParameters) (budget : ℕ)
    → sla.max_cost ≡ some budget
    → (base_cost (optimize sla).model_tier ≤ budget)
      × ((optimize sla).estimated_cost ≤ base_cost (optimize sla).model_tier)
unfolding optimize
optimize-within_budget sla budget h = (base_cost-select_model_tier sla budget h, ground (arith))

-- With a budget, the tier is the cheapest of the affordable ones that meet the quality.
pub optimize_cheapest :
    (sla : SlaParameters) (budget : ℕ) (t : ModelTier)
    → sla.max_cost ≡ some budget
    → base_cost t ≤ budget
    → sla.min_quality ≤ tier_quality t
    → (sla.min_quality ≤ tier_quality (optimize sla).model_tier)
      × (base_cost (optimize sla).model_tier ≤ base_cost t)
unfolding optimize
optimize_cheapest sla budget t h fits good = ground arith

-- With a budget under which no affordable tier meets the quality, the tier is the best affordable.
pub optimize_best_effort :
    (sla : SlaParameters) (budget : ℕ)
    → sla.max_cost ≡ some budget
    → ((t : ModelTier) → base_cost t ≤ budget → tier_quality t < sla.min_quality)
    → (t : ModelTier) → base_cost t ≤ budget
    → tier_quality t ≤ tier_quality (optimize sla).model_tier
unfolding optimize
optimize_best_effort sla budget h poor t fits =
    ground (arith, poor local, poor mini, poor standard, poor premium)

-- If the plan of a request with a latency limit is in batch mode, then the request did not require
-- real time and the plan's estimated latency is within the limit.
pub optimize_batch_latency :
    (sla : SlaParameters) (limit : ℕ)
    → sla.max_latency_ms ≡ some limit
    → (optimize sla).mode ≡ batch
    → (sla.realtime_required ≡ false) × ((optimize sla).estimated_latency_ms ≤ limit)
unfolding optimize
optimize_batch_latency sla limit e h = (ground arith, ground arith)
