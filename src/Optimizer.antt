-- ===== src/Optimizer.antt =====
-- The cost optimizer, src/magsag/optimization/optimizer.py.
-- Money is in units of 0.0001 USD and quality in units of 0.01, so that every table entry and
-- threshold of the class is a whole number. The text of `reasoning` is not modelled.
pub mod Selection
use agdd.Prelude.{
  ℕ, ◌+◌, ◌*◌, ◌/◌, Bool, true, false, ◌&&◌, Option, none, some, List, [], ◌∷◌, leb, ltb,
  if◌then◌else◌, get_or,
}

pub data ExecutionMode : Type 0 where
  realtime batch : ExecutionMode

pub data ModelTier : Type 0 where
  local mini standard premium : ModelTier

pub data CacheStrategy : Type 0 where
  uncached aggressive conservative : CacheStrategy

pub record SlaParameters : Type 0 where
  pub max_latency_ms : Option ℕ
  pub max_cost : Option ℕ
  pub min_quality : ℕ
  pub realtime_required : Bool
  pub allow_cache : Bool
  pub allow_batch : Bool

pub record ExecutionPlan : Type 0 where
  pub mode : ExecutionMode
  pub model_tier : ModelTier
  pub cache_strategy : CacheStrategy
  pub enable_batch : Bool
  pub estimated_cost : ℕ
  pub estimated_latency_ms : ℕ

-- BASE_COSTS, in 0.0001 USD
unfoldable pub base_cost : ModelTier → ℕ
base_cost local = 0
base_cost mini = 20
base_cost standard = 100
base_cost premium = 300

-- TIER_QUALITY, in hundredths
unfoldable pub tier_quality : ModelTier → ℕ
tier_quality local = 50
tier_quality mini = 80
tier_quality standard = 90
tier_quality premium = 95

unfoldable pub base_latency_ms : ModelTier → ℕ
base_latency_ms local = 500
base_latency_ms mini = 1000
base_latency_ms standard = 2000
base_latency_ms premium = 3000

abbrev pub batch_mode_overhead_ms : ℕ
batch_mode_overhead_ms = 5000

abbrev pub all_tiers : List ModelTier
all_tiers = local ∷ mini ∷ standard ∷ premium ∷ []

-- The comprehension of `_select_model_tier`.
unfoldable pub affordable_tiers : ℕ → List ModelTier → List ModelTier
affordable_tiers budget [] = []
affordable_tiers budget (t ∷ ts) =
    let rest = affordable_tiers budget ts in if leb (base_cost t) budget then t ∷ rest else rest

-- The loops `for tier in tiers: if TIER_QUALITY[tier] >= min_quality: return tier`.
unfoldable pub first_meeting : ℕ → List ModelTier → Option ModelTier
first_meeting quality [] = none
first_meeting quality (t ∷ ts) =
    let rest = first_meeting quality ts in if leb quality (tier_quality t) then some t else rest

-- `affordable[-1]` of a list that may be empty.
unfoldable pub last_of : List ModelTier → Option ModelTier
last_of [] = none
last_of (t ∷ []) = some t
last_of (t ∷ u ∷ ts) = last_of (u ∷ ts)

unfoldable pub tiers_within : Option ℕ → List ModelTier
unfolding affordable_tiers base_cost
tiers_within none = all_tiers
tiers_within (some budget) = affordable_tiers budget all_tiers

-- What is chosen when no affordable tier meets the quality.
unfoldable pub fallback_tier : SlaParameters → List ModelTier → ModelTier
unfolding first_meeting last_of tier_quality
fallback_tier sla affordable =
    let cheapest = get_or (first_meeting sla.min_quality all_tiers) local in
    elim sla.max_cost [
      | none ↦ cheapest
      | some _ ↦ elim (last_of affordable) [ none ↦ cheapest | some t ↦ t ]
    ]

unfoldable pub select_model_tier : SlaParameters → ModelTier
unfolding tiers_within first_meeting fallback_tier tier_quality
select_model_tier sla =
    let affordable = tiers_within sla.max_cost in
    elim (first_meeting sla.min_quality affordable) [
      | some t ↦ t
      | none ↦ fallback_tier sla affordable
    ]

-- `int(latency * 0.8)`, exact at the table's values.
unfoldable pub estimate_latency : ExecutionMode → ModelTier → Bool → ℕ
unfolding base_latency_ms
estimate_latency mode tier enable_batch =
    let latency =
      if enable_batch
      then base_latency_ms tier + batch_mode_overhead_ms
      else base_latency_ms tier in
    elim mode [ realtime ↦ latency * 8 / 10 | batch ↦ latency ]

unfoldable pub select_execution_mode : SlaParameters → ModelTier → ExecutionMode
unfolding estimate_latency
select_execution_mode sla tier =
    if sla.realtime_required then realtime else elim sla.max_latency_ms [
      | none ↦ batch
      | some limit ↦ if ltb limit (estimate_latency batch tier true) then realtime else batch
    ]

abbrev pub is_large : ModelTier → Bool
is_large standard = true
is_large premium = true
is_large _ = false

-- `sla.max_cost_usd is not None and sla.max_cost_usd < 0.005`
abbrev pub is_cost_sensitive : Option ℕ → Bool
is_cost_sensitive none = false
is_cost_sensitive (some budget) = ltb budget 50

unfoldable pub select_cache_strategy : SlaParameters → ModelTier → CacheStrategy
select_cache_strategy sla tier =
    if sla.allow_cache
    then if is_cost_sensitive sla.max_cost
      then aggressive
      else if is_large tier
      then conservative
      else aggressive
    else uncached

-- The multipliers 0.3 and 0.6 give whole numbers at every base cost.
unfoldable pub estimate_cost : ModelTier → CacheStrategy → ℕ
unfolding base_cost
estimate_cost tier aggressive = base_cost tier * 3 / 10
estimate_cost tier conservative = base_cost tier * 6 / 10
estimate_cost tier uncached = base_cost tier

abbrev pub is_batch : ExecutionMode → Bool
is_batch batch = true
is_batch realtime = false

unfoldable pub optimize : SlaParameters → ExecutionPlan
unfolding select_model_tier select_execution_mode select_cache_strategy estimate_cost
    estimate_latency
optimize sla =
    let tier = select_model_tier sla in
    let mode = select_execution_mode sla tier in
    let strategy = select_cache_strategy sla tier in
    let enable_batch = sla.allow_batch && is_batch mode in
    record {
      mode = mode;
      model_tier = tier;
      cache_strategy = strategy;
      enable_batch = enable_batch;
      estimated_cost = estimate_cost tier strategy;
      estimated_latency_ms = estimate_latency mode tier enable_batch;
    }
