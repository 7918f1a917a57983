-- ===== src/Billing/Pricing.antt =====
-- services/billing-payment-service/internal/pricing/engine.go. The rates are a list of names and rates in the
-- order in which Go's map iteration visits them, the names by their code points, in lower case.

pub mod Rates
pub mod Totals
pub mod Requests
use dantegpu_core.Prelude.{
  filter, not, ℕ, ◌+◌, ◌*◌, ◌<◌, String, append, List, [], ◌∷◌, Option, none, some, Bool, true,
  false, ◌||◌, if◌then◌else◌, ltb, ◌==◌, ℤ, pos, int64, Unicode, codes, codes_eq, contains,
  to_lower, trim_space, map, Answer, ok, err, text_eq,
}
use dantegpu_core.Decimal.{
  Decimals, add, sub, mul, div, from_int, less_than, greater_than, less_or_equal, is_zero_decimal,
}

abbrev pub RateTable : Type 0 → Type 0
RateTable D = List (List ℕ × D)

-- `Config`, without the fields that the engine never reads
pub record PricingConfig (D : Type 0) : Type 0 where
  pub vram_rate_per_gb : D
  pub power_multiplier : D
  pub platform_fee_percent : D
  pub minimum_session_minutes : ℤ
  pub maximum_session_hours : ℤ

-- `Engine`
pub record Engine (D : Type 0) : Type 0 where
  pub config : PricingConfig D
  pub base_rates : RateTable D

-- `PricingRequest`
pub record PricingRequest (D : Type 0) : Type 0 where
  pub gpu_model : String
  pub requested_vram : ℕ  -- uint64
  pub total_vram : ℕ  -- uint64
  pub estimated_power_w : ℕ  -- uint32
  pub duration_hours : D
  pub provider_id : Option String
  pub user_id : Option String

-- `PricingResponse`; the times are in microseconds
pub record PricingResponse (D : Type 0) : Type 0 where
  pub base_hourly_rate : D
  pub vram_hourly_rate : D
  pub power_hourly_rate : D
  pub total_hourly_rate : D
  pub base_cost : D
  pub vram_cost : D
  pub power_cost : D
  pub subtotal_cost : D
  pub platform_fee : D
  pub total_cost : D
  pub provider_earnings : D
  pub demand_multiplier : D
  pub supply_bonus : D
  pub vram_percentage : D
  pub allocated_vram_gb : D
  pub calculated_at : ℕ
  pub valid_until : ℕ

-- `baseRates[name] = rate`
unfoldable pub put_rate : {D : Type 0} → List ℕ → D → RateTable D → RateTable D
put_rate name rate [] = (name, rate) ∷ []
put_rate name rate (entry ∷ rest) =
    if codes_eq entry.0 name then (entry.0, rate) ∷ rest else entry ∷ put_rate name rate rest

-- The loop of `NewEngine`, over the configured rates in the order of their map.
unfoldable pub lowered : {D : Type 0} ⦃u : Unicode⦄ → List (String × D) → RateTable D → RateTable D
unfolding put_rate
lowered [] rates = rates
lowered (entry ∷ rest) rates = lowered rest (put_rate (to_lower entry.0) entry.1 rates)

-- `NewEngine`
unfoldable pub new_engine :
    {D : Type 0} ⦃u : Unicode⦄ → PricingConfig D → List (String × D) → Engine D
unfolding lowered
new_engine config base_rates = record { config = config; base_rates = lowered base_rates [] }

-- `GetSupportedGPUModels`
unfoldable pub supported_gpu_models : {D : Type 0} → Engine D → RateTable D
supported_gpu_models e = filter (λ entry. not (codes_eq entry.0 (codes "default"))) e.base_rates

-- `baseRates[name]`
unfoldable pub rate_of : {D : Type 0} → List ℕ → RateTable D → Option D
rate_of name [] = none
rate_of name (entry ∷ rest) = if codes_eq entry.0 name then some entry.1 else rate_of name rest

-- The first entry that contains the name or is contained in it.
unfoldable pub partial_rate : {D : Type 0} → List ℕ → RateTable D → Option D
partial_rate name [] = none
partial_rate name (entry ∷ rest) =
    if contains name entry.0 || contains entry.0 name then some entry.1 else partial_rate name rest

-- The guards of `getGPUFamilyRate`: the name of the rate, none where every branch falls through
-- to the end.
unfoldable pub rtx_40 : List ℕ → Option String
rtx_40 m =
    if contains m (codes "rtx-40") || contains m (codes "rtx 40")
    then if contains m (codes "4090")
      then some "nvidia-geforce-rtx-4090"
      else if contains m (codes "4080")
      then some "nvidia-geforce-rtx-4080"
      else if contains m (codes "4070")
      then some "nvidia-geforce-rtx-4070"
      else none
    else none

unfoldable pub rtx_30 : List ℕ → Option String
rtx_30 m =
    if contains m (codes "rtx-30") || contains m (codes "rtx 30")
    then if contains m (codes "3090")
      then some "nvidia-geforce-rtx-3090"
      else if contains m (codes "3080")
      then some "nvidia-geforce-rtx-3080"
      else none
    else none

unfoldable pub tesla : List ℕ → Option String
tesla m =
    if contains m (codes "tesla") || contains m (codes "a100") || contains m (codes "h100")
    then if contains m (codes "h100")
      then some "nvidia-tesla-h100"
      else if contains m (codes "a100")
      then some "nvidia-tesla-a100"
      else if contains m (codes "v100")
      then some "nvidia-tesla-v100"
      else none
    else none

unfoldable pub apple : List ℕ → Option String
apple m =
    if contains m (codes "apple")
      || contains m (codes "m1")
      || contains m (codes "m2")
      || contains m (codes "m3")
    then if contains m (codes "m3")
      then if contains m (codes "ultra")
        then some "apple-m3-ultra"
        else if contains m (codes "max")
        then some "apple-m3-max"
        else none
      else if contains m (codes "m2")
      then if contains m (codes "ultra")
        then some "apple-m2-ultra"
        else if contains m (codes "max")
        then some "apple-m2-max"
        else none
      else if contains m (codes "m1")
      then if contains m (codes "ultra")
        then some "apple-m1-ultra"
        else if contains m (codes "max")
        then some "apple-m1-max"
        else none
      else none
    else none

unfoldable pub radeon : List ℕ → Option String
radeon m =
    if contains m (codes "amd") || contains m (codes "radeon")
    then if contains m (codes "7900")
      then some "amd-radeon-rx-7900-xtx"
      else if contains m (codes "6900")
      then some "amd-radeon-rx-6900-xt"
      else none
    else none

-- The first of two that is there.
unfoldable pub or_else : {A : Type 0} → Option A → Option A → Option A
or_else (some a) other = some a
or_else none other = other

unfoldable pub family_name : List ℕ → Option String
unfolding or_else rtx_40 rtx_30 tesla apple radeon
family_name m =
    or_else (rtx_40 m) (or_else (rtx_30 m) (or_else (tesla m) (or_else (apple m) (radeon m))))

-- What `CalculatePricing` comes to; it panics where it divides by zero.
pub data Priced (D : Type 0) : Type 0 where
  priced : PricingResponse D → Priced D
  no_rate : String → Priced D
  panicked : Priced D

-- The refusals of `ValidatePricingRequest`, one for each guard.
pub data Refusal : Type 0 where
  no_model no_vram no_total_vram vram_over_total no_power no_duration too_short too_long : Refusal

module _ {D : Type 0} ⦃d : Decimals D⦄ where
  -- `getGPUFamilyRate`; a name that the map misses has the zero rate
  unfoldable pub family_rate : List ℕ → RateTable D → D
  unfolding family_name rate_of
  family_rate m rates = elim (family_name m) [
    | none ↦ d.zero
    | some name ↦ elim (rate_of (codes name) rates) [ none ↦ d.zero | some rate ↦ rate ]
  ]

  -- The family match of `getBaseRate` and the default.
  unfoldable pub fallback_rate : String → List ℕ → RateTable D → Answer D
  unfolding family_rate rate_of
  fallback_rate gpu_model m rates =
      if is_zero_decimal (family_rate m rates)
      then elim (rate_of (codes "default") rates) [
        | some rate ↦ ok rate
        | none ↦ err (append "no pricing available for GPU model: " gpu_model)
      ]
      else ok (family_rate m rates)

  -- `getBaseRate`
  unfoldable pub get_base_rate : ⦃u : Unicode⦄ → String → RateTable D → Answer D
  unfolding rate_of partial_rate fallback_rate
  get_base_rate ⦃u = u⦄ gpu_model rates =
      let m = map u.lower (trim_space (codes gpu_model)) in
      elim (rate_of m rates) [
        | some rate ↦ ok rate
        | none ↦ elim (partial_rate m rates) [
          | some rate ↦ ok rate
          | none ↦ fallback_rate gpu_model m rates
        ]
      ]

  -- `getDynamicPricingFactors`, which never fails
  unfoldable pub dynamic_pricing_factors : PricingRequest D → D × D
  dynamic_pricing_factors req = (from_int (pos 1), d.zero)

  -- The base rate under the dynamic factors, never below half of it.
  unfoldable pub adjusted_base_rate : D → D → D → D
  adjusted_base_rate base demand bonus =
      let adjusted = sub (mul base demand) (mul base bonus) in
      let half = mul base (d.literal (pos 5) 1) in
      if less_than adjusted half then half else adjusted

  -- The response of `CalculatePricing` for a base rate.
  unfoldable pub price : ℕ → PricingConfig D → PricingRequest D → D → PricingResponse D
  unfolding dynamic_pricing_factors adjusted_base_rate
  price now config req base =
      let vram_percentage =
        div (from_int (int64 req.requested_vram)) (from_int (int64 req.total_vram)) in
      let allocated_vram_gb = div (from_int (int64 req.requested_vram)) (from_int (pos 1024)) in
      let vram_hourly_rate = mul config.vram_rate_per_gb allocated_vram_gb in
      let power_kw = div (from_int (pos req.estimated_power_w)) (from_int (pos 1000)) in
      let power_hourly_rate = mul config.power_multiplier power_kw in
      let factors = dynamic_pricing_factors req in
      let adjusted = adjusted_base_rate base factors.0 factors.1 in
      let base_cost = mul adjusted req.duration_hours in
      let vram_cost = mul vram_hourly_rate req.duration_hours in
      let power_cost = mul power_hourly_rate req.duration_hours in
      let subtotal_cost = add (add base_cost vram_cost) power_cost in
      let platform_fee = div (mul subtotal_cost config.platform_fee_percent) (from_int (pos 100)) in
      record {
        base_hourly_rate = adjusted;
        vram_hourly_rate = vram_hourly_rate;
        power_hourly_rate = power_hourly_rate;
        total_hourly_rate = add (add adjusted vram_hourly_rate) power_hourly_rate;
        base_cost = base_cost;
        vram_cost = vram_cost;
        power_cost = power_cost;
        subtotal_cost = subtotal_cost;
        platform_fee = platform_fee;
        total_cost = add subtotal_cost platform_fee;
        provider_earnings = sub subtotal_cost platform_fee;
        demand_multiplier = factors.0;
        supply_bonus = factors.1;
        vram_percentage = vram_percentage;
        allocated_vram_gb = allocated_vram_gb;
        calculated_at = now;
        valid_until = now + 300000000;
      }

  -- `CalculatePricing`
  unfoldable pub calculate_pricing : ⦃u : Unicode⦄ → ℕ → Engine D → PricingRequest D → Priced D
  unfolding get_base_rate price
  calculate_pricing now e req = elim (get_base_rate req.gpu_model e.base_rates) [
    | err m ↦ no_rate (append "failed to get base rate: " m)
    | ok base ↦
        if is_zero_decimal {D = D} (from_int (int64 req.total_vram))
        then panicked
        else priced (price now e.config req base)
  ]

  -- `ValidatePricingRequest`
  unfoldable pub validate_pricing_request : PricingConfig D → PricingRequest D → Option Refusal
  validate_pricing_request config req =
      if text_eq req.gpu_model ""
      then some no_model
      else if req.requested_vram == 0
      then some no_vram
      else if req.total_vram == 0
      then some no_total_vram
      else if ltb req.total_vram req.requested_vram
      then some vram_over_total
      else if req.estimated_power_w == 0
      then some no_power
      else if less_or_equal req.duration_hours d.zero
      then some no_duration
      else if less_than req.duration_hours
          (div (from_int config.minimum_session_minutes) (from_int (pos 60)))
      then some too_short
      else if greater_than req.duration_hours (from_int config.maximum_session_hours)
      then some too_long
      else none
