-- ===== src/Billing/Pricing/Requests.antt =====
-- What ValidatePricingRequest lets through, and when CalculatePricing divides by zero.
use dantegpu_core.Prelude.{
  ℕ, ◌<◌, ◌≤◌, ◌^◌, none, false, ◌≡◌, ◌≢◌, ◌↔◌, arith, pos, int64, Unicode, ok, eq_iff,
}
use dantegpu_core.Decimal.{Decimals, IsExact, div, from_int, less_than, greater_than, less_or_equal}
use dantegpu_core.Billing.Pricing.{
  PricingConfig, PricingRequest, Engine, Priced, validate_pricing_request, calculate_pricing,
  get_base_rate,
}

module _ {D : Type 0} ⦃d : Decimals D⦄ where
  -- A request that may be priced.
  unfoldable pub IsValid : PricingConfig D → PricingRequest D → Type 0
  IsValid config req =
      (req.gpu_model ≢ "")
      × ((0 < req.requested_vram)
          × ((req.requested_vram ≤ req.total_vram)
              × ((0 < req.estimated_power_w)
                  × ((less_or_equal req.duration_hours d.zero ≡ false)
                      × ((less_than req.duration_hours
                              (div (from_int config.minimum_session_minutes) (from_int (pos 60)))
                            ≡ false)
                          × (greater_than req.duration_hours (from_int config.maximum_session_hours)
                              ≡ false))))))

  -- ValidatePricingRequest passes a request exactly when it names a model, asks for VRAM that is there and for
  -- power, and its duration is positive and within the limits of the sessions.
  pub validate_pricing_request-IsValid :
      (config : PricingConfig D) (req : PricingRequest D)
      → (validate_pricing_request config req ≡ none) ↔ IsValid config req
  unfolding validate_pricing_request IsValid
  validate_pricing_request-IsValid config req = ground (arith, eq_iff req.gpu_model "")

module _ {D : Type 0} ⦃d : Decimals D⦄ ⦃u : Unicode⦄ (exact : IsExact D) where
  int64-zero : (n : ℕ) → n < 2 ^ 64 → int64 n ≡ pos 0 → n ≡ 0
  int64-zero n h e = ground arith

  -- For a 64-bit total VRAM, CalculatePricing panics exactly when the model has a rate and the total VRAM is
  -- zero.
  pub calculate_pricing-panic :
      (now : ℕ) (e : Engine D) (req : PricingRequest D)
      → req.total_vram < 2 ^ 64
      → (calculate_pricing now e req ≡ Priced.panicked) ↔ (
          (rate : D) × ((get_base_rate req.gpu_model e.base_rates ≡ ok rate)
            × (req.total_vram ≡ 0)))
  unfolding calculate_pricing
  calculate_pricing-panic now e req h =
      let total = d.from_int (int64 req.total_vram) in
      ground (
        arith,
        exact.cmp_eq total d.zero,
        exact.cmp_refl d.zero,
        exact.from_int_zero (int64 req.total_vram),
        exact.zero-from_int,
        int64-zero req.total_vram,
      )
