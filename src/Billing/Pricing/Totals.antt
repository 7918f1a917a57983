-- ===== src/Billing/Pricing/Totals.antt =====
-- The sums of CalculatePricing.
use dantegpu_core.Prelude.{◌≡◌, sym, ap, refl, ◌∙◌, ℕ, pos, Bool-cases, inl, inr}
use dantegpu_core.Decimal.{Decimals, IsExact, add, sub, mul, less_than, AtMost}
use dantegpu_core.Decimal.Laws.{not_less-AtMost, AtMost-refl}
use dantegpu_core.Billing.Pricing.{
  PricingConfig, PricingRequest, PricingResponse, price, adjusted_base_rate,
  dynamic_pricing_factors,
}

module _ {D : Type 0} ⦃d : Decimals D⦄ (exact : IsExact D) where
  -- What holds between the amounts of a response.
  unfoldable pub AddsUp : PricingRequest D → D → PricingResponse D → Type 0
  AddsUp req base r =
      (r.subtotal_cost ≡ mul r.total_hourly_rate req.duration_hours)
      × ((r.total_cost ≡ add (add r.provider_earnings r.platform_fee) r.platform_fee)
          × AtMost (mul base (d.literal (pos 5) 1)) r.base_hourly_rate)

  half-AtMost :
      (base demand bonus : D)
      → AtMost (mul base (d.literal (pos 5) 1)) (adjusted_base_rate base demand bonus)
  unfolding adjusted_base_rate
  half-AtMost base demand bonus =
      let half = mul base (d.literal (pos 5) 1) in
      let adjusted = sub (mul base demand) (mul base bonus) in
      elim (Bool-cases (less_than adjusted half)) [
        | inl e ↦ rw e (AtMost-refl exact half)
        | inr e ↦ rw e (not_less-AtMost exact adjusted half e)
      ]

  sum-mul : (a b c t : D) → mul (add (add a b) c) t ≡ add (add (mul a t) (mul b t)) (mul c t)
  sum-mul a b c t = exact.add-mul (add a b) c t ∙ ap (λ x. add x (mul c t)) (exact.add-mul a b t)

  -- With exact decimals, the subtotal is the total hourly rate for the duration, the
  -- total is the provider's earnings and twice the platform fee, and the hourly base rate is
  -- at least half the rate of the model.
  pub price-AddsUp :
      (now : ℕ) (config : PricingConfig D) (req : PricingRequest D) (base : D)
      → AddsUp req base (price now config req base)
  unfolding price AddsUp dynamic_pricing_factors
  price-AddsUp now config req base =
      (sym (sum-mul _ _ _ _), (rw exact.add-sub refl, half-AtMost base (d.from_int (pos 1)) d.zero))
