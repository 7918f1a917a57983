-- ===== src/Billing/Pricing/Rates.antt =====
-- The partial matches of getBaseRate in services/billing-payment-service/internal/pricing/engine.go, in the order in
-- which the map is visited.
use dantegpu_core.Prelude.{
  ℕ, String, List, [], ◌∷◌, ◌++◌, none, some, true, false, ◌≡◌, refl, ◌||◌, arith, Unicode, codes,
  codes_eq, contains, trim_space, map, ok, All,
}
use dantegpu_core.Decimal.{Decimals}
use dantegpu_core.Billing.Pricing.{RateTable, rate_of, partial_rate, get_base_rate}

module _ ⦃u : Unicode⦄ where
  -- The name that getBaseRate looks up.
  unfoldable pub normalized : String → List ℕ
  normalized s = map u.lower (trim_space (codes s))

-- Two names match where one contains the other.
unfoldable pub IsPartial : List ℕ → List ℕ → Type 0
IsPartial m name = (contains m name || contains name m) ≡ true

module _ {D : Type 0} where
  -- The table has no key of that name.
  unfoldable pub IsMissing : List ℕ → RateTable D → Type 0
  IsMissing m rates = All (λ (entry : List ℕ × D). codes_eq entry.0 m ≡ false) rates

  -- No key of the table matches the name in part.
  unfoldable pub NoneMatches : List ℕ → RateTable D → Type 0
  NoneMatches m rates = All (λ (entry : List ℕ × D). ¬ IsPartial m entry.0) rates

  rate_of-missing : (m : List ℕ) (rates : RateTable D) → IsMissing m rates → rate_of m rates ≡ none
  unfolding rate_of IsMissing
  rate_of-missing m [] h = refl
  rate_of-missing m (entry ∷ rest) h = ground (arith, h.0, rate_of-missing m rest h.1)

  partial_rate-first :
      (m name : List ℕ) (rate : D) (before after : RateTable D)
      → NoneMatches m before
      → IsPartial m name
      → partial_rate m (before ++ (name, rate) ∷ after) ≡ some rate
  unfolding partial_rate NoneMatches IsPartial
  partial_rate-first m name rate [] after h p = ground (arith, p)
  partial_rate-first m name rate (entry ∷ before) after h p =
      ground (arith, h.0, partial_rate-first m name rate before after h.1 p)

  -- What holds for all entries holds for all when two change places.
  swapped_tail :
      (P : List ℕ × D → Type 0) (x y : List ℕ × D) (middle after : RateTable D)
      → P x
      → All P (middle ++ y ∷ after)
      → P y × All P (middle ++ x ∷ after)
  swapped_tail P x y [] after h a = (a.0, (h, a.1))
  swapped_tail P x y (entry ∷ middle) after h a =
      let (q, b) = swapped_tail P x y middle after h a.1 in (q, (a.0, b))

  swapped_All :
      (P : List ℕ × D → Type 0) (x y : List ℕ × D) (before middle after : RateTable D)
      → All P (before ++ x ∷ (middle ++ y ∷ after))
      → All P (before ++ y ∷ (middle ++ x ∷ after))
  swapped_All P x y [] middle after a = swapped_tail P x y middle after a.0 a.1
  swapped_All P x y (entry ∷ before) middle after a =
      (a.0, swapped_All P x y before middle after a.1)

module _ {D : Type 0} ⦃d : Decimals D⦄ ⦃u : Unicode⦄ where
  first_match :
      (gpu_model : String) (name : List ℕ) (rate : D) (before after : RateTable D)
      → IsMissing (normalized gpu_model) (before ++ (name, rate) ∷ after)
      → NoneMatches (normalized gpu_model) before
      → IsPartial (normalized gpu_model) name
      → get_base_rate gpu_model (before ++ (name, rate) ∷ after) ≡ ok rate
  unfolding get_base_rate normalized
  first_match gpu_model name rate before after h n p =
      let rates = before ++ (name, rate) ∷ after in
      ground (
        arith,
        rate_of-missing (normalized gpu_model) rates h,
        partial_rate-first (normalized gpu_model) name rate before after n p,
      )

  -- A model that no key equals has the rate of the first key in the order of the iteration that matches in
  -- part, whatever keys that do not match come before it and whatever keys come after; in the order in which
  -- that key and another one that matches have changed places, it has the rate of the other.
  pub partial_match_by_order :
      (gpu_model : String) (name other : List ℕ) (rate other_rate : D)
      (before middle after : RateTable D)
      → IsMissing
          (normalized gpu_model)
          (before ++ (name, rate) ∷ (middle ++ (other, other_rate) ∷ after))
      → NoneMatches (normalized gpu_model) before
      → IsPartial (normalized gpu_model) name
      → IsPartial (normalized gpu_model) other
      → (get_base_rate gpu_model (before ++ (name, rate) ∷ (middle ++ (other, other_rate) ∷ after))
          ≡ ok rate)
        × (get_base_rate gpu_model
              (before ++ (other, other_rate) ∷ (middle ++ (name, rate) ∷ after))
            ≡ ok other_rate)
  unfolding IsMissing
  partial_match_by_order gpu_model name other rate other_rate before middle after h n p q = (
    first_match gpu_model name rate before (middle ++ (other, other_rate) ∷ after) h n p,
    first_match gpu_model other other_rate before (middle ++ (name, rate) ∷ after)
        (swapped_All (λ entry. codes_eq entry.0 (normalized gpu_model) ≡ false) (name, rate)
          (other, other_rate) before middle after h)
        n q,
  )
