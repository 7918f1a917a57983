-- ===== src/Decimal.antt =====
-- github.com/shopspring/decimal as the billing code uses it. The module is not part of the
-- repository, so the type of decimals and its operations are a parameter, and `IsExact` states
-- what its documentation promises: addition, subtraction, multiplication and comparison are exact. Decimals
-- are taken up to `Equal`, so 1.0 and 1.00 are one value.

pub mod Laws
pub mod Integers
use dantegpu_core.Prelude.{ℕ, ℤ, pos, Bool, true, false, ◌≡◌, ◌≢◌, ◌↔◌, ◌⊎◌, compare, Ordering}

pub record Decimals (D : Type 0) : Type 0 where
  -- `decimal.Zero`
  pub zero : D
  pub add : D → D → D
  pub sub : D → D → D
  pub mul : D → D → D
  -- `Div`, which rounds to 16 places
  pub div : D → D → D
  -- `NewFromInt`
  pub from_int : ℤ → D
  -- `New(value, -places)`: a literal such as 0.5 is `literal (pos 5) 1`
  pub literal : ℤ → ℕ → D
  -- `NewFromFloat(d.Hours())` of a duration of so many microseconds
  pub from_hours : ℤ → D
  pub cmp : D → D → Ordering

module _ {D : Type 0} ⦃d : Decimals D⦄ where
  abbrev pub add : D → D → D
  add = d.add

  abbrev pub sub : D → D → D
  sub = d.sub

  abbrev pub mul : D → D → D
  mul = d.mul

  abbrev pub div : D → D → D
  div = d.div

  abbrev pub from_int : ℤ → D
  from_int = d.from_int

  -- `LessThan`
  abbrev pub less_than : D → D → Bool
  less_than a b = elim (d.cmp a b) [ Ordering.lt ↦ true | _ ↦ false ]

  -- `GreaterThan`
  abbrev pub greater_than : D → D → Bool
  greater_than a b = elim (d.cmp a b) [ Ordering.gt ↦ true | _ ↦ false ]

  -- `LessThanOrEqual`
  abbrev pub less_or_equal : D → D → Bool
  less_or_equal a b = elim (d.cmp a b) [ Ordering.gt ↦ false | _ ↦ true ]

  -- `GreaterThanOrEqual`
  abbrev pub greater_or_equal : D → D → Bool
  greater_or_equal a b = elim (d.cmp a b) [ Ordering.lt ↦ false | _ ↦ true ]

  -- `IsZero`
  abbrev pub is_zero_decimal : D → Bool
  is_zero_decimal a = elim (d.cmp a d.zero) [ Ordering.eq ↦ true | _ ↦ false ]

  -- a is at most b.
  abbrev pub AtMost : D → D → Type 0
  AtMost a b = d.cmp a b ≢ Ordering.gt

-- What the documentation of the operations promises.
pub record IsExact (D : Type 0) ⦃d : Decimals D⦄ : Type 0 where
  pub add_comm : (a b : D) → d.add a b ≡ d.add b a
  pub add_assoc : (a b c : D) → d.add (d.add a b) c ≡ d.add a (d.add b c)
  pub add-zero : (a : D) → d.add a d.zero ≡ a
  pub add-sub : (a b : D) → d.add (d.sub a b) b ≡ a
  pub add-mul : (a b c : D) → d.mul (d.add a b) c ≡ d.add (d.mul a c) (d.mul b c)
  pub cmp_eq : (a b : D) → d.cmp a b ≡ Ordering.eq → a ≡ b
  pub cmp_refl : (a : D) → d.cmp a a ≡ Ordering.eq
  pub cmp_lt : (a b : D) → d.cmp a b ≡ Ordering.lt → d.cmp b a ≡ Ordering.gt
  pub cmp_gt : (a b : D) → d.cmp a b ≡ Ordering.gt → d.cmp b a ≡ Ordering.lt
  pub at_most_trans : (a b c : D) → AtMost a b → AtMost b c → AtMost a c
  pub at_most-add : (a b c : D) → AtMost a b → AtMost (d.add a c) (d.add b c)
  pub mul_nonneg : (a b : D) → AtMost d.zero a → AtMost d.zero b → AtMost d.zero (d.mul a b)
  pub div_nonneg : (a b : D) → AtMost d.zero a → AtMost d.zero b → AtMost d.zero (d.div a b)
  pub from_hours_nonneg : (n : ℕ) → AtMost d.zero (d.from_hours (pos n))
  pub from_int_zero : (z : ℤ) → d.from_int z ≡ d.zero → z ≡ pos 0
  pub zero-from_int : d.from_int (pos 0) ≡ d.zero
  pub from_int_nonneg : (n : ℕ) → AtMost d.zero (d.from_int (pos n))
