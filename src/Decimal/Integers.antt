-- ===== src/Decimal/Integers.antt =====
-- The integers as decimals with no places: they show that the promises can be kept, and serve the
-- concrete inputs of the tests.
use dantegpu_core.Prelude.{
  ℕ, suc, ◌+◌, ◌*◌, ◌/◌, ◌^◌, ◌≤◌, ◌≡◌, ◌≢◌, refl, ap, ℤ, pos, negsuc, pos_part, neg_part, sub_ℕ,
  ◌+ℤ◌, ◌-ℤ◌, arith, compare, Ordering, eq_of_parts, +ℤ_parts, int_laws,
}
use dantegpu_core.Decimal.{Decimals, IsExact}

unfoldable pub mul_ℤ : ℤ → ℤ → ℤ
mul_ℤ a b =
    sub_ℕ (pos_part a * pos_part b + neg_part a * neg_part b)
      (pos_part a * neg_part b + neg_part a * pos_part b)

-- Division towards zero; division by zero is taken as zero.
unfoldable pub div_ℤ : ℤ → ℤ → ℤ
div_ℤ (pos m) (pos n) = pos (m / n)
div_ℤ (pos m) (negsuc n) = sub_ℕ 0 (m / suc n)
div_ℤ (negsuc m) (pos n) = sub_ℕ 0 (suc m / n)
div_ℤ (negsuc m) (negsuc n) = pos (suc m / suc n)

unfoldable pub cmp_ℤ : ℤ → ℤ → Ordering
cmp_ℤ a b = compare (pos_part a + neg_part b) (pos_part b + neg_part a)

abbrev pub integers : Decimals ℤ
integers = record {
  zero = pos 0;
  add = ◌+ℤ◌;
  sub = ◌-ℤ◌;
  mul = mul_ℤ;
  div = div_ℤ;
  from_int = λ n. n;
  literal = λ v places. div_ℤ v (pos (10 ^ places));
  from_hours = λ n. div_ℤ n (pos 3_600_000_000);
  cmp = cmp_ℤ;
}

mul_parts :
    (a b : ℤ)
    → pos_part (mul_ℤ a b) + (pos_part a * neg_part b + neg_part a * pos_part b)
      ≡ neg_part (mul_ℤ a b) + (pos_part a * pos_part b + neg_part a * neg_part b)
unfolding mul_ℤ
mul_parts a b = ground arith

cmp_eq_ℤ : (a b : ℤ) → cmp_ℤ a b ≡ Ordering.eq → a ≡ b
unfolding cmp_ℤ
cmp_eq_ℤ a b h = ground arith

cmp_refl_ℤ : (a : ℤ) → cmp_ℤ a a ≡ Ordering.eq
unfolding cmp_ℤ
cmp_refl_ℤ a = ground arith

cmp_lt_ℤ : (a b : ℤ) → cmp_ℤ a b ≡ Ordering.lt → cmp_ℤ b a ≡ Ordering.gt
unfolding cmp_ℤ
cmp_lt_ℤ a b h = ground arith

cmp_gt_ℤ : (a b : ℤ) → cmp_ℤ a b ≡ Ordering.gt → cmp_ℤ b a ≡ Ordering.lt
unfolding cmp_ℤ
cmp_gt_ℤ a b h = ground arith

abbrev AtMostℤ : ℤ → ℤ → Type 0
AtMostℤ a b = cmp_ℤ a b ≢ Ordering.gt

at_most_sound : (a b : ℤ) → AtMostℤ a b → pos_part a + neg_part b ≤ pos_part b + neg_part a
unfolding cmp_ℤ
at_most_sound a b h = ground arith

at_most_complete : (a b : ℤ) → pos_part a + neg_part b ≤ pos_part b + neg_part a → AtMostℤ a b
unfolding cmp_ℤ
at_most_complete a b h e = ground arith

add-mul_ℤ : (a b c : ℤ) → mul_ℤ (a +ℤ b) c ≡ mul_ℤ a c +ℤ mul_ℤ b c
add-mul_ℤ a b c = eq_of_parts _ _ (
    omega (
      arith,
      +ℤ_parts a b,
      +ℤ_parts (mul_ℤ a c) (mul_ℤ b c),
      mul_parts (a +ℤ b) c,
      mul_parts a c,
      mul_parts b c,
      ap (λ (n : ℕ). n * pos_part c) (+ℤ_parts a b),
      ap (λ (n : ℕ). n * neg_part c) (+ℤ_parts a b),
    ))

mul_nonneg_ℤ : (a b : ℤ) → AtMostℤ (pos 0) a → AtMostℤ (pos 0) b → AtMostℤ (pos 0) (mul_ℤ a b)
unfolding mul_ℤ
mul_nonneg_ℤ (pos m) (pos n) h k = at_most_complete _ _ (ground arith)
mul_nonneg_ℤ (pos m) (negsuc n) h k = absurd (omega (arith, at_most_sound (pos 0) (negsuc n) k))
mul_nonneg_ℤ (negsuc m) b h k = absurd (omega (arith, at_most_sound (pos 0) (negsuc m) h))

div_nonneg_ℤ : (a b : ℤ) → AtMostℤ (pos 0) a → AtMostℤ (pos 0) b → AtMostℤ (pos 0) (div_ℤ a b)
unfolding div_ℤ
div_nonneg_ℤ (pos m) (pos n) h k = at_most_complete _ _ (omega arith)
div_nonneg_ℤ (pos m) (negsuc n) h k = absurd (omega (arith, at_most_sound (pos 0) (negsuc n) k))
div_nonneg_ℤ (negsuc m) (pos n) h k = absurd (omega (arith, at_most_sound (pos 0) (negsuc m) h))
div_nonneg_ℤ (negsuc m) (negsuc n) h k = absurd (omega (arith, at_most_sound (pos 0) (negsuc m) h))

-- The promises hold of the integers.
pub integers-IsExact : IsExact ℤ ⦃d = integers⦄
integers-IsExact = record {
  add_comm = λ a b. omega int_laws;
  add_assoc = λ a b c. omega int_laws;
  add-zero = λ a. omega int_laws;
  add-sub = λ a b. omega int_laws;
  add-mul = add-mul_ℤ;
  cmp_eq = cmp_eq_ℤ;
  cmp_refl = cmp_refl_ℤ;
  cmp_lt = cmp_lt_ℤ;
  cmp_gt = cmp_gt_ℤ;
  at_most_trans =
      λ a b c h k. at_most_complete a c (omega (arith, at_most_sound a b h, at_most_sound b c k));
  at_most-add = λ a b c h.
      at_most_complete _ _ (omega (arith, at_most_sound a b h, +ℤ_parts a c, +ℤ_parts b c));
  mul_nonneg = mul_nonneg_ℤ;
  div_nonneg = div_nonneg_ℤ;
  from_hours_nonneg = λ n.
      div_nonneg_ℤ (pos n) (pos 3_600_000_000) (at_most_complete _ _ (omega arith))
        (at_most_complete _ _ (omega arith));
  from_int_zero = λ z e. e;
  zero-from_int = refl;
  from_int_nonneg = λ n. at_most_complete (pos 0) (pos n) (omega arith);
}
