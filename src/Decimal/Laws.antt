-- ===== src/Decimal/Laws.antt =====
-- What follows from the promises of the decimals: cancellation, and moving a summand across an
-- inequality.
use dantegpu_core.Prelude.{◌≡◌, sym, ap, ◌∙◌, true, false, arith}
use mathlib.Core.Path.{subst, ◌≡⟨◌⟩◌, ◌∎}
use dantegpu_core.Decimal.{
  Decimals, IsExact, add, sub, less_than, greater_than, greater_or_equal, AtMost,
}

module _ {D : Type 0} ⦃d : Decimals D⦄ (exact : IsExact D) where
  open exact use {
    add_comm, add_assoc, add-zero, add-sub, at_most-add, at_most_trans, cmp_refl, cmp_lt, cmp_gt,
    cmp_eq,
  }

  pub AtMost-refl : (a : D) → AtMost a a
  AtMost-refl a h = ground (arith, cmp_refl a)

  pub AtMost-of_eq : (a b : D) → a ≡ b → AtMost a b
  AtMost-of_eq a b e = subst (AtMost a) e (AtMost-refl a)

  pub greater_or_equal-AtMost : (a b : D) → greater_or_equal a b ≡ true → AtMost b a
  greater_or_equal-AtMost a b h e = ground (arith, cmp_gt b a)

  pub AtMost-greater_or_equal : (a b : D) → AtMost b a → greater_or_equal a b ≡ true
  AtMost-greater_or_equal a b h = ground (arith, cmp_lt a b)

  pub not_less-AtMost : (a b : D) → less_than a b ≡ false → AtMost b a
  not_less-AtMost a b h e = ground (arith, cmp_gt b a)

  pub less-AtMost : (a b : D) → less_than a b ≡ true → AtMost a b
  less-AtMost a b h e = ground arith

  pub not_greater-AtMost : (a b : D) → greater_than a b ≡ false → AtMost a b
  not_greater-AtMost a b h e = ground arith

  -- c and -c cancel.
  add_neg : (a c : D) → add (add a c) (sub d.zero c) ≡ a
  add_neg a c =
      add (add a c) (sub d.zero c)
      ≡⟨ add_assoc a c (sub d.zero c) ⟩ add a (add c (sub d.zero c))
      ≡⟨ ap (add a) (add_comm c (sub d.zero c) ∙ add-sub d.zero c) ⟩ add a d.zero
      ≡⟨ add-zero a ⟩ a ∎

  pub add_cancel : (a b c : D) → add a c ≡ add b c → a ≡ b
  add_cancel a b c e = sym (add_neg a c) ∙ ap (λ x. add x (sub d.zero c)) e ∙ add_neg b c

  pub sub-add : (a b : D) → sub (add a b) b ≡ a
  sub-add a b = add_cancel (sub (add a b) b) a b (add-sub (add a b) b)

  pub sub_self : (a : D) → sub a a ≡ d.zero
  sub_self a = add_cancel (sub a a) d.zero a (add-sub a a ∙ sym (add_comm d.zero a ∙ add-zero a))

  AtMost-cancel : (a b c : D) → AtMost (add a c) (add b c) → AtMost a b
  AtMost-cancel a b c h =
      subst (λ x. AtMost x b) (add_neg a c)
        (subst (AtMost (add (add a c) (sub d.zero c))) (add_neg b c)
          (at_most-add (add a c) (add b c) (sub d.zero c) h))

  -- a ≤ b - c gives c + a ≤ b.
  pub add_of_AtMost-sub : (a b c : D) → AtMost a (sub b c) → AtMost (add c a) b
  add_of_AtMost-sub a b c h =
      subst (λ x. AtMost x b) (add_comm a c)
        (subst (AtMost (add a c)) (add-sub b c) (at_most-add a (sub b c) c h))

  pub AtMost-sub_of_add : (a b c : D) → AtMost (add c a) b → AtMost a (sub b c)
  AtMost-sub_of_add a b c h =
      AtMost-cancel a (sub b c) c
        (subst (AtMost (add a c)) (sym (add-sub b c)) (subst (λ x. AtMost x b) (add_comm c a) h))

  -- A sum of two numbers that are not negative is at least each.
  pub AtMost-add_right : (a b : D) → AtMost d.zero b → AtMost a (add a b)
  AtMost-add_right a b h =
      subst (λ x. AtMost x (add a b)) (add_comm d.zero a ∙ add-zero a)
        (subst (AtMost (add d.zero a)) (add_comm b a) (at_most-add d.zero b a h))

  pub add_nonneg : (a b : D) → AtMost d.zero a → AtMost d.zero b → AtMost d.zero (add a b)
  add_nonneg a b h k = at_most_trans d.zero a (add a b) h (AtMost-add_right a b k)

  -- Taking away what is not negative makes no number larger.
  pub sub-AtMost : (a b : D) → AtMost d.zero b → AtMost (sub a b) a
  sub-AtMost a b h = subst (AtMost (sub a b)) (add-sub a b) (AtMost-add_right (sub a b) b h)
