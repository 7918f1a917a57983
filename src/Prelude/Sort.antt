-- ===== src/Prelude/Sort.antt =====
-- Insertion sort by a Boolean test, for `ORDER BY`.
use mathlib.Core.Path.{◌≡◌}
use mathlib.Core.Logic.{inl, inr}
use mathlib.Core.Bool.{Bool, true, false}
use mathlib.Core.List.{List, [], ◌∷◌, Perm}
use mathlib.Core.List.Perm
use Prim.Native.Nat.{ℕ, zero, suc}
use dantegpu_core.Prelude.Tests.{if◌then◌else◌, Bool-cases}
use dantegpu_core.Prelude.Lists.{All, take, drop, All-take, All-drop}

module _ {ℓ} {A : Type ℓ} (le : A → A → Bool) where
  pub insert_by : A → List A → List A
  insert_by x [] = x ∷ []
  insert_by x (y ∷ ys) = if le x y then x ∷ y ∷ ys else y ∷ insert_by x ys

  unfoldable pub sort : List A → List A
  unfolding insert_by
  sort [] = []
  sort (x ∷ xs) = insert_by x (sort xs)

  insert_by-perm : (x : A) (ys : List A) → Perm (insert_by x ys) (x ∷ ys)
  unfolding insert_by
  insert_by-perm x [] = Perm.refl (x ∷ [])
  insert_by-perm x (y ∷ ys) = elim (Bool-cases (le x y)) [
    | inl h ↦ rw h (Perm.refl (x ∷ y ∷ ys))
    | inr h ↦ rw h (Perm.trans (Perm.cons y (insert_by-perm x ys)) (Perm.swap x y ys))
  ]

  pub sort-perm : (xs : List A) → Perm (sort xs) xs
  unfolding sort
  sort-perm [] = Perm.refl []
  sort-perm (x ∷ xs) = Perm.trans (insert_by-perm x (sort xs)) (Perm.cons x (sort-perm xs))

module _ {ℓ} {A : Type ℓ} (P : A → Type 0) (le : A → A → Bool) where
  insert_by-All : (x : A) (ys : List A) → P x → All P ys → All P (insert_by le x ys)
  unfolding insert_by
  insert_by-All x [] h k = (h, tt)
  insert_by-All x (y ∷ ys) h k = elim (Bool-cases (le x y)) [
    | inl e ↦ rw e (h, k)
    | inr e ↦ rw e (k.0, insert_by-All x ys h k.1)
  ]

  pub sort-All : (xs : List A) → All P xs → All P (sort le xs)
  unfolding sort
  sort-All [] h = tt
  sort-All (x ∷ xs) h = insert_by-All x (sort le xs) h.0 (sort-All xs h.1)

-- Every earlier member stands in the relation to every later one.
abbrev pub Ordered {ℓ} : {A : Type ℓ} → (A → A → Type 0) → List A → Type ℓ
Ordered R [] = Unit
Ordered R (x ∷ xs) = All (R x) xs × Ordered R xs

All-imp {ℓ} :
    {A : Type ℓ} {P Q : A → Type 0} → ((a : A) → P a → Q a) → (xs : List A) → All P xs → All Q xs
All-imp f [] h = tt
All-imp f (x ∷ xs) h = (f x h.0, All-imp f xs h.1)

module _ {ℓ} {A : Type ℓ} (le : A → A → Bool) (R : A → A → Type 0)
    (yes_le : (a b : A) → le a b ≡ true → R a b) (no_le : (a b : A) → le a b ≡ false → R b a)
    (trans : (a b c : A) → R a b → R b c → R a c) where
  insert_by-Ordered : (x : A) (ys : List A) → Ordered R ys → Ordered R (insert_by le x ys)
  unfolding insert_by
  insert_by-Ordered x [] o = (tt, tt)
  insert_by-Ordered x (y ∷ ys) o = elim (Bool-cases (le x y)) [
    | inl e ↦ rw e ((yes_le x y e, All-imp (λ b r. trans x y b (yes_le x y e) r) ys o.0), o)
    | inr e ↦ rw e (insert_by-All (R y) le x ys (no_le x y e) o.0, insert_by-Ordered x ys o.1)
  ]

  -- Sorting by a total test of a transitive relation puts the list in order.
  pub sort-Ordered : (xs : List A) → Ordered R (sort le xs)
  unfolding sort
  sort-Ordered [] = tt
  sort-Ordered (x ∷ xs) = insert_by-Ordered x (sort le xs) (sort-Ordered xs)

module _ {ℓ} {A : Type ℓ} (R : A → A → Type 0) where
  pub Ordered-take : (n : ℕ) (xs : List A) → Ordered R xs → Ordered R (take n xs)
  Ordered-take zero xs o = tt
  Ordered-take (suc n) [] o = tt
  Ordered-take (suc n) (x ∷ xs) o = (All-take (R x) n xs o.0, Ordered-take n xs o.1)

  -- The members taken stand before those left.
  pub Ordered-take-drop :
      (n : ℕ) (xs : List A) → Ordered R xs → All (λ a. All (R a) (drop n xs)) (take n xs)
  Ordered-take-drop zero xs o = tt
  Ordered-take-drop (suc n) [] o = tt
  Ordered-take-drop (suc n) (x ∷ xs) o = (All-drop (R x) n xs o.0, Ordered-take-drop n xs o.1)
