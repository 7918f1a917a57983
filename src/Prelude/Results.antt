-- ===== src/Prelude/Results.antt =====
-- What a fallible call answers: a value, or an error by its text.
use Prim.Native.String.{String}
use mathlib.Core.Path.{◌≡◌, refl}
use mathlib.Core.Logic.{◌⊎◌, inl, inr}

pub data Answer {ℓ} (A : Type ℓ) : Type ℓ where
  ok : A → Answer A
  err : String → Answer A

pub Answer-cases {ℓ} :
    {A : Type ℓ} (a : Answer A) → ((x : A) × (a ≡ ok x)) ⊎ ((e : String) × (a ≡ err e))
Answer-cases (ok x) = inl (x, refl)
Answer-cases (err e) = inr (e, refl)
