-- ===== src/Scheduler/Matching/Best.antt =====
-- The loops that look for the best GPU of a provider: a floor is reached by what they return exactly
-- when it is reached by the start value or by some GPU.
use dantegpu_core.Prelude.{
  ℕ, ltb, if◌then◌else◌, ◌≤◌, List, [], ◌∷◌, ◌⊎◌, inl, inr, arith, Unicode, Any,
}
use dantegpu_core.Scheduler.Models.{GpuDetail}
use dantegpu_core.Scheduler.Matching.{best_vram_from, best_power_from, effective_power}

pub best_vram_from_sound :
    (floor best : ℕ) (gs : List GpuDetail)
    → floor ≤ best_vram_from best gs
    → (floor ≤ best) ⊎ Any (λ g. floor ≤ g.vram) gs
unfolding best_vram_from
best_vram_from_sound floor best [] h = inl h
best_vram_from_sound floor best (g ∷ gs) h =
    ground (arith, best_vram_from_sound floor (if ltb best g.vram then g.vram else best) gs)

pub best_vram_from_complete :
    (floor best : ℕ) (gs : List GpuDetail)
    → (floor ≤ best) ⊎ Any (λ g. floor ≤ g.vram) gs
    → floor ≤ best_vram_from best gs
unfolding best_vram_from
best_vram_from_complete floor best [] (inl h) = h
best_vram_from_complete floor best [] (inr h) = absurd h
best_vram_from_complete floor best (g ∷ gs) h =
    ground (arith, best_vram_from_complete floor (if ltb best g.vram then g.vram else best) gs)

module _ ⦃u : Unicode⦄ where
  pub best_power_from_sound :
      (floor best : ℕ) (gs : List GpuDetail)
      → floor ≤ best_power_from best gs
      → (floor ≤ best) ⊎ Any (λ g. floor ≤ effective_power g) gs
  unfolding best_power_from
  best_power_from_sound floor best [] h = inl h
  best_power_from_sound floor best (g ∷ gs) h = ground (
    arith,
    best_power_from_sound floor (if ltb best (effective_power g) then effective_power g else best)
        gs,
  )

  pub best_power_from_complete :
      (floor best : ℕ) (gs : List GpuDetail)
      → (floor ≤ best) ⊎ Any (λ g. floor ≤ effective_power g) gs
      → floor ≤ best_power_from best gs
  unfolding best_power_from
  best_power_from_complete floor best [] (inl h) = h
  best_power_from_complete floor best [] (inr h) = absurd h
  best_power_from_complete floor best (g ∷ gs) h = ground (
    arith,
    best_power_from_complete floor
        (if ltb best (effective_power g) then effective_power g else best) gs,
  )
