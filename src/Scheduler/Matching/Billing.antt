-- ===== src/Scheduler/Matching/Billing.antt =====
-- `selectBillingGPU`: the GPU that a job is billed against, and how it agrees with the guards of the
-- search.
use dantegpu_core.Prelude.{
  ◌≤ℤ◌, pos, ℕ, ◌≤◌, ◌<◌, ◌≡◌, refl, List, [], ◌∷◌, ◌⊎◌, inl, inr, Option, some, none, true, ◌&&◌,
  if◌then◌else◌, arith, Unicode, Any, All,
}
use dantegpu_core.Scheduler.Models.{ProviderStatus, GpuDetail, Provider, Job}
use dantegpu_core.Scheduler.Matching.{
  effective_power, or_first, meets_floors, improves, select_from, select_billing_gpu, is_suitable,
}
use dantegpu_core.Scheduler.Matching.Suitable.{is_suitable_complete}

module _ ⦃u : Unicode⦄ (min_vram min_power : ℕ) where
  -- One GPU that clears both floors.
  abbrev pub Meets : GpuDetail → Type 0
  Meets g = (min_vram ≤ g.vram) × (min_power ≤ effective_power g)

  meets_floors_sound : (g : GpuDetail) → meets_floors min_vram min_power g ≡ true → Meets g
  unfolding meets_floors
  meets_floors_sound g h = ground arith

  meets_floors_complete : (g : GpuDetail) → Meets g → meets_floors min_vram min_power g ≡ true
  unfolding meets_floors
  meets_floors_complete g h = ground arith

  -- The best so far clears the floors.
  abbrev MeetsBest : Option GpuDetail → Type 0
  MeetsBest none = Unit
  MeetsBest (some b) = Meets b

  -- The best so far has at least the VRAM of a GPU.
  abbrev Dominates : Option GpuDetail → GpuDetail → Type 0
  Dominates none h = ⊥
  Dominates (some b) h = h.vram ≤ b.vram

  abbrev next_best : Option GpuDetail → GpuDetail → Option GpuDetail
  next_best best g = if meets_floors min_vram min_power g && improves g best then some g else best

  next_best-MeetsBest :
      (best : Option GpuDetail) (g : GpuDetail) → MeetsBest best → MeetsBest (next_best best g)
  next_best-MeetsBest none g h = ground (arith, meets_floors_sound g)
  next_best-MeetsBest (some b) g h = ground (arith, meets_floors_sound g)

  next_best-Dominates :
      (best : Option GpuDetail) (g h : GpuDetail)
      → Dominates best h
      → Dominates (next_best best g) h
  next_best-Dominates none g h d = absurd d
  next_best-Dominates (some b) g h d = ground arith

  next_best-Dominates_self :
      (best : Option GpuDetail) (g : GpuDetail) → Meets g → Dominates (next_best best g) g
  next_best-Dominates_self none g m = ground (arith, meets_floors_complete g)
  next_best-Dominates_self (some b) g m = ground (arith, meets_floors_complete g)

  select_from-MeetsBest :
      (best : Option GpuDetail) (gs : List GpuDetail)
      → MeetsBest best
      → MeetsBest (select_from min_vram min_power best gs)
  unfolding select_from
  select_from-MeetsBest best [] h = h
  select_from-MeetsBest best (g ∷ gs) h =
      select_from-MeetsBest (next_best best g) gs (next_best-MeetsBest best g h)

  select_from-Dominates :
      (best : Option GpuDetail) (gs : List GpuDetail) (h : GpuDetail)
      → Dominates best h
      → Dominates (select_from min_vram min_power best gs) h
  unfolding select_from
  select_from-Dominates best [] h d = d
  select_from-Dominates best (g ∷ gs) h d =
      select_from-Dominates (next_best best g) gs h (next_best-Dominates best g h d)

  select_from-Dominates_each :
      (best : Option GpuDetail) (gs : List GpuDetail)
      → All (λ h. Meets h → Dominates (select_from min_vram min_power best gs) h) gs
  unfolding select_from
  select_from-Dominates_each best [] = tt
  select_from-Dominates_each best (g ∷ gs) = (
    λ m. select_from-Dominates (next_best best g) gs g (next_best-Dominates_self best g m),
    select_from-Dominates_each (next_best best g) gs,
  )

  -- What is picked is the start value or a GPU of the list.
  select_from-mem :
      (best : Option GpuDetail) (gs : List GpuDetail) {b : GpuDetail}
      → select_from min_vram min_power best gs ≡ some b
      → (best ≡ some b) ⊎ Any (λ g. g ≡ b) gs
  unfolding select_from
  select_from-mem best [] e = inl e
  select_from-mem best (g ∷ gs) e = ground (arith, select_from-mem (next_best best g) gs e)

  -- What the billing GPU is on a list of GPUs: where some GPU clears both floors, one of the list that
  -- clears both and has the most VRAM of those that do; otherwise the first of the list.
  abbrev pub BilledOn : List GpuDetail → Option GpuDetail → Type 0
  BilledOn gs (some b) =
      (Meets b × Any (λ g. g ≡ b) gs × All (λ h. Meets h → h.vram ≤ b.vram) gs)
      ⊎ (All (λ h. ¬ Meets h) gs × ((rest : List GpuDetail) × (gs ≡ b ∷ rest)))
  BilledOn gs none = gs ≡ []

  nobody : (gs : List GpuDetail) → All (λ h. Meets h → ⊥) gs → BilledOn gs (or_first none gs)
  nobody [] a = refl
  nobody (g ∷ gs) a = inr (a, (gs, refl))

  or_first-BilledOn :
      (r : Option GpuDetail) (gs : List GpuDetail)
      → ((b : GpuDetail) → r ≡ some b → Any (λ g. g ≡ b) gs)
      → MeetsBest r
      → All (λ h. Meets h → Dominates r h) gs
      → BilledOn gs (or_first r gs)
  or_first-BilledOn none gs mem m a = nobody gs a
  or_first-BilledOn (some b) gs mem m a = inl (m, mem b refl, a)

module _ ⦃u : Unicode⦄ where
  -- The billing GPU of a provider, for any floors: the largest-VRAM GPU that clears both floors, and
  -- the first GPU where none does. Only a provider with no GPU has none.
  pub select_billing_gpu-BilledOn :
      (p : Provider) (min_vram min_power : ℕ)
      → BilledOn min_vram min_power p.gpus (select_billing_gpu p min_vram min_power)
  unfolding select_billing_gpu
  select_billing_gpu-BilledOn p mv mp =
      or_first-BilledOn mv mp (select_from mv mp none p.gpus) p.gpus
        (λ b e. elim (select_from-mem mv mp none p.gpus e) [ inl n ↦ absurd (cc) | inr m ↦ m ])
        (select_from-MeetsBest mv mp none p.gpus tt) (select_from-Dominates_each mv mp none p.gpus)

  -- The guards of the search look for the VRAM and for the power on any two GPUs. So a rig of two
  -- GPUs, each of which clears one floor only, is suitable for a job that asks for nothing else, and the job is
  -- billed against its first GPU, which does not clear both floors.
  pub split_rig_suitable :
      (job : Job) (p : Provider) (a b : GpuDetail)
      → p.status ≡ ProviderStatus.idle
      → p.gpus ≡ a ∷ b ∷ []
      → job.gpu_type ≡ ""
      → job.gpu_count ≤ℤ pos 2
      → job.min_vram_mb ≤ a.vram
      → effective_power a < job.min_power_w
      → b.vram < job.min_vram_mb
      → job.min_power_w ≤ effective_power b
      → (is_suitable job p ≡ true)
        × (select_billing_gpu p job.min_vram_mb job.min_power_w ≡ some a)
        × ¬ Meets job.min_vram_mb job.min_power_w a
  unfolding select_billing_gpu select_from meets_floors
  split_rig_suitable job p a b idle rig any few va pa vb pb = (
    is_suitable_complete job p (record {
      idle = idle;
      typed = inl any;
      counted = rw rig few;
      roomy = rw rig (inl va);
      powered = rw rig (inr (inl pb));
    }),
    rw rig (ground arith),
    λ m. omega arith,
  )
