-- ===== src/Scheduler/Matching.antt =====
-- The matching of a job to a provider, services/scheduler-orchestrator-service/internal/scheduler/
-- consumer.go: the guards of the loop in `scheduleJob`, `findProviderGPUType`, `selectBillingGPU`,
-- `bestProviderVRAM`, `bestProviderPowerW` and `estimatePowerFromModel`.
pub mod Best
pub mod Suitable
pub mod Billing
use dantegpu_core.Prelude.{
  ℕ, String, List, [], ◌∷◌, Option, none, some, Bool, true, false, not, ◌&&◌, ◌||◌, ltb, leb, ◌==◌,
  if◌then◌else◌, ℤ, pos, ltb_ℤ, length, find_first, text_eq, Unicode, codes, contains, to_lower,
  equal_fold,
}
use dantegpu_core.Scheduler.Models.{ProviderStatus, GpuDetail, Provider, Job}

abbrev pub is_idle : ProviderStatus → Bool
is_idle ProviderStatus.idle = true
is_idle _ = false

-- `findProviderGPUType`
unfoldable pub find_provider_gpu_type : Provider → String
find_provider_gpu_type p = elim p.gpus [ [] ↦ "unknown-gpu" | g ∷ _ ↦ g.model_name ]

pub best_vram_from : ℕ → List GpuDetail → ℕ
best_vram_from best [] = best
best_vram_from best (g ∷ gs) = best_vram_from (if ltb best g.vram then g.vram else best) gs

-- `bestProviderVRAM`
unfoldable pub best_provider_vram : Provider → ℕ
unfolding best_vram_from
best_provider_vram p = best_vram_from 0 p.gpus

module _ ⦃u : Unicode⦄ where
  -- `estimatePowerFromModel`
  unfoldable pub estimate_power_from_model : String → ℕ
  estimate_power_from_model model =
      let m = to_lower model in
      if contains m (codes "h100")
      then 700
      else if contains m (codes "4090")
      then 450
      else if contains m (codes "a100")
      then 400
      else if contains m (codes "4080") || contains m (codes "3090")
      then 350
      else if contains m (codes "a6000") || contains m (codes "l40")
      then 300
      else 250

  -- The power of one GPU as both loops read it: what was reported, or else the estimate.
  unfoldable pub effective_power : GpuDetail → ℕ
  effective_power g =
      if g.power_consumption == 0
      then estimate_power_from_model g.model_name
      else g.power_consumption

  pub best_power_from : ℕ → List GpuDetail → ℕ
  best_power_from best [] = best
  best_power_from best (g ∷ gs) =
      best_power_from (if ltb best (effective_power g) then effective_power g else best) gs

  -- `bestProviderPowerW`
  unfoldable pub best_provider_power_w : Provider → ℕ
  unfolding best_power_from
  best_provider_power_w p = best_power_from 0 p.gpus

  -- The two `continue` guards of `selectBillingGPU`, passed.
  unfoldable pub meets_floors : ℕ → ℕ → GpuDetail → Bool
  meets_floors min_vram min_power g =
      not (ltb 0 min_vram && ltb g.vram min_vram)
      && not (ltb 0 min_power && ltb (effective_power g) min_power)

  -- `best == nil || g.VRAM > best.VRAM`
  abbrev pub improves : GpuDetail → Option GpuDetail → Bool
  improves g none = true
  improves g (some b) = ltb b.vram g.vram

  pub select_from : ℕ → ℕ → Option GpuDetail → List GpuDetail → Option GpuDetail
  select_from min_vram min_power best [] = best
  select_from min_vram min_power best (g ∷ gs) =
      select_from min_vram min_power
        (if meets_floors min_vram min_power g && improves g best then some g else best) gs

  -- The fallback to the first GPU.
  abbrev or_first : Option GpuDetail → List GpuDetail → Option GpuDetail
  or_first (some b) gs = some b
  or_first none [] = none
  or_first none (g ∷ gs) = some g

  -- `selectBillingGPU`
  unfoldable pub select_billing_gpu : Provider → ℕ → ℕ → Option GpuDetail
  unfolding select_from
  select_billing_gpu p min_vram min_power =
      or_first (select_from min_vram min_power none p.gpus) p.gpus

  abbrev pub has_gpus : List GpuDetail → Bool
  has_gpus [] = false
  has_gpus (_ ∷ _) = true

  -- The guards of the loop of `scheduleJob`, all passed.
  unfoldable pub is_suitable : Job → Provider → Bool
  is_suitable job p =
      is_idle p.status
      && has_gpus p.gpus
      && (text_eq job.gpu_type "" || equal_fold (find_provider_gpu_type p) job.gpu_type)
      && not (ltb_ℤ (pos 0) job.gpu_count && ltb_ℤ (pos (length p.gpus)) job.gpu_count)
      && not (ltb 0 job.min_vram_mb && ltb (best_provider_vram p) job.min_vram_mb)
      && not (ltb 0 job.min_power_w && ltb (best_provider_power_w p) job.min_power_w)

  -- The loop: the first provider that passes.
  unfoldable pub find_suitable : Job → List Provider → Option Provider
  find_suitable job = find_first (is_suitable job)
