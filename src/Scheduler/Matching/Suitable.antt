-- ===== src/Scheduler/Matching/Suitable.antt =====
-- The loop of `scheduleJob` against a description of the provider that a job needs.
use dantegpu_core.Prelude.{
  ℕ, zero, suc, ◌≤◌, ◌<◌, ◌≡◌, refl, List, [], ◌∷◌, ◌++◌, ◌⊎◌, inl, inr, Option, some, none, true,
  arith, Unicode, Any, All, ◌≤ℤ◌, pos, length, equal_fold, Bool-cases, eq_iff, ap, sym, ◌∙◌,
}
use mathlib.Core.Bool.{false≢true}
use dantegpu_core.Scheduler.Models.{ProviderStatus, GpuDetail, Provider, Job}
use dantegpu_core.Scheduler.Matching.{
  find_provider_gpu_type, best_provider_vram, best_provider_power_w, effective_power, is_suitable,
  find_suitable, has_gpus, best_vram_from, best_power_from,
}
use dantegpu_core.Scheduler.Matching.Best.{
  best_vram_from_sound, best_vram_from_complete, best_power_from_sound, best_power_from_complete,
}

module _ ⦃u : Unicode⦄ where
  -- What a job asks of a provider; the power of a GPU is what it reports, or else the estimate from its model name.
  pub record Qualifies (job : Job) (p : Provider) : Type 0 where
    pub idle : p.status ≡ ProviderStatus.idle
    pub typed : (job.gpu_type ≡ "") ⊎ (equal_fold (find_provider_gpu_type p) job.gpu_type ≡ true)
    pub counted : job.gpu_count ≤ℤ pos (length p.gpus)
    pub roomy : Any (λ g. job.min_vram_mb ≤ g.vram) p.gpus
    pub powered : Any (λ g. job.min_power_w ≤ effective_power g) p.gpus

  roomy_sound :
      (floor : ℕ) (gs : List GpuDetail)
      → has_gpus gs ≡ true
      → (0 < floor → floor ≤ best_vram_from 0 gs)
      → Any (λ g. floor ≤ g.vram) gs
  roomy_sound zero (g ∷ gs) e h = inl (omega arith)
  roomy_sound (suc n) gs e h = elim (best_vram_from_sound (suc n) 0 gs (h (omega arith))) [
    | inl z ↦ absurd (omega arith)
    | inr a ↦ a
  ]
  roomy_sound zero [] e h = cc

  powered_sound :
      (floor : ℕ) (gs : List GpuDetail)
      → has_gpus gs ≡ true
      → (0 < floor → floor ≤ best_power_from 0 gs)
      → Any (λ g. floor ≤ effective_power g) gs
  powered_sound zero (g ∷ gs) e h = inl (omega arith)
  powered_sound (suc n) gs e h = elim (best_power_from_sound (suc n) 0 gs (h (omega arith))) [
    | inl z ↦ absurd (omega arith)
    | inr a ↦ a
  ]
  powered_sound zero [] e h = cc

  -- A provider that passes the guards has what the job asks for.
  pub is_suitable_sound : (job : Job) (p : Provider) → is_suitable job p ≡ true → Qualifies job p
  unfolding is_suitable best_provider_vram best_provider_power_w
  is_suitable_sound job p h = record {
    idle = ground arith;
    typed = ground (arith, eq_iff job.gpu_type "");
    counted = ground arith;
    roomy = roomy_sound job.min_vram_mb p.gpus (ground arith) (ground arith);
    powered = powered_sound job.min_power_w p.gpus (ground arith) (ground arith);
  }

  has_gpus_of_Any : (P : GpuDetail → Type 0) (gs : List GpuDetail) → Any P gs → has_gpus gs ≡ true
  has_gpus_of_Any P [] a = absurd a
  has_gpus_of_Any P (g ∷ gs) a = refl

  -- A provider that has what the job asks for passes the guards.
  pub is_suitable_complete : (job : Job) (p : Provider) → Qualifies job p → is_suitable job p ≡ true
  unfolding is_suitable best_provider_vram best_provider_power_w
  is_suitable_complete job p q = ground (
    arith,
    has_gpus_of_Any (λ g. job.min_vram_mb ≤ g.vram) p.gpus q.roomy,
    best_vram_from_complete job.min_vram_mb 0 p.gpus (inr q.roomy),
    best_power_from_complete job.min_power_w 0 p.gpus (inr q.powered),
    eq_iff job.gpu_type "",
  )

  -- What the search may answer on a list of providers: the first that qualifies, or nothing when none
  -- does.
  abbrev pub Answers : Job → List Provider → Option Provider → Type 0
  Answers job ps none = All (λ p. ¬ Qualifies job p) ps
  Answers job ps (some p) =
      (before : List Provider) × (after : List Provider) × (ps ≡ before ++ p ∷ after)
      × Qualifies job p
      × All (λ q. ¬ Qualifies job q) before

  Answers-cons :
      (job : Job) (q : Provider) (ps : List Provider) (r : Option Provider)
      → ¬ Qualifies job q
      → Answers job ps r
      → Answers job (q ∷ ps) r
  Answers-cons job q ps none n a = (n, a)
  Answers-cons job q ps (some p) n (before, after, e, good, bad) =
      (q ∷ before, after, ap (λ l. q ∷ l) e, good, (n, bad))

  -- The loop picks the first provider of the list that qualifies, where a power that is not reported counts as
  -- estimated, and picks none exactly when no provider of the list does.
  pub find_suitable-Answers :
      (job : Job) (ps : List Provider) → Answers job ps (find_suitable job ps)
  unfolding find_suitable
  find_suitable-Answers job [] = tt
  find_suitable-Answers job (p ∷ ps) = elim (Bool-cases (is_suitable job p)) [
    | inl good ↦ rw good ([], ps, refl, is_suitable_sound job p good, tt)
    | inr bad ↦ rw bad (
        Answers-cons job p ps (find_suitable job ps)
          (λ q. false≢true (sym bad ∙ is_suitable_complete job p q)) (find_suitable-Answers job ps))
  ]
