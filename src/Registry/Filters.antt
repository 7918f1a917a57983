-- ===== src/Registry/Filters.antt =====
-- What passesFilters and ListProviders select.
use dantegpu_core.Prelude.{
  ℕ, ◌≤◌, String, List, [], ◌∷◌, map, Option, none, some, Bool, true, false, ◌≡◌, ◌↔◌, ◌⊎◌, inl,
  inr, arith, leb, ltb, if◌then◌else◌, All-filter, filter, ap, Unicode, to_lower, contains, text_eq,
  eq_iff, Any, All, Bool-cases,
}
use dantegpu_core.Registry.Models.{GpuDetail, Provider, status_text}
use dantegpu_core.Registry.Store.{
  Query, any_gpu, all_healthy, text_filter, passes_filters, Providers, list_providers, lookup,
}

-- A filter that is given and not empty holds.
unfoldable pub Wanted : Option String → (String → Type 0) → Type 0
Wanted none P = Unit
Wanted (some s) P = (s ≡ "") ⊎ P s

unfoldable pub WantedVram : Option ℕ → List GpuDetail → Type 0
WantedVram none gpus = Unit
WantedVram (some v) gpus = (v ≡ 0) ⊎ Any (λ (g : GpuDetail). v ≤ g.vram) gpus

unfoldable pub WantedHealth : Option Bool → List GpuDetail → Type 0
WantedHealth (some true) gpus = All (λ (g : GpuDetail). g.is_healthy ≡ true) gpus
WantedHealth _ gpus = Unit

module _ ⦃u : Unicode⦄ where
  -- What a query asks of a provider: its status, a GPU with the VRAM, one of the model and one of the
  -- architecture up to case, and every GPU healthy.
  unfoldable pub Passes : Provider → Query → Type 0
  Passes p q =
      Wanted q.status (λ s. status_text p.status ≡ s)
      × (WantedVram q.min_vram p.gpus
          × (Wanted q.gpu_model (λ s.
                Any (λ (g : GpuDetail). contains (to_lower g.model_name) (to_lower s) ≡ true)
                  p.gpus)
              × (Wanted q.architecture (λ s.
                    Any (λ (g : GpuDetail). contains (to_lower g.architecture) (to_lower s) ≡ true)
                      p.gpus)
                  × WantedHealth q.healthy_only p.gpus)))

any_gpu-Any :
    (test : GpuDetail → Bool) (gpus : List GpuDetail)
    → (any_gpu test gpus ≡ true) ↔ Any (λ g. test g ≡ true) gpus
unfolding any_gpu
any_gpu-Any test [] = ground arith
any_gpu-Any test (g ∷ gpus) = ground (arith, any_gpu-Any test gpus)

gpu_vram_case :
    (v : ℕ) (gpus : List GpuDetail)
    → (any_gpu (λ g. leb v g.vram) gpus ≡ true) ↔ Any (λ (g : GpuDetail). v ≤ g.vram) gpus
unfolding any_gpu
gpu_vram_case v [] = ground arith
gpu_vram_case v (g ∷ gpus) = ground (arith, gpu_vram_case v gpus)

all_healthy-All :
    (gpus : List GpuDetail)
    → (all_healthy gpus ≡ true) ↔ All (λ (g : GpuDetail). g.is_healthy ≡ true) gpus
unfolding all_healthy
all_healthy-All [] = ground arith
all_healthy-All (g ∷ gpus) = ground (arith, all_healthy-All gpus)

text_filter-Wanted :
    (o : Option String) (test : String → Bool) (P : String → Type 0)
    → ((s : String) → (test s ≡ true) ↔ P s)
    → (text_filter o test ≡ true) ↔ Wanted o P
unfolding text_filter Wanted
text_filter-Wanted none test P h = ground arith
text_filter-Wanted (some s) test P h = ground (arith, eq_iff s "", h s)

vram_case :
    (o : Option ℕ) (gpus : List GpuDetail)
    → ((elim o [
      | none ↦ true
      | some v ↦ if ltb 0 v then any_gpu (λ g. leb v g.vram) gpus else true
    ])
        ≡ true)
      ↔ WantedVram o gpus
unfolding WantedVram
vram_case none gpus = ground arith
vram_case (some v) gpus = ground (arith, gpu_vram_case v gpus)

health_case :
    (o : Option Bool) (gpus : List GpuDetail)
    → ((elim o [ some true ↦ all_healthy gpus | _ ↦ true ]) ≡ true) ↔ WantedHealth o gpus
unfolding WantedHealth
health_case none gpus = ground arith
health_case (some true) gpus = all_healthy-All gpus
health_case (some false) gpus = ground arith

Any-filter :
    (test : Provider → Bool) (p : Provider)
    → test p ≡ true
    → (ps : List Provider) → Any (λ (r : Provider). r ≡ p) ps
    → Any (λ (r : Provider). r ≡ p) (filter test ps)
Any-filter test p h [] m = m
Any-filter test p h (r ∷ ps) m = elim (Bool-cases (test r)) [
  | inl e ↦ rw e (elim m [ inl f ↦ inl f | inr k ↦ inr (Any-filter test p h ps k) ])
  | inr e ↦ rw e (elim m [
    | inl f ↦ absurd (ground (arith, e, h, ap test f))
    | inr k ↦ Any-filter test p h ps k
  ])
]

lookup-Any :
    (id : String) (p : Provider) (s : Providers)
    → lookup id s ≡ some p
    → Any (λ (r : Provider). r ≡ p) (map (λ (entry : String × Provider). entry.1) s)
unfolding lookup
lookup-Any id p [] e = cc
lookup-Any id p (entry ∷ rest) e = ground (arith, e, lookup-Any id p rest)

module _ ⦃u : Unicode⦄ where
  -- passesFilters passes a provider exactly when it has what every filter that is given asks for.
  pub passes_filters-Passes : (p : Provider) (q : Query) → (passes_filters p q ≡ true) ↔ Passes p q
  unfolding passes_filters Passes
  passes_filters-Passes p q =
      let model =
        text_filter-Wanted q.gpu_model
          (λ s. any_gpu (λ g. contains (to_lower g.model_name) (to_lower s)) p.gpus)
          (λ s.
            Any (λ (g : GpuDetail). contains (to_lower g.model_name) (to_lower s) ≡ true) p.gpus)
          (λ s. any_gpu-Any (λ g. contains (to_lower g.model_name) (to_lower s)) p.gpus) in
      let architecture =
        text_filter-Wanted q.architecture
          (λ s. any_gpu (λ g. contains (to_lower g.architecture) (to_lower s)) p.gpus)
          (λ s.
            Any (λ (g : GpuDetail). contains (to_lower g.architecture) (to_lower s) ≡ true) p.gpus)
          (λ s. any_gpu-Any (λ g. contains (to_lower g.architecture) (to_lower s)) p.gpus) in
      let status =
        text_filter-Wanted q.status (λ s. text_eq (status_text p.status) s)
          (λ s. status_text p.status ≡ s) (λ s. eq_iff (status_text p.status) s) in
      ground (
        arith,
        model,
        architecture,
        status,
        health_case q.healthy_only p.gpus,
        vram_case q.min_vram p.gpus,
      )

  listed_pass : (q : Query) (s : Providers) → All (λ p. Passes p q) (list_providers q s)
  unfolding list_providers
  listed_pass q s =
      All-filter (λ p. Passes p q) (λ p. passes_filters p q)
        (λ p e. (passes_filters-Passes p q).0 e) (map (λ entry. entry.1) s)

  passing_listed :
      (q : Query) (s : Providers) (id : String) (p : Provider)
      → lookup id s ≡ some p
      → passes_filters p q ≡ true
      → Any (λ (r : Provider). r ≡ p) (list_providers q s)
  unfolding list_providers
  passing_listed q s id p e h =
      Any-filter (λ r. passes_filters r q) p h (map (λ entry. entry.1) s) (lookup-Any id p s e)

  -- ListProviders lists providers that pass, and every stored provider that passes.
  pub list_providers-Passes :
      (q : Query) (s : Providers)
      → All (λ p. Passes p q) (list_providers q s)
        × ((id : String) (p : Provider)
            → lookup id s ≡ some p
            → Passes p q
            → Any (λ (r : Provider). r ≡ p) (list_providers q s))
  list_providers-Passes q s =
      (listed_pass q s, λ id p e h. passing_listed q s id p e ((passes_filters-Passes p q).1 h))
