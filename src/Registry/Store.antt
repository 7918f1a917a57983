-- ===== src/Registry/Store.antt =====
-- services/provider-registry-service/internal/store/memory.go. The map is a list of keys and providers in the
-- order in which Go's iteration visits it. The lock makes each operation one step.
use dantegpu_core.Prelude.{
  ℕ, String, List, [], ◌∷◌, map, Option, none, some, Bool, true, false, not, ◌&&◌, if◌then◌else◌,
  ltb, leb, filter, text_eq, is_some, Unicode, to_lower, contains,
}
use dantegpu_core.Registry.Models.{
  ProviderStatus, status_text, GpuDetail, Provider, StoreError, update_status, heartbeat,
  provider_not_found, provider_already_exists,
}

abbrev pub Providers : Type 0
Providers = List (String × Provider)

-- `providers[id]`
unfoldable pub lookup : String → Providers → Option Provider
lookup id [] = none
lookup id (entry ∷ rest) = if text_eq entry.0 id then some entry.1 else lookup id rest

-- `providers[id] = provider`
unfoldable pub assign : String → Provider → Providers → Providers
assign id p [] = (id, p) ∷ []
assign id p (entry ∷ rest) =
    if text_eq entry.0 id then (entry.0, p) ∷ rest else entry ∷ assign id p rest

-- `delete(providers, id)`
unfoldable pub remove : String → Providers → Providers
remove id [] = []
remove id (entry ∷ rest) = if text_eq entry.0 id then rest else entry ∷ remove id rest

-- What an operation that changes the store comes to.
pub data Stored : Type 0 where
  stored : Providers → Stored
  refused : StoreError → Stored

-- `AddProvider`
unfoldable pub add_provider : Provider → Providers → Stored
unfolding lookup assign
add_provider p s =
    if is_some (lookup p.id s) then refused provider_already_exists else stored (assign p.id p s)

-- `GetProvider`
unfoldable pub get_provider : String → Providers → Option Provider
unfolding lookup
get_provider id s = lookup id s

-- `UpdateProvider`
unfoldable pub update_provider : String → Provider → Providers → Stored
unfolding lookup assign
update_provider id updated s =
    if is_some (lookup id s)
    then stored (assign id (record updated { id = id }) s)
    else refused provider_not_found

-- `DeleteProvider`
unfoldable pub delete_provider : String → Providers → Stored
unfolding lookup remove
delete_provider id s =
    if is_some (lookup id s) then stored (remove id s) else refused provider_not_found

-- `UpdateProviderStatus`
unfoldable pub update_provider_status : ℕ → String → ProviderStatus → Providers → Stored
unfolding lookup assign
update_provider_status now id status s = elim (lookup id s) [
  | none ↦ refused provider_not_found
  | some p ↦ stored (assign id (update_status now status p) s)
]

-- The readings of a heartbeat go into a GPU.
unfoldable pub set_metrics : GpuDetail → GpuDetail → GpuDetail
set_metrics metrics gpu = record gpu {
  utilization_gpu = metrics.utilization_gpu;
  utilization_mem = metrics.utilization_mem;
  temperature = metrics.temperature;
  power_draw = metrics.power_draw;
  is_healthy = metrics.is_healthy;
}

-- `for i := 0; i < len(gpuMetrics) && i < len(provider.GPUs); i++`
unfoldable pub update_gpus : List GpuDetail → List GpuDetail → List GpuDetail
unfolding set_metrics
update_gpus [] gpus = gpus
update_gpus (m ∷ metrics) [] = []
update_gpus (m ∷ metrics) (g ∷ gpus) = set_metrics m g ∷ update_gpus metrics gpus

-- The provider after a heartbeat with readings.
unfoldable pub beat : ℕ → List GpuDetail → Provider → Provider
unfolding heartbeat update_gpus
beat now metrics p = let p' = heartbeat now p in record p' { gpus = update_gpus metrics p.gpus }

-- `UpdateProviderHeartbeat`
unfoldable pub update_provider_heartbeat : ℕ → String → List GpuDetail → Providers → Stored
unfolding lookup assign beat
update_provider_heartbeat now id metrics s = elim (lookup id s) [
  | none ↦ refused provider_not_found
  | some p ↦ stored (assign id (beat now metrics p) s)
]

-- The filters as the handler builds them: a missing filter, or one of another type, is none.
pub record Query : Type 0 where
  pub status : Option String
  pub min_vram : Option ℕ  -- uint64
  pub gpu_model : Option String
  pub architecture : Option String
  pub healthy_only : Option Bool

-- Some GPU passes the test.
unfoldable pub any_gpu : (GpuDetail → Bool) → List GpuDetail → Bool
any_gpu test [] = false
any_gpu test (g ∷ gpus) = if test g then true else any_gpu test gpus

unfoldable pub all_healthy : List GpuDetail → Bool
all_healthy [] = true
all_healthy (g ∷ gpus) = if not g.is_healthy then false else all_healthy gpus

-- A filter that is missing or empty passes.
unfoldable pub text_filter : Option String → (String → Bool) → Bool
text_filter none test = true
text_filter (some s) test = if text_eq s "" then true else test s

module _ ⦃u : Unicode⦄ where
  -- `passesFilters`
  unfoldable pub passes_filters : Provider → Query → Bool
  unfolding text_filter any_gpu all_healthy
  passes_filters p q =
      text_filter q.status (λ s. text_eq (status_text p.status) s)
      && (elim q.min_vram [
        | none ↦ true
        | some v ↦ if ltb 0 v then any_gpu (λ g. leb v g.vram) p.gpus else true
      ])
      && text_filter q.gpu_model
          (λ s. any_gpu (λ g. contains (to_lower g.model_name) (to_lower s)) p.gpus)
      && text_filter q.architecture
          (λ s. any_gpu (λ g. contains (to_lower g.architecture) (to_lower s)) p.gpus)
      && (elim q.healthy_only [ some true ↦ all_healthy p.gpus | _ ↦ true ])

  -- `ListProviders`
  unfoldable pub list_providers : Query → Providers → List Provider
  unfolding passes_filters
  list_providers q s = filter (λ p. passes_filters p q) (map (λ entry. entry.1) s)
