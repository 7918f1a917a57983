-- ===== src/Registry/Heartbeats.antt =====
-- What a heartbeat does to a provider.
use dantegpu_core.Prelude.{ℕ, List, none, some, ◌≡◌, ◌≢◌, length, get_elem?}
use dantegpu_core.Registry.Models.{ProviderStatus, GpuDetail, Provider}
use dantegpu_core.Registry.Store.{set_metrics}

-- The i-th GPU has the i-th readings, and is as before where there are none.
unfoldable pub Measured : List GpuDetail → List GpuDetail → List GpuDetail → Type 0
Measured metrics gpus gpus' =
    (i : ℕ) (g : GpuDetail)
    → get_elem? gpus i ≡ some g
    → (get_elem? metrics i ≡ none → get_elem? gpus' i ≡ some g)
      × ((m : GpuDetail)
          → get_elem? metrics i ≡ some m
          → get_elem? gpus' i ≡ some (set_metrics m g))

-- What a heartbeat leaves of a provider.
unfoldable pub IsBeat : ℕ → List GpuDetail → Provider → Provider → Type 0
IsBeat now metrics p p' =
    (p'.id ≡ p.id)
    × ((p'.last_seen_at ≡ now)
        × ((p.status ≡ ProviderStatus.offline → p'.status ≡ ProviderStatus.idle)
            × ((p.status ≡ ProviderStatus.error → p'.status ≡ ProviderStatus.idle)
                × ((p.status ≢ ProviderStatus.offline
                      → p.status ≢ ProviderStatus.error
                      → p'.status ≡ p.status)
                    × ((length p'.gpus ≡ length p.gpus) × Measured metrics p.gpus p'.gpus)))))
