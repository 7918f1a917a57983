-- ===== src/Registry/Models.antt =====
-- services/provider-registry-service/internal/models/provider.go and errors.go. UUIDs are texts, `now` is
-- what `time.Now` answers.
use dantegpu_core.Prelude.{ℕ, String, List, Bool, Params}

-- `ProviderStatus`
pub data ProviderStatus : Type 0 where
  idle busy offline maintenance error : ProviderStatus

unfoldable pub status_text : ProviderStatus → String
status_text ProviderStatus.idle = "idle"
status_text ProviderStatus.busy = "busy"
status_text ProviderStatus.offline = "offline"
status_text ProviderStatus.maintenance = "maintenance"
status_text ProviderStatus.error = "error"

-- `GPUDetail`
pub record GpuDetail : Type 0 where
  pub model_name : String
  pub vram : ℕ  -- uint64, in MB
  pub driver_version : String
  pub architecture : String
  pub compute_capability : String
  pub cuda_cores : ℕ  -- uint32
  pub tensor_cores : ℕ  -- uint32
  pub memory_bandwidth : ℕ  -- uint64
  pub power_consumption : ℕ  -- uint32
  pub utilization_gpu : ℕ  -- uint8
  pub utilization_mem : ℕ  -- uint8
  pub temperature : ℕ  -- uint8
  pub power_draw : ℕ  -- uint32
  pub is_healthy : Bool

-- `Provider`
pub record Provider : Type 0 where
  pub id : String
  pub owner_id : String
  pub name : String
  pub hostname : String
  pub ip_address : String
  pub status : ProviderStatus
  pub gpus : List GpuDetail
  pub location : String
  pub registered_at : ℕ
  pub last_seen_at : ℕ
  pub metadata : Params

-- `NewProvider`; the first argument is the UUID drawn
unfoldable pub new_provider :
    String → ℕ → String → String → String → String → String → List GpuDetail → Params → Provider
new_provider id now owner_id name hostname ip_address location gpus metadata = record {
  id = id;
  owner_id = owner_id;
  name = name;
  hostname = hostname;
  ip_address = ip_address;
  status = ProviderStatus.idle;
  gpus = gpus;
  location = location;
  registered_at = now;
  last_seen_at = now;
  metadata = metadata;
}

-- `UpdateStatus`
unfoldable pub update_status : ℕ → ProviderStatus → Provider → Provider
update_status now status p = record p { status = status; last_seen_at = now }

-- The status after a heartbeat.
unfoldable pub revived : ProviderStatus → ProviderStatus
revived ProviderStatus.offline = ProviderStatus.idle
revived ProviderStatus.error = ProviderStatus.idle
revived status = status

-- `Heartbeat`
unfoldable pub heartbeat : ℕ → Provider → Provider
unfolding revived
heartbeat now p = record p { status = revived p.status; last_seen_at = now }

-- The errors of the store.
pub data StoreError : Type 0 where
  provider_not_found provider_already_exists : StoreError
