-- ===== src/Registry/Tests.antt =====
-- The registry on concrete providers.
use dantegpu_core.Prelude.{
  List, String, [], ◌∷◌, none, some, true, false, ◌≡◌, ◌↔◌, refl, Unicode, ascii, All, Any, arith,
  pos, leb, if◌then◌else◌, ◌*◌, ◌/◌, ◌≤◌,
}
use dantegpu_core.Registry.Models.{ProviderStatus, GpuDetail, Provider}
use dantegpu_core.Registry.Store.{
  Providers, Query, passes_filters, list_providers, update_gpus, lookup,
}
use dantegpu_core.Registry.Histories.{store_history, map_history, Agree, store_history-Agree}
use dantegpu_core.Registry.Refinement.{Request}
use dantegpu_core.Registry.Filters.{Passes, passes_filters-Passes, list_providers-Passes}
use dantegpu_core.Registry.Retries.{OperationError, RetryConfig, Verdict, Outside, with_retry}
use dantegpu_core.Registry.Retries.Traces.{IsRun, with_retry-IsRun}

instance abbrev tables : Unicode
tables = ascii

abbrev card : GpuDetail
card = record {
  model_name = "NVIDIA H100";
  vram = 81920;
  driver_version = "550";
  architecture = "Hopper";
  compute_capability = "9.0";
  cuda_cores = 16896;
  tensor_cores = 528;
  memory_bandwidth = 3350;
  power_consumption = 700;
  utilization_gpu = 0;
  utilization_mem = 0;
  temperature = 40;
  power_draw = 90;
  is_healthy = true;
}

abbrev rig : Provider
rig = record {
  id = "p1";
  owner_id = "o1";
  name = "rig";
  hostname = "h";
  ip_address = "10.0.0.1";
  status = ProviderStatus.offline;
  gpus = card ∷ card ∷ [];
  location = "eu";
  registered_at = 1;
  last_seen_at = 1;
  metadata = [];
}

abbrev query : Query
query = record {
  status = some "";
  min_vram = some 40000;
  gpu_model = some "h100";
  architecture = none;
  healthy_only = some true;
}

abbrev providers : Providers
providers = ("p1", rig) ∷ []

abbrev hot : GpuDetail
hot = record card { temperature = 80; power_draw = 650; is_healthy = false }

case_is_folded : passes_filters rig query ≡ true
unfolding passes_filters
case_is_folded = refl

second_card_kept :
    update_gpus (hot ∷ []) rig.gpus ≡ record hot { model_name = "NVIDIA H100" } ∷ card ∷ []
unfolding update_gpus
second_card_kept = refl

-- A provider is added twice, becomes busy, and is deleted twice.
abbrev history : List Request
history =
    Request.add rig
    ∷ Request.add rig
    ∷ Request.set_status 9 "p1" ProviderStatus.busy
    ∷ Request.delete "p1"
    ∷ Request.delete "p1"
    ∷ []

store_history-Agree_example :
    ((store_history history []).1 ≡ (map_history history (λ id. none)).1)
    × Agree (store_history history []).0 (map_history history (λ id. none)).0
store_history-Agree_example = store_history-Agree history

passes_filters-Passes_example : (passes_filters rig query ≡ true) ↔ Passes rig query
passes_filters-Passes_example = passes_filters-Passes rig query

list_providers-Passes_example :
    All (λ p. Passes p query) (list_providers query providers)
    × ((id : String) (p : Provider)
        → lookup id providers ≡ some p
        → Passes p query
        → Any (λ (r : Provider). r ≡ p) (list_providers query providers))
list_providers-Passes_example = list_providers-Passes query providers

abbrev reset : OperationError
reset = record { code = none; text = "Connection RESET by peer" }

abbrev flaky : Outside
flaky = record { call = λ n. if leb n 2 then some reset else none; done = λ n. false }

abbrev policy : RetryConfig
policy = record {
  max_attempts = pos 3;
  initial_delay = 100;
  max_delay = 150;
  backoff = λ n. n * 2;
  jitter = λ n a. n / 10;
}

third_call_succeeds :
    with_retry policy flaky
    ≡ record { verdict = Verdict.succeeded; calls = 3; delays = 100 ∷ 150 ∷ [] }
unfolding with_retry
third_call_succeeds = refl

with_retry-IsRun_example :
    IsRun flaky 1 3 (with_retry policy flaky) × All (λ n. n ≤ 150) (with_retry policy flaky).delays
with_retry-IsRun_example = with_retry-IsRun policy flaky 2 refl (omega arith)
