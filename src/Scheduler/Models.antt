-- ===== src/Scheduler/Models.antt =====
-- The data of services/scheduler-orchestrator-service: internal/models/{job,task,job_record}.go and
-- the provider types of internal/clients/provider_registry.go. A `time.Time` is a count of
-- microseconds (what the database keeps), 0 being the zero time; a UUID is its text; a Go `int` is an integer,
use dantegpu_core.Prelude.{
  ℕ, String, List, ℤ, is_zero, Params, ◌==◌, text_eq, if◌then◌else◌, not, ◌&&◌,
}

-- `ProviderStatus`
pub data ProviderStatus : Type 0 where
  idle busy offline maintenance error : ProviderStatus

-- `GPUDetail`
pub record GpuDetail : Type 0 where
  pub model_name : String
  pub vram : ℕ  -- uint64, in MB
  pub driver_version : String
  pub power_consumption : ℕ  -- uint32, in watts; 0 when it was not reported

-- `Provider`
pub record Provider : Type 0 where
  pub id : String
  pub owner_id : String
  pub name : String
  pub hostname : String
  pub ip_address : String
  pub status : ProviderStatus
  pub gpus : List GpuDetail
  pub location : String
  pub registered_at : ℕ
  pub last_seen_at : ℕ
  pub metadata : Params

-- `Job`
pub record Job : Type 0 where
  pub id : String
  pub user_id : String
  pub type : String
  pub name : String
  pub description : String
  pub priority : ℤ
  pub submitted_at : ℕ
  pub gpu_type : String
  pub gpu_count : ℤ
  pub min_vram_mb : ℕ  -- uint64
  pub min_power_w : ℕ  -- uint64
  pub params : Params
  pub tags : List String

-- `SchedulerJobState`
pub data JobState : Type 0 where
  pending searching assigning dispatched running completed failed cancelled : JobState

-- `InternalJobRepresentation`
pub record InternalJob : Type 0 where
  pub job_details : Job
  pub state : JobState
  pub provider_id : String
  pub attempts : ℕ
  pub last_error : String
  pub received_at : ℕ
  pub updated_at : ℕ

unfoldable pub new_internal_job : Job → ℕ → InternalJob
new_internal_job job now = record {
  job_details = job;
  state = JobState.pending;
  provider_id = "";
  attempts = 0;
  last_error = "";
  received_at = now;
  updated_at = now;
}

-- `Task`
pub record Task : Type 0 where
  pub job_id : String
  pub user_id : String
  pub job_type : String
  pub job_name : String
  pub job_params : Params
  pub gpu_type_needed : String
  pub gpu_count_needed : ℤ
  pub assigned_provider_id : String
  pub dispatched_at : ℕ

unfoldable pub new_task : Job → String → ℕ → Task
new_task job assigned_provider_id now = record {
  job_id = job.id;
  user_id = job.user_id;
  job_type = job.type;
  job_name = job.name;
  job_params = job.params;
  gpu_type_needed = job.gpu_type;
  gpu_count_needed = job.gpu_count;
  assigned_provider_id = assigned_provider_id;
  dispatched_at = now;
}

-- `JobRecord`
pub record JobRecord : Type 0 where
  pub job_id : String
  pub user_id : String
  pub job_details : Job
  pub state : JobState
  pub provider_id : String
  pub attempts : ℕ
  pub last_error : String
  pub received_at : ℕ
  pub updated_at : ℕ
  pub submitted_at : ℕ
  pub job_name : String
  pub job_type : String
  pub gpu_type : String
  pub priority : ℤ

-- `JobRecord.ToInternalJobRepresentation`: the fields that the JSON details lack come from the
-- columns.
unfoldable pub to_internal_job : JobRecord → InternalJob
to_internal_job r =
    let d = r.job_details in
    record {
      job_details = record d {
        id = r.job_id;
        user_id = r.user_id;
        name = if text_eq d.name "" then r.job_name else d.name;
        type = if text_eq d.type "" then r.job_type else d.type;
        gpu_type =
            if text_eq d.gpu_type "" && not (text_eq r.gpu_type "") then r.gpu_type else d.gpu_type;
        priority =
            if is_zero d.priority && not (is_zero r.priority) then r.priority else d.priority;
        submitted_at =
            if d.submitted_at == 0 && not (r.submitted_at == 0)
            then r.submitted_at
            else d.submitted_at;
      };
      state = r.state;
      provider_id = r.provider_id;
      attempts = r.attempts;
      last_error = r.last_error;
      received_at = r.received_at;
      updated_at = r.updated_at;
    }

-- `FromInternalJobRepresentation`
unfoldable pub from_internal_job : InternalJob → JobRecord
from_internal_job j = record {
  job_id = j.job_details.id;
  user_id = j.job_details.user_id;
  job_details = j.job_details;
  state = j.state;
  provider_id = j.provider_id;
  attempts = j.attempts;
  last_error = j.last_error;
  received_at = j.received_at;
  updated_at = j.updated_at;
  submitted_at = j.job_details.submitted_at;
  job_name = j.job_details.name;
  job_type = j.job_details.type;
  gpu_type = j.job_details.gpu_type;
  priority = j.job_details.priority;
}
