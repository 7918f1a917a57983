-- ===== src/Scheduler/Consumer.antt =====
-- services/scheduler-orchestrator-service/internal/scheduler/consumer.go: `scheduleJob` and
-- `handleMessage`, with the calls of internal/billing/integration.go that they make. What the
-- registry, the billing service, NATS and the database answer during one delivery is an `Env`; what is
-- done to them is a list of effects. Logging is left out. `task.JobParams` may share its map with the
-- job's details; nothing reads those after the write.
pub mod Outcomes
pub mod Deliveries
pub mod Attempts
pub mod Leak
use dantegpu_core.Prelude.{
  ℕ, ◌+◌, String, append, List, [], ◌∷◌, ◌++◌, Option, none, some, Bool, true, false, not, ◌||◌,
  ltb, if◌then◌else◌, text_eq, Unicode, Json, put_param, Answer,
}
use dantegpu_core.Scheduler.Models.{
  GpuDetail, Provider, Job, JobState, InternalJob, Task, new_internal_job, new_task,
  to_internal_job, from_internal_job,
}
use dantegpu_core.Scheduler.Matching.{
  find_provider_gpu_type, estimate_power_from_model, select_billing_gpu, find_suitable,
}
use dantegpu_core.Scheduler.Store.{Table, Fetched, get_job, save_job, update_job_state}

-- `billing.SessionStartRequest`; the optional limits are never set here.
pub record SessionStartRequest : Type 0 where
  pub user_id : String
  pub provider_id : String
  pub job_id : String
  pub gpu_model : String
  pub requested_vram : ℕ
  pub estimated_power_w : ℕ

-- What the outside answers while one message is handled.
pub record Env : Type 0 where
  pub now : ℕ
  pub subject_prefix : String
  pub providers : Answer (List Provider)
  -- `StartSession`, when there is a billing client: the session's id, or an error
  pub start_session : Option (SessionStartRequest → Answer String)
  pub marshal_error : Task → Option String
  pub publish_error : String → Task → Option String
  pub nak_fails : Bool
  pub get_fault : Option String
  pub save_fault : Option String
  pub update_fault : Option String

-- What is done to the other services.
pub data Effect : Type 0 where
  opened_session : SessionStartRequest → String → Effect
  published : String → Task → Effect

-- What `scheduleJob` leaves: the job as it mutated it, its two results, and its effects.
pub record Outcome : Type 0 where
  pub job : InternalJob
  pub scheduled : Bool
  pub error : Option String
  pub effects : List Effect

-- `CheckUserBalance`, a placeholder: whether the user has the balance.
unfoldable pub check_user_balance : String → Bool
check_user_balance user_id = true

-- `ValidateJobRequirements`
unfoldable pub validate_job_requirements : String → String → ℕ → ℕ → Option String
unfolding check_user_balance
validate_job_requirements user_id gpu_model vram_mb estimated_power_w =
    if not (check_user_balance user_id)
    then some "insufficient balance: required 1, available 100"
    else none

abbrev pub failing : InternalJob → JobState → String → String → List Effect → Outcome
failing j state last_error error effects = record {
  job = record j { state = state; last_error = last_error };
  scheduled = false;
  error = some error;
  effects = effects;
}

-- The task of a job, with the session's id in its parameters when there is one.
unfoldable pub task_for : Env → Job → Provider → String → Task
unfolding new_task
task_for env job p session_id =
    let task = new_task job p.id env.now in
    if not (text_eq session_id "")
    then record task { job_params = put_param "session_id" (Json.str session_id) task.job_params }
    else task

-- `dispatchSubject`
unfoldable pub dispatch_subject : Env → Job → Provider → String
dispatch_subject env job p =
    append (append (append (append env.subject_prefix ".") p.id) ".") job.id

-- The dispatch of the task, from `NewTask` to the end of `scheduleJob`.
unfoldable pub dispatch : Env → InternalJob → Provider → String → List Effect → Outcome
unfolding task_for dispatch_subject
dispatch env j p session_id effects =
    let task = task_for env j.job_details p session_id in
    let subject = dispatch_subject env j.job_details p in
    elim (env.marshal_error task) [
      | some e ↦
          failing j JobState.failed (append "Failed to prepare task data: " e)
            (append "task marshalling failed: " e) effects
      | none ↦ elim (env.publish_error subject task) [
        | some e ↦
            failing j JobState.pending (append "Failed to dispatch task to NATS: " e)
              (append "NATS publish failed for task: " e) effects
        | none ↦ record {
          job = record j {
            state = JobState.dispatched;
            provider_id = p.id;
            attempts = j.attempts + 1;
            last_error = "";
          };
          scheduled = true;
          error = none;
          effects = effects ++ published subject task ∷ [];
        }
      ]
    ]

module _ ⦃u : Unicode⦄ where
  -- The GPU model, the VRAM and the power that a session is opened for.
  unfoldable pub billing_terms : Provider → ℕ → ℕ → String × ℕ × ℕ
  billing_terms p min_vram min_power = elim (select_billing_gpu p min_vram min_power) [
    | none ↦ (find_provider_gpu_type p, 8192, 250)
    | some g ↦ (
      if not (text_eq g.model_name "") then g.model_name else find_provider_gpu_type p,
      if ltb 0 g.vram then g.vram else 8192,
      if ltb 0 g.power_consumption
          then g.power_consumption
          else estimate_power_from_model g.model_name,
    )
  ]

  unfoldable pub session_request : Job → Provider → SessionStartRequest
  unfolding billing_terms
  session_request job p =
      let (model, vram, power) = billing_terms p job.min_vram_mb job.min_power_w in
      record {
        user_id = job.user_id;
        provider_id = p.id;
        job_id = job.id;
        gpu_model = model;
        requested_vram = vram;
        estimated_power_w = power;
      }

  -- `scheduleJob` from the provider that was found.
  unfoldable pub bill_and_dispatch : Env → InternalJob → Provider → Outcome
  unfolding dispatch session_request validate_job_requirements
  bill_and_dispatch env j p = elim env.start_session [
    | none ↦ dispatch env j p "" []
    | some start ↦
        let req = session_request j.job_details p in
        elim (validate_job_requirements req.user_id req.gpu_model req.requested_vram
          req.estimated_power_w) [
            | some e ↦
                failing j JobState.failed (append "Billing validation failed: " e)
                  (append "billing validation failed: " e) []
            | none ↦ elim (start req) [
              | Answer.err e ↦
                  failing j JobState.failed (append "Failed to start billing session: " e)
                    (append "billing session start failed: " e) []
              | Answer.ok id ↦ dispatch env j p id (opened_session req id ∷ [])
            ]
          ]
  ]

  -- `scheduleJob`
  unfoldable pub schedule_job : Env → InternalJob → Outcome
  unfolding bill_and_dispatch
  schedule_job env j = elim env.providers [
    | Answer.err e ↦
        failing j j.state (append "provider registry query failed: " e)
          (append "provider registry query failed: " e) []
    | Answer.ok providers ↦ elim (find_suitable j.job_details providers) [
      | none ↦ record {
        job = record j { state = JobState.pending; last_error = "No suitable provider found" };
        scheduled = false;
        error = none;
        effects = [];
      }
      | some p ↦ bill_and_dispatch env (record j { state = JobState.searching }) p
    ]
  ]

-- What is done to the message. `nak` has its delay in seconds.
pub data MsgOp : Type 0 where
  ack ack_sync : MsgOp
  nak : ℕ → MsgOp

-- `NakWithDelay`, and `Ack` where that fails.
abbrev pub nak_or_ack : Env → ℕ → List MsgOp
nak_or_ack env delay = if env.nak_fails then nak delay ∷ ack ∷ [] else nak delay ∷ []

-- What `handleMessage` leaves.
pub record Handled : Type 0 where
  pub table : Table
  pub ops : List MsgOp
  pub effects : List Effect

abbrev pub is_terminal : JobState → Bool
is_terminal JobState.completed = true
is_terminal JobState.cancelled = true
is_terminal _ = false

abbrev pub is_error : Option String → Bool
is_error none = false
is_error (some _) = true

-- `currentAttempts`
abbrev pub attempts_after : Outcome → ℕ
attempts_after o =
    if not o.scheduled || is_error o.error then o.job.attempts + 1 else o.job.attempts

-- `finalLastError`
abbrev pub final_last_error : Option String → String
final_last_error none = ""
final_last_error (some e) = e

abbrev pub message_ops : Env → Outcome → List MsgOp
message_ops env o = elim o.error [
  | some e ↦ nak_or_ack env 30
  | none ↦ if not o.scheduled then nak_or_ack env 60 else ack_sync ∷ []
]

module _ ⦃u : Unicode⦄ where
  -- `handleMessage` from the call of `scheduleJob` on.
  unfoldable pub process : Env → InternalJob → Table → Handled
  process env j t =
      let o = schedule_job env j in
      let (failure, t') =
        update_job_state env.update_fault env.now o.job.job_details.id o.job.state o.job.provider_id
          (final_last_error o.error) (attempts_after o) t in
      record { table = t'; ops = message_ops env o; effects = o.effects }

  -- `handleMessage` after the new job was to be saved.
  unfoldable pub handle_saved : Env → InternalJob → Option String × Table → Handled
  unfolding process
  handle_saved env j (some e, t) = record { table = t; ops = nak_or_ack env 10; effects = [] }
  handle_saved env j (none, t) = process env j t

  -- The branch of `handleMessage` for a job that the store does not have.
  unfoldable pub handle_new : Env → Job → Table → Handled
  unfolding handle_saved
  handle_new env job t =
      let j = new_internal_job job env.now in
      handle_saved env j (save_job env.save_fault env.now (from_internal_job j) t)

  -- `handleMessage` after the job was looked up. After a failed lookup it goes on as for a new job.
  unfoldable pub handle_fetched : Env → Job → Table → Fetched → Handled
  unfolding handle_new
  handle_fetched env job t (Fetched.failed e) = handle_new env job t
  handle_fetched env job t Fetched.absent = handle_new env job t
  handle_fetched env job t (Fetched.found r) =
      let j = to_internal_job r in
      if is_terminal j.state
      then record { table = t; ops = ack ∷ []; effects = [] }
      else process env j t

  -- `handleMessage`; the message is `none` when it is no job.
  unfoldable pub handle_message : Env → Option Job → Table → Handled
  unfolding handle_fetched
  handle_message env none t = record { table = t; ops = ack ∷ []; effects = [] }
  handle_message env (some job) t = handle_fetched env job t (get_job env.get_fault job.id t)
