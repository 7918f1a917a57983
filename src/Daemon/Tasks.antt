-- ===== src/Daemon/Tasks.antt =====
-- clients/provider-daemon/internal/tasks/handler.go, internal/models. HandleTask stores the task and goes on in a
-- goroutine, as a list of actions of which one is done at a time; the goroutines interleave in any order. What the
-- file system and the executor answer is an argument of the task. Messages are kept as constructors with their
-- arguments, `activeJobs` as a list of keys and tasks.
use dantegpu_core.Prelude.{
  ℕ, zero, suc, ◌+◌, ℤ, is_zero, pos, negsuc, String, append, List, [], ◌∷◌, ◌++◌, map, Option,
  none, some, Bool, true, false, not, ◌&&◌, ◌||◌, if◌then◌else◌, text_eq, filter, length, Answer,
  ok, err, Json, Params, get_param,
}
pub mod Runs
pub mod Tracking
pub mod Settling

pub data ExecutionType : Type 0 where
  script docker : ExecutionType
  other : String → ExecutionType

pub data JobStatus : Type 0 where
  preparing in_progress completed failed cancelled timeout : JobStatus

pub record Task : Type 0 where
  pub job_id : String
  pub user_id : String
  pub job_name : String
  pub job_params : Params
  pub execution_type : ExecutionType
  pub dispatched_at : ℕ

pub data Message : Type 0 where
  provider_offline task_received execution_started task_completed : Message
  workspace_failed : String → Message
  -- the error and stderr
  execution_failed : String → String → Message
  exit_code_failed : ℤ → String → Message

pub record TaskStatusUpdate : Type 0 where
  pub job_id : String
  pub provider_id : String
  pub status : JobStatus
  pub message : Message
  pub timestamp : ℕ
  pub exit_code : Option ℤ
  -- stdout and stderr, none for the empty log
  pub execution_log : Option (String × String)

pub record ExecutionResult : Type 0 where
  pub stdout : String
  pub stderr : String
  pub exit_code : ℤ
  pub error : Option String

pub data StopReason : Type 0 where
  job_finished job_failed : StopReason

-- What a goroutine does next.
pub data Action : Type 0 where
  report : JobStatus → Message → Option ℤ → Option (String × String) → Action
  stop_billing : String → StopReason → Action
  remove_workspace : String → Action

-- The configuration and the collaborators of a `Handler`: whether each is set. `parse_uuid` is `uuid.Parse`.
pub record Setup : Type 0 where
  pub instance_id : String
  pub executor_type : String
  pub has_reporter : Bool
  pub has_billing_client : Bool
  pub has_script_executor : Bool
  pub has_docker_executor : Bool
  pub parse_uuid : String → Option String

-- What a task meets: the health checker where one is set, the path of its workspace, and the result of the
-- executor.
pub record Run : Type 0 where
  pub healthy : Option Bool
  pub workspace : Answer String
  pub executed : ExecutionResult

-- `IsTerminal` as reportTaskStatus tests it.
unfoldable pub is_terminal : JobStatus → Bool
is_terminal JobStatus.failed = true
is_terminal JobStatus.completed = true
is_terminal JobStatus.cancelled = true
is_terminal _ = false

unfoldable pub unavailable : String → String → ExecutionResult
unavailable error stderr = record {
  stdout = "";
  stderr = stderr;
  exit_code = negsuc 0;
  error = some error;
}

-- The switch on the execution type.
unfoldable pub result_of : Setup → Run → ExecutionType → ExecutionResult
unfolding unavailable
result_of c r ExecutionType.script =
    if c.has_script_executor
    then r.executed
    else unavailable "ScriptExecutor not available"
        "ScriptExecutor not initialized on this provider daemon."
result_of c r ExecutionType.docker =
    if c.has_docker_executor
    then r.executed
    else unavailable "DockerExecutor not available"
        "DockerExecutor not initialized on this provider daemon, or failed to initialize."
result_of c r (ExecutionType.other name) =
    unavailable (append "unknown execution type: " name)
      (append "Task specified an unsupported execution type: " name)

-- `finalStatus`, `finalMessage` and `executionLog`
unfoldable pub final_report : ExecutionResult → JobStatus × (Message × Option (String × String))
final_report x = elim x.error [
  | some e ↦ (JobStatus.failed, (Message.execution_failed e x.stderr, some (x.stdout, x.stderr)))
  | none ↦ if is_zero x.exit_code then (JobStatus.completed, (Message.task_completed, none)) else (
    JobStatus.failed,
    (Message.exit_code_failed x.exit_code x.stderr, some (x.stdout, x.stderr)),
  )
]

unfoldable pub stop_reason : JobStatus → StopReason
stop_reason JobStatus.failed = StopReason.job_failed
stop_reason _ = StopReason.job_finished

-- The session of the task: its parameter, where it is a text that parses.
unfoldable pub session_of : Setup → Task → Option String
session_of c t = elim (get_param t.job_params "session_id") [
  | some (Json.str s) ↦ if text_eq s "" then none else c.parse_uuid s
  | _ ↦ none
]

-- `endBillingSession`
unfoldable pub end_billing_session : Setup → Task → JobStatus → List Action
unfolding session_of stop_reason
end_billing_session c t final = if not c.has_billing_client then [] else elim (session_of c t) [
  | none ↦ []
  | some id ↦ Action.stop_billing id (stop_reason final) ∷ []
]

-- `cleanupWorkspace`
unfoldable pub cleanup_workspace : Setup → String → List Action
cleanup_workspace c path =
    if text_eq c.executor_type "docker" then [] else Action.remove_workspace path ∷ []

-- `runTask`
unfoldable pub run_task : Setup → Run → Task → List Action
unfolding result_of final_report end_billing_session cleanup_workspace
run_task c r t = elim r.workspace [
  | err e ↦ Action.report JobStatus.failed (Message.workspace_failed e) none none ∷ []
  | ok path ↦
      let x = result_of c r t.execution_type in
      let final = final_report x in
      Action.report JobStatus.in_progress Message.execution_started none none
      ∷ Action.report final.0 final.1.0 (some x.exit_code) final.1.1
      ∷ (end_billing_session c t final.0 ++ cleanup_workspace c path)
]

pub record Goroutine : Type 0 where
  pub task : Task
  pub actions : List Action

-- `Handler`, with its goroutines and what it has asked of the others, the latest first.
pub record Handler : Type 0 where
  pub active_jobs : List (String × Task)
  pub running : List Goroutine
  pub published : List TaskStatusUpdate
  pub stopped : List (String × StopReason)
  pub removed : List String

unfoldable pub new_handler : Handler
new_handler = record { active_jobs = []; running = []; published = []; stopped = []; removed = [] }

-- `activeJobs.Delete`
unfoldable pub forget : String → List (String × Task) → List (String × Task)
forget id jobs = filter (λ entry. not (text_eq entry.0 id)) jobs

-- `reportTaskStatus`; without a reporter it does nothing.
unfoldable pub report_task_status :
    Setup
    → ℕ
    → String
    → JobStatus
    → Message
    → Option ℤ
    → Option (String × String)
    → Handler
    → Handler
unfolding forget is_terminal
report_task_status c now id status message exit_code log h =
    if not c.has_reporter then h else record h {
      active_jobs = if is_terminal status then forget id h.active_jobs else h.active_jobs;
      published =
          record {
            job_id = id;
            provider_id = c.instance_id;
            status = status;
            message = message;
            timestamp = now;
            exit_code = exit_code;
            execution_log = log;
          }
          ∷ h.published;
    }

-- One action of a goroutine for a task.
unfoldable pub perform : Setup → ℕ → Task → Action → Handler → Handler
unfolding report_task_status
perform c now t (Action.report status message exit_code log) h =
    report_task_status c now t.job_id status message exit_code log h
perform c now t (Action.stop_billing id reason) h = record h { stopped = (id, reason) ∷ h.stopped }
perform c now t (Action.remove_workspace path) h = record h { removed = path ∷ h.removed }

-- The health gate of `HandleTask`.
unfoldable pub is_offline : Run → Bool
is_offline r = elim r.healthy [ none ↦ false | some b ↦ not b ]

unfoldable pub spawn : Task → List Action → Handler → Handler
spawn t actions h = record h { running = record { task = t; actions = actions } ∷ h.running }

-- `HandleTask`: the error it answers is none where the task is accepted.
unfoldable pub handle_task : Setup → Run → Task → Handler → Handler × Option String
unfolding is_offline spawn forget run_task
handle_task c r t h =
    if is_offline r
    then (
      spawn t (Action.report JobStatus.failed Message.provider_offline none none ∷ []) h,
      some (append (append "provider offline, task " t.job_id) " rejected"),
    )
    else (
      spawn t (Action.report JobStatus.preparing Message.task_received none none ∷ run_task c r t)
          (record h { active_jobs = (t.job_id, t) ∷ forget t.job_id h.active_jobs }),
      none,
    )

-- An action that is taken, with the goroutines after it.
abbrev pub Taken : Type 0
Taken = (Task × Action) × List Goroutine

unfoldable pub next_of : Task → List Action → List Goroutine → Option Taken
next_of t [] later = none
next_of t (a ∷ rest) later = some ((t, a), record { task = t; actions = rest } ∷ later)

unfoldable pub kept : Goroutine → Option Taken → Option Taken
kept g none = none
kept g (some (next, later)) = some (next, g ∷ later)

-- The i-th goroutine's next action, with the goroutines after it.
unfoldable pub take_action : ℕ → List Goroutine → Option Taken
unfolding kept next_of
take_action i [] = none
take_action zero (g ∷ gs) = next_of g.task g.actions gs
take_action (suc i) (g ∷ gs) = kept g (take_action i gs)

unfoldable pub act : Setup → ℕ → Handler → Option Taken → Handler
unfolding perform
act c now h none = h
act c now h (some ((t, a), later)) = perform c now t a (record h { running = later })

-- The i-th goroutine goes on by one action, where it has one.
unfoldable pub advance : Setup → ℕ → ℕ → Handler → Handler
unfolding take_action act
advance c now i h = act c now h (take_action i h.running)

pub record CliLocalJob : Type 0 where
  pub id : String
  pub name : String
  pub status : String
  pub progress_percent : ℕ
  -- `DispatchedAt`, before it is formatted
  pub submitted_at : ℕ

-- `GetActiveJobsForCLI`, in the order of the list
unfoldable pub get_active_jobs_for_cli : Handler → List CliLocalJob
get_active_jobs_for_cli h =
    map
      (λ entry. record {
        id = entry.0;
        name = entry.1.job_name;
        status = "Processing/Unknown";
        progress_percent = 0;
        submitted_at = entry.1.dispatched_at;
      })
      h.active_jobs
