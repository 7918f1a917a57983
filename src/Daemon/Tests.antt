-- ===== src/Daemon/Tests.antt =====
-- Runs of the health monitor and of the task handler at concrete inputs.
use dantegpu_core.Prelude.{
  ℕ, pos, negsuc, List, [], ◌∷◌, ◌++◌, none, some, true, false, not, ◌≡◌, refl, Answer, ok, err,
  Json, leb, length, arith,
}
use dantegpu_core.Daemon.Health.{
  new_health_monitor, start, failures, threshold_of, fails, start-healthy, start-reacts,
}
use dantegpu_core.Daemon.Tasks.{
  ExecutionType, Task, ExecutionResult, StopReason, Setup, Run, Handler, new_handler, handle_task,
  advance, run_task,
}
use dantegpu_core.Daemon.Tasks.Runs.{stops, IsOutcome, run_task-IsOutcome}
use dantegpu_core.Daemon.Tasks.Tracking.{
  is_active, IsTracked, Step, Reachable, left, Reachable-IsTracked,
}
use dantegpu_core.Daemon.Tasks.Settling.{runs, settles}

-- Two failures, a success, and two failures more.
abbrev checks : List (ℕ × Answer (List ℕ))
checks = (1, err "no driver") ∷ (2, ok []) ∷ (3, ok (7 ∷ [])) ∷ (4, err "timeout") ∷ (5, ok []) ∷ []

abbrev third_failure : List (ℕ × Answer (List ℕ))
third_failure = (6, ok []) ∷ (7, ok []) ∷ (8, err "no driver") ∷ []

start-healthy_example :
    (start checks (new_health_monitor (pos 0) (negsuc 4))).healthy
    ≡ not (leb (threshold_of (negsuc 4)) (failures 0 checks))
unfolding threshold_of
start-healthy_example = start-healthy (pos 0) (negsuc 4) checks (omega arith)

start-reacts_example :
    ((start (checks ++ (9, ok (7 ∷ [])) ∷ []) (new_health_monitor (pos 0) (pos 3))).healthy ≡ true)
    × ((start (checks ++ third_failure) (new_health_monitor (pos 0) (pos 3))).healthy ≡ false)
unfolding threshold_of fails
start-reacts_example =
    start-reacts (pos 0) (pos 3) checks third_failure 9 7 [] (omega arith)
      (refl, (refl, (refl, tt))) (omega arith)

two_failures_stay_online : (start checks (new_health_monitor (pos 0) (pos 0))).healthy ≡ true
unfolding start new_health_monitor
two_failures_stay_online = refl

abbrev setup : Setup
setup = record {
  instance_id = "provider-1";
  executor_type = "script";
  has_reporter = true;
  has_billing_client = true;
  has_script_executor = true;
  has_docker_executor = false;
  parse_uuid = some;
}

abbrev task : Task
task = record {
  job_id = "job-1";
  user_id = "user-1";
  job_name = "train";
  job_params = ("session_id", Json.str "session-1") ∷ [];
  execution_type = ExecutionType.script;
  dispatched_at = 0;
}

abbrev exit_code_two : ExecutionResult
exit_code_two = record { stdout = ""; stderr = "out of memory"; exit_code = pos 2; error = none }

abbrev run : Run
run = record { healthy = some true; workspace = ok "/work/job-1"; executed = exit_code_two }

run_task-IsOutcome_example : IsOutcome setup run task (run_task setup run task)
run_task-IsOutcome_example = run_task-IsOutcome setup run task

-- A failed script stops its session with that reason.
failure_stops_session : stops (run_task setup run task) ≡ ("session-1", StopReason.job_failed) ∷ []
unfolding stops run_task
failure_stops_session = refl

abbrev no_workspace : Run
no_workspace = record run { workspace = err "disk full" }

-- A task without a workspace leaves its session open.
unprepared_task_stops_nothing : stops (run_task setup no_workspace task) ≡ []
unfolding stops run_task
unprepared_task_stops_nothing = refl

abbrev received : Handler
received = (handle_task setup run task new_handler).0

-- The task came twice and has been reported as received once.
abbrev twice : Handler
twice = (handle_task setup run task (advance setup 5 0 received)).0

twice-Reachable : Reachable setup twice
twice-Reachable =
    Reachable.steps
      (Reachable.steps (Reachable.steps Reachable.starts (Step.receives run task))
        (Step.goes_on 5 0))
      (Step.receives run task)

Reachable-IsTracked_example : IsTracked twice
Reachable-IsTracked_example = Reachable-IsTracked setup twice refl twice-Reachable

settles_example :
    (order : List ℕ) × ((length order ≡ left twice.running)
      × ((left (runs setup 9 order twice).running ≡ 0)
          × ((runs setup 9 order twice).active_jobs ≡ [])))
settles_example = settles setup 9 twice refl twice-Reachable

-- Without a reporter the job stays active after its last action.
abbrev unreported : Setup
unreported = record setup { has_reporter = false }

stays_active :
    is_active "job-1"
      (runs unreported 9
        (0 ∷ 0 ∷ 0 ∷ 0 ∷ 0 ∷ [])
        (handle_task unreported run task new_handler).0).active_jobs
    ≡ true
unfolding runs handle_task is_active
stays_active = refl
