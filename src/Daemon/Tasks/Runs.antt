-- ===== src/Daemon/Tasks/Runs.antt =====
-- What one run of a task does, by what the file system and the executor answered.
use dantegpu_core.Prelude.{
  is_zero, String, List, [], ◌∷◌, ◌++◌, Option, none, some, Bool, true, false, ◌≡◌, refl, ◌⊎◌, inl,
  inr, Bool-cases, Option-cases, ok, err, Answer-cases, text_eq,
}
use mathlib.Core.Path.{subst, ap}
use dantegpu_core.Daemon.Tasks.{
  JobStatus, Task, ExecutionResult, StopReason, Action, Setup, Run, result_of, final_report,
  stop_reason, session_of, end_billing_session, cleanup_workspace, run_task,
}

-- The statuses that a list of actions reports, in their order.
unfoldable pub statuses : List Action → List JobStatus
statuses [] = []
statuses (Action.report status message exit_code log ∷ rest) = status ∷ statuses rest
statuses (Action.stop_billing id reason ∷ rest) = statuses rest
statuses (Action.remove_workspace path ∷ rest) = statuses rest

-- The sessions that it stops.
unfoldable pub stops : List Action → List (String × StopReason)
stops [] = []
stops (Action.report status message exit_code log ∷ rest) = stops rest
stops (Action.stop_billing id reason ∷ rest) = (id, reason) ∷ stops rest
stops (Action.remove_workspace path ∷ rest) = stops rest

-- The session of a task where the daemon can stop it.
unfoldable pub billed : Setup → Task → Option String
unfolding session_of
billed c t = elim c.has_billing_client [ true ↦ session_of c t | false ↦ none ]

unfoldable pub stopped_with : StopReason → Option String → List (String × StopReason)
stopped_with reason none = []
stopped_with reason (some id) = (id, reason) ∷ []

-- The executor neither failed nor ended with another exit code than zero.
unfoldable pub succeeded : ExecutionResult → Bool
succeeded x = elim x.error [ none ↦ is_zero x.exit_code | some e ↦ false ]

-- Reports and stops of a task that ended so.
unfoldable pub EndsWith : Setup → Task → JobStatus → StopReason → List Action → Type 0
EndsWith c t final reason actions =
    (statuses actions ≡ JobStatus.in_progress ∷ final ∷ [])
    × (stops actions ≡ stopped_with reason (billed c t))

-- The three ends of a task.
unfoldable pub IsOutcome : Setup → Run → Task → List Action → Type 0
IsOutcome c r t actions =
    ((e : String) × ((r.workspace ≡ err e)
        × ((statuses actions ≡ JobStatus.failed ∷ []) × (stops actions ≡ []))))
    ⊎ ((path : String) × ((r.workspace ≡ ok path)
          × (((succeeded (result_of c r t.execution_type) ≡ true)
                × EndsWith c t JobStatus.completed StopReason.job_finished actions)
              ⊎ ((succeeded (result_of c r t.execution_type) ≡ false)
                  × EndsWith c t JobStatus.failed StopReason.job_failed actions))))

clean-statuses : (c : Setup) (path : String) → statuses (cleanup_workspace c path) ≡ []
unfolding statuses cleanup_workspace
clean-statuses c path = elim (Bool-cases (text_eq c.executor_type "docker")) [
  | inl e ↦ rw (cleanup_workspace, e) refl
  | inr e ↦ rw (cleanup_workspace, e) refl
]

clean-stops : (c : Setup) (path : String) → stops (cleanup_workspace c path) ≡ []
unfolding stops cleanup_workspace
clean-stops c path = elim (Bool-cases (text_eq c.executor_type "docker")) [
  | inl e ↦ rw (cleanup_workspace, e) refl
  | inr e ↦ rw (cleanup_workspace, e) refl
]

-- The actions after the last report.
tail-stops :
    (c : Setup) (t : Task) (path : String) (final : JobStatus)
    → (stops (end_billing_session c t final ++ cleanup_workspace c path)
        ≡ stopped_with (stop_reason final) (billed c t))
      × (statuses (end_billing_session c t final ++ cleanup_workspace c path) ≡ [])
unfolding end_billing_session billed stopped_with stops statuses cleanup_workspace
tail-stops c t path final = elim (Bool-cases c.has_billing_client) [
  | inr n ↦ rw (end_billing_session, billed, n) (clean-stops c path, clean-statuses c path)
  | inl y ↦ elim (Option-cases (session_of c t)) [
    | inl e ↦ rw (end_billing_session, billed, y, e) (clean-stops c path, clean-statuses c path)
    | inr (id, e) ↦
        rw (end_billing_session, billed, y, e, clean-stops c path) (refl, clean-statuses c path)
  ]
]

pub final-cases :
    (x : ExecutionResult)
    → ((succeeded x ≡ true) × ((final_report x).0 ≡ JobStatus.completed))
      ⊎ ((succeeded x ≡ false) × ((final_report x).0 ≡ JobStatus.failed))
unfolding succeeded final_report
final-cases x = elim (Option-cases x.error) [
  | inr (e, h) ↦ rw (succeeded, final_report, h) (inr (refl, refl))
  | inl h ↦ elim (Bool-cases (is_zero x.exit_code)) [
    | inl z ↦ rw (succeeded, final_report, h, z) (inl (refl, refl))
    | inr z ↦ rw (succeeded, final_report, h, z) (inr (refl, refl))
  ]
]

run_task-EndsWith :
    (c : Setup) (r : Run) (t : Task) (path : String) (final : JobStatus)
    → r.workspace ≡ ok path
    → (final_report (result_of c r t.execution_type)).0 ≡ final
    → EndsWith c t final (stop_reason final) (run_task c r t)
unfolding run_task EndsWith statuses stops
run_task-EndsWith c r t path final w f =
    let x = final_report (result_of c r t.execution_type) in
    let rest = tail-stops c t path x.0 in
    subst (λ s. EndsWith c t s (stop_reason s) (run_task c r t)) f
      (rw (run_task, w) (ap (λ l. JobStatus.in_progress ∷ x.0 ∷ l) rest.1, rest.0))

-- A task whose workspace cannot be made reports only its failure and stops no session. Any other task reports that
-- it is in progress and then exactly one end: completed where the executor succeeded with exit code zero,
-- failed otherwise; and it stops its billing session, if it has one, once and with that reason.
pub run_task-IsOutcome : (c : Setup) (r : Run) (t : Task) → IsOutcome c r t (run_task c r t)
unfolding run_task IsOutcome EndsWith statuses stops stop_reason
run_task-IsOutcome c r t = elim (Answer-cases r.workspace) [
  | inr (e, w) ↦ inl (e, (w, rw (run_task, w) (refl, refl)))
  | inl (path, w) ↦ inr (
    path,
    (
      w,
      elim (final-cases (result_of c r t.execution_type)) [
        | inl (s, f) ↦ inl (s, run_task-EndsWith c r t path JobStatus.completed w f)
        | inr (s, f) ↦ inr (s, run_task-EndsWith c r t path JobStatus.failed w f)
      ],
    ),
  )
]
