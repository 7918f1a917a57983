-- ===== src/Scheduler/Consumer/Outcomes.antt =====
-- `scheduleJob` on all its branches: what it did to the job, and what it sent out.
use dantegpu_core.Prelude.{
  ℕ, suc, ◌+◌, ◌≤◌, String, append, List, [], ◌∷◌, ◌++◌, Option, none, some, true, false, ◌≡◌, refl,
  ◌⊎◌, inl, inr, arith, Unicode, Answer, Option-cases, Answer-cases,
}
use mathlib.Core.Path.{subst}
use dantegpu_core.Scheduler.Models.{Provider, Job, JobState, InternalJob, Task, new_task}
use dantegpu_core.Scheduler.Matching.{find_suitable}
use dantegpu_core.Scheduler.Matching.Suitable.{Answers, find_suitable-Answers}
use dantegpu_core.Scheduler.Consumer.{
  Env, Effect, opened_session, published, Outcome, session_request, dispatch, task_for,
  dispatch_subject, bill_and_dispatch, schedule_job,
}

-- How many tasks were published.
abbrev pub publications : List Effect → ℕ
publications [] = 0
publications (published s t ∷ es) = suc (publications es)
publications (opened_session r id ∷ es) = publications es

-- How many billing sessions were opened.
abbrev pub sessions : List Effect → ℕ
sessions [] = 0
sessions (published s t ∷ es) = sessions es
sessions (opened_session r id ∷ es) = suc (sessions es)

-- The last thing done is the publication of the job's task for a provider, under the provider's and the job's subject,
-- after one session at most was opened.
abbrev pub SendsTask : Env → Job → Provider → List Effect → Type 0
SendsTask env job p effects =
    (opened : List Effect) × (task : Task) × (effects
      ≡ opened
        ++ published (append (append (append (append env.subject_prefix ".") p.id) ".") job.id) task
          ∷ [])
    × (publications opened ≡ 0)
    × (sessions opened ≤ 1)
    × (task.job_id ≡ job.id)
    × (task.user_id ≡ job.user_id)
    × (task.assigned_provider_id ≡ p.id)

-- The job went to a provider of the list: it is dispatched there, its attempt is counted, and its task is the only one
-- that went out.
abbrev pub IsDispatched : Env → InternalJob → Provider → Outcome → Type 0
IsDispatched env j p o =
    (o.scheduled ≡ true)
    × (o.error ≡ none)
    × (o.job ≡ record j {
      state = JobState.dispatched;
      provider_id = p.id;
      attempts = j.attempts + 1;
      last_error = "";
    })
    × (publications o.effects ≡ 1)
    × SendsTask env j.job_details p o.effects

-- The scheduling failed with an error: no task went out, the job keeps its provider and its attempts,
-- and it is failed, pending, or in the state that it had.
abbrev pub HasFailed : InternalJob → Outcome → Type 0
HasFailed j o =
    (o.scheduled ≡ false)
    × ((e : String) × (o.error ≡ some e))
    × (o.job.job_details ≡ j.job_details)
    × (o.job.provider_id ≡ j.provider_id)
    × (o.job.attempts ≡ j.attempts)
    × ((o.job.state ≡ JobState.failed) ⊎ (o.job.state ≡ JobState.pending) ⊎ (o.job.state ≡ j.state))
    × (publications o.effects ≡ 0)

-- No provider fits now: the job is pending again, and nothing was done.
abbrev pub IsWaiting : InternalJob → Outcome → Type 0
IsWaiting j o =
    (o.scheduled ≡ false)
    × (o.error ≡ none)
    × (o.effects ≡ [])
    × (o.job ≡ record j { state = JobState.pending; last_error = "No suitable provider found" })

publications-append :
    (es fs : List Effect) → publications (es ++ fs) ≡ publications es + publications fs
publications-append [] fs = omega arith
publications-append (published s t ∷ es) fs = omega (arith, publications-append es fs)
publications-append (opened_session r id ∷ es) fs = publications-append es fs

task_for-fields :
    (env : Env) (job : Job) (p : Provider) (id : String)
    → let task = task_for env job p id in
      (task.job_id ≡ job.id) × (task.user_id ≡ job.user_id) × (task.assigned_provider_id ≡ p.id)
unfolding task_for new_task
task_for-fields env job p id = ground arith

dispatch_outcome :
    (env : Env) (j : InternalJob) (s : JobState) (p : Provider) (id : String) (es : List Effect)
    → publications es ≡ 0
    → sessions es ≤ 1
    → let o = dispatch env (record j { state = s }) p id es in
      IsDispatched env j p o ⊎ HasFailed j o
unfolding dispatch dispatch_subject
dispatch_outcome env j s p id es h k =
    let task = task_for env j.job_details p id in
    let subject = dispatch_subject env j.job_details p in
    let fields = task_for-fields env j.job_details p id in
    elim (Option-cases (env.marshal_error task)) [
      | inr (e, bad) ↦ rw (bad, dispatch) (inr (refl, (_, refl), refl, refl, refl, inl refl, h))
      | inl good ↦ elim (Option-cases (env.publish_error subject task)) [
        | inr (e, bad) ↦
            rw (good, dispatch)
              (rw bad (inr (refl, (_, refl), refl, refl, refl, inr (inl refl), h)))
        | inl sent ↦
            rw (good, dispatch)
              (rw sent (
                inl (
                  refl,
                  refl,
                  refl,
                  omega (arith, publications-append es (published subject task ∷ [])),
                  (es, task, refl, h, k, fields.0, fields.1, fields.2),
                )))
      ]
    ]

module _ ⦃u : Unicode⦄ where
  bill_and_dispatch_outcome :
      (env : Env) (j : InternalJob) (s : JobState) (p : Provider)
      → let o = bill_and_dispatch env (record j { state = s }) p in
        IsDispatched env j p o ⊎ HasFailed j o
  unfolding bill_and_dispatch
  bill_and_dispatch_outcome env j s p = elim (Option-cases env.start_session) [
    | inl free ↦ rw (free, bill_and_dispatch) (dispatch_outcome env j s p "" [] refl (omega arith))
    | inr (start, billed) ↦
        let req = session_request j.job_details p in
        elim (Answer-cases (start req)) [
          | inr (e, bad) ↦
              rw (billed, bill_and_dispatch)
                (rw bad (inr (refl, (_, refl), refl, refl, refl, inl refl, refl)))
          | inl (id, good) ↦
              rw (billed, bill_and_dispatch)
                (rw good
                  (dispatch_outcome env j s p id (opened_session req id ∷ []) refl (omega arith)))
        ]
  ]

  answered :
      (job : Job) (ps : List Provider) (r : Option Provider)
      → find_suitable job ps ≡ r
      → Answers job ps r
  answered job ps r e = subst (Answers job ps) e (find_suitable-Answers job ps)

  -- What one scheduling attempt comes to. Either the job goes to the first provider of the registry's list that has what
  -- it asks for: its task for that provider is published under the provider's and the job's subject, as
  -- the only publication, after one session at most, and the attempt is counted; or no provider of the list has it, the job waits and nothing is sent; or an error is returned, nothing is published, and the job
  -- keeps its provider and its attempts and is failed, pending or in the state that it had.
  pub schedule_job_outcome :
      (env : Env) (j : InternalJob)
      → let o = schedule_job env j in
        ((ps : List Provider) × (env.providers ≡ Answer.ok ps)
          × (((p : Provider) × Answers j.job_details ps (some p) × IsDispatched env j p o)
              ⊎ (Answers j.job_details ps none × IsWaiting j o)))
        ⊎ HasFailed j o
  unfolding schedule_job
  schedule_job_outcome env j = elim (Answer-cases env.providers) [
    | inr (e, bad) ↦
        rw (bad, schedule_job) (inr (refl, (_, refl), refl, refl, refl, inr (inr refl), refl))
    | inl (ps, listed) ↦ elim (Option-cases (find_suitable j.job_details ps)) [
      | inl nobody ↦
          rw (listed, schedule_job)
            (rw nobody (
              inl
                (ps, refl, inr (answered j.job_details ps none nobody, (refl, refl, refl, refl)))))
      | inr (p, fits) ↦
          rw (listed, schedule_job)
            (rw fits (elim (bill_and_dispatch_outcome env j JobState.searching p) [
              | inl sent ↦ inl (ps, refl, inl (p, answered j.job_details ps (some p) fits, sent))
              | inr bad ↦ inr bad
            ]))
    ]
  ]
