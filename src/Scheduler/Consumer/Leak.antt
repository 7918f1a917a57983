-- ===== src/Scheduler/Consumer/Leak.antt =====
-- The billing session of a job whose task cannot be published.
use mathlib.Core.Path.{subst}
use dantegpu_core.Prelude.{
  sym, String, List, none, some, ◌≡◌, refl, ap, ◌∙◌, arith, Unicode, Answer,
}
use dantegpu_core.Scheduler.Models.{
  Provider, Job, JobState, InternalJob, JobRecord, to_internal_job, from_internal_job,
  new_internal_job,
}
use dantegpu_core.Scheduler.Matching.{find_suitable}
use dantegpu_core.Scheduler.Store.{Table, Fetched, get_job}
use dantegpu_core.Scheduler.Store.Reads.{kept}
use dantegpu_core.Scheduler.Consumer.{
  Env, Effect, SessionStartRequest, session_request, task_for, dispatch_subject, dispatch,
  bill_and_dispatch, schedule_job, process, handle_message, handle_fetched,
}
use dantegpu_core.Scheduler.Consumer.Outcomes.{publications, sessions}
use dantegpu_core.Scheduler.Consumer.Attempts.{
  processed, get_job-process, saved_new, new_job_processed, saved_new_stored, handle_fetched_going,
}

-- The registry lists a provider that fits the job, billing opens a session for it, and
-- NATS refuses the task.
pub record PublishFails ⦃u : Unicode⦄ (env : Env) (job : Job) : Type 0 where
  pub listed : List Provider
  pub provider : Provider
  pub start : SessionStartRequest → Answer String
  pub session_id : String
  pub reason : String
  pub lists : env.providers ≡ Answer.ok listed
  pub fits : find_suitable job listed ≡ some provider
  pub bills : env.start_session ≡ some start
  pub starts : start (session_request job provider) ≡ Answer.ok session_id
  pub marshals : env.marshal_error (task_for env job provider session_id) ≡ none
  pub refuses :
      env.publish_error (dispatch_subject env job provider) (task_for env job provider session_id)
      ≡ some reason

module _ ⦃u : Unicode⦄ where
  -- The attempt opens one session, publishes nothing, and leaves the job pending.
  schedule_job_leak :
      (env : Env) (j : InternalJob)
      → PublishFails env j.job_details
      → let o = schedule_job env j in
        (sessions o.effects ≡ 1) × (publications o.effects ≡ 0) × (o.job.state ≡ JobState.pending)
  unfolding schedule_job bill_and_dispatch dispatch
  schedule_job_leak env j f =
      rw (f.lists, schedule_job)
        (rw f.fits (
          rw (f.bills, bill_and_dispatch)
            (rw f.starts (rw (f.marshals, dispatch) (rw f.refuses (refl, refl, refl))))))

  new_delivery :
      (env : Env) (job : Job) (t : Table)
      → env.get_fault ≡ none
      → env.save_fault ≡ none
      → get_job none job.id t ≡ Fetched.absent
      → handle_message env (some job) t
        ≡ process env (new_internal_job job env.now) (saved_new env job t)
  unfolding handle_message handle_fetched
  new_delivery env job t reads saves absent =
      ap (λ e. handle_fetched env job t (get_job e job.id t)) reads
      ∙ ap (handle_fetched env job t) absent
      ∙ new_job_processed env job t saves

  -- The record of a new job after its first attempt.
  abbrev attempted : Env → Job → Table → JobRecord
  attempted env job t =
      let j = new_internal_job job env.now in processed env j (kept env.now (from_internal_job j) t)

  attempted_details :
      (env : Env) (job : Job) (t : Table)
      → (to_internal_job (attempted env job t)).job_details ≡ job
  unfolding to_internal_job from_internal_job new_internal_job
  attempted_details env job t = ground arith

  stored_delivery :
      (env : Env) (job : Job) (t : Table) (r : JobRecord)
      → env.get_fault ≡ none
      → get_job none job.id t ≡ Fetched.found r
      → r.state ≡ JobState.pending
      → handle_message env (some job) t ≡ process env (to_internal_job r) t
  unfolding handle_message
  stored_delivery env job t r reads stored waits =
      ap (λ e. handle_fetched env job t (get_job e job.id t)) reads
      ∙ ap (handle_fetched env job t) stored
      ∙ handle_fetched_going env job t r (rw waits)

  process_effects :
      (env : Env) (j : InternalJob) (t : Table)
      → (process env j t).effects ≡ (schedule_job env j).effects
  unfolding process
  process_effects env j t = refl

  abbrev Leaks : List Effect → Type 0
  Leaks es = (sessions es ≡ 1) × (publications es ≡ 0)

  process_leak :
      (env : Env) (j : InternalJob) (t : Table)
      → PublishFails env j.job_details
      → Leaks (process env j t).effects
  process_leak env j t f =
      let (opened, unsent, _) = schedule_job_leak env j f in
      subst Leaks (sym (process_effects env j t)) (opened, unsent)

  first_delivery_stored :
      (env : Env) (job : Job) (t : Table)
      → env.get_fault ≡ none
      → env.save_fault ≡ none
      → env.update_fault ≡ none
      → get_job none job.id t ≡ Fetched.absent
      → get_job none job.id (handle_message env (some job) t).table
        ≡ Fetched.found (attempted env job t)
  unfolding new_internal_job
  first_delivery_stored env job t reads saves works absent =
      let j = new_internal_job job env.now in
      ap (λ h. get_job none job.id h.table) (new_delivery env job t reads saves absent)
      ∙ get_job-process env j job.id (saved_new env job t) (kept env.now (from_internal_job j) t)
          works refl (saved_new_stored env job t)

  -- A new job whose task cannot be published has a billing session opened by each of its first two
  -- deliveries, one after the other, and its task is published by neither. The database works.
  pub redelivery_opens_second_session :
      (env : Env) (job : Job) (t : Table)
      → PublishFails env job
      → env.get_fault ≡ none
      → env.save_fault ≡ none
      → env.update_fault ≡ none
      → get_job none job.id t ≡ Fetched.absent
      → let first = handle_message env (some job) t in
        let second = handle_message env (some job) first.table in
        (sessions first.effects ≡ 1)
        × (publications first.effects ≡ 0)
        × (sessions second.effects ≡ 1)
        × (publications second.effects ≡ 0)
  unfolding new_internal_job
  redelivery_opens_second_session env job t fails reads saves works absent =
      let j = new_internal_job job env.now in
      let r = attempted env job t in
      let first = handle_message env (some job) t in
      let stored = first_delivery_stored env job t reads saves works absent in
      let waits = (schedule_job_leak env j fails).2 in
      let fails' = subst (PublishFails env) (sym (attempted_details env job t)) fails in
      let (o1, u1) =
        subst (λ h. Leaks h.effects) (sym (new_delivery env job t reads saves absent))
          (process_leak env j (saved_new env job t) fails) in
      let (o2, u2) =
        subst (λ h. Leaks h.effects)
          (sym (stored_delivery env job first.table r reads stored waits))
          (process_leak env (to_internal_job r) first.table fails') in
      (o1, u1, o2, u2)
