-- ===== src/Scheduler/Consumer/Deliveries.antt =====
-- `handleMessage`: what one delivery of a message does to the job table, to the message and to the
-- other services, and what a second delivery adds.
use mathlib.Core.Path.{subst}
use dantegpu_core.Prelude.{
  ℕ, ◌+◌, String, List, Option, none, some, true, false, ◌≡◌, refl, ap, ◌⊎◌, inl, inr, arith,
  Unicode, Bool-cases, Any,
}
use dantegpu_core.Scheduler.Models.{
  Job, InternalJob, JobRecord, to_internal_job, from_internal_job, new_internal_job,
}
use dantegpu_core.Scheduler.Store.{Table, Fetched, get_job, save_job}
use dantegpu_core.Scheduler.Consumer.{
  Env, Outcome, MsgOp, ack, ack_sync, nak_or_ack, message_ops, is_terminal, attempts_after,
  schedule_job, process, handle_saved, handle_new, handle_fetched, handle_message,
}
use dantegpu_core.Scheduler.Consumer.Outcomes.{publications, schedule_job_outcome}

-- The message is acknowledged, so that NATS does not deliver it again.
abbrev pub IsAcked : List MsgOp → Type 0
IsAcked = Any (λ o. (o ≡ ack) ⊎ (o ≡ ack_sync))

nak_or_ack-IsAcked : (env : Env) (d : ℕ) → IsAcked (nak_or_ack env d) → env.nak_fails ≡ true
nak_or_ack-IsAcked env d h = ground arith

waiting_ops :
    (env : Env) (o : Outcome)
    → o.scheduled ≡ false
    → o.error ≡ none
    → message_ops env o ≡ nak_or_ack env 60
waiting_ops env o h k = ground arith

failed_ops :
    (env : Env) (o : Outcome) {e : String}
    → o.error ≡ some e
    → message_ops env o ≡ nak_or_ack env 30
failed_ops env o h = ground arith

left_of : {A B C : Type 0} → A ⊎ B → A ⊎ B ⊎ C
left_of (inl a) = inl a
left_of (inr b) = inr (inl b)

module _ ⦃u : Unicode⦄ where
  pub schedule_job_details :
      (env : Env) (j : InternalJob) → (schedule_job env j).job.job_details ≡ j.job_details
  schedule_job_details env j = elim (schedule_job_outcome env j) [
    | inl (ps, _, inl (p, _, d)) ↦ ap (λ i. i.job_details) d.2
    | inl (ps, _, inr (_, w)) ↦ ap (λ i. i.job_details) w.3
    | inr f ↦ f.2
  ]

  -- Every attempt is counted once, whatever comes of it.
  pub attempts_after_lem :
      (env : Env) (j : InternalJob) → attempts_after (schedule_job env j) ≡ j.attempts + 1
  attempts_after_lem env j = elim (schedule_job_outcome env j) [
    | inl (ps, _, inl (p, _, d)) ↦ rw (d.0, d.1, d.2) refl
    | inl (ps, _, inr (_, w)) ↦ rw (w.0, w.3) refl
    | inr f ↦ rw (f.0, f.4) refl
  ]

  process-IsAcked :
      (env : Env) (j : InternalJob) (t : Table)
      → IsAcked (process env j t).ops
      → (publications (process env j t).effects ≡ 1) ⊎ (env.nak_fails ≡ true)
  unfolding process
  process-IsAcked env j t acked = elim (schedule_job_outcome env j) [
    | inl (ps, _, inl (p, _, d)) ↦ inl d.3
    | inl (ps, _, inr (_, w)) ↦ inr (
        nak_or_ack-IsAcked env 60
          (subst IsAcked (waiting_ops env (schedule_job env j) w.0 w.1) acked))
    | inr f ↦ inr (
        nak_or_ack-IsAcked env 30 (subst IsAcked (failed_ops env (schedule_job env j) f.1.1) acked))
  ]

  handle_saved-IsAcked :
      (env : Env) (j : InternalJob) (saved : Option String × Table)
      → IsAcked (handle_saved env j saved).ops
      → (publications (handle_saved env j saved).effects ≡ 1) ⊎ (env.nak_fails ≡ true)
  unfolding handle_saved
  handle_saved-IsAcked env j (none, t) acked = process-IsAcked env j t acked
  handle_saved-IsAcked env j (some e, t) acked = inr (nak_or_ack-IsAcked env 10 acked)

  new_acked :
      (env : Env) (job : Job) (t : Table)
      → IsAcked (handle_new env job t).ops
      → (publications (handle_new env job t).effects ≡ 1) ⊎ (env.nak_fails ≡ true)
  unfolding handle_new
  new_acked env job t acked =
      let j = new_internal_job job env.now in
      handle_saved-IsAcked env j (save_job env.save_fault env.now (from_internal_job j) t) acked

  handle_fetched-IsAcked :
      (env : Env) (job : Job) (t : Table) (f : Fetched)
      → IsAcked (handle_fetched env job t f).ops
      → (publications (handle_fetched env job t f).effects ≡ 1)
        ⊎ (env.nak_fails ≡ true)
        ⊎ ((r : JobRecord) × (f ≡ Fetched.found r) × (is_terminal r.state ≡ true))
  unfolding handle_fetched to_internal_job
  handle_fetched-IsAcked env job t (Fetched.found r) acked =
      elim (Bool-cases (is_terminal r.state)) [
        | inl done ↦ inr (inr (r, refl, done))
        | inr open_job ↦
            rw open_job (left_of (process-IsAcked env (to_internal_job r) t (rw open_job at acked)))
      ]
  handle_fetched-IsAcked env job t Fetched.absent acked = left_of (new_acked env job t acked)
  handle_fetched-IsAcked env job t (Fetched.failed e) acked = left_of (new_acked env job t acked)

  -- No job is dropped: a message is acknowledged only when its task was published, once, or when it is no
  -- job at all, or when the stored job is completed or cancelled already, or when NATS refuses the
  -- negative acknowledgement.
  pub acked_message_was_handled :
      (env : Env) (msg : Option Job) (t : Table)
      → IsAcked (handle_message env msg t).ops
      → (publications (handle_message env msg t).effects ≡ 1)
        ⊎ (msg ≡ none)
        ⊎ (env.nak_fails ≡ true)
        ⊎ ((job : Job) × (r : JobRecord) × (msg ≡ some job)
            × (get_job env.get_fault job.id t ≡ Fetched.found r)
            × (is_terminal r.state ≡ true))
  unfolding handle_message
  acked_message_was_handled env none t acked = inr (inl refl)
  acked_message_was_handled env (some job) t acked =
      elim (handle_fetched-IsAcked env job t (get_job env.get_fault job.id t) acked) [
        | inl sent ↦ inl sent
        | inr (inl refused) ↦ inr (inr (inl refused))
        | inr (inr (r, stored, done)) ↦ inr (inr (inr (job, r, refl, stored, done)))
      ]
