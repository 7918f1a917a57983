-- ===== src/Scheduler/Tests.antt =====
-- The scheduler on concrete jobs, providers and tables.
use dantegpu_core.Prelude.{
  String, List, [], ◌∷◌, Option, none, some, Bool, true, false, ◌≡◌, ◌≢◌, refl, ◌⊎◌, inl, inr,
  arith, Unicode, ascii, Answer, pos,
}
use dantegpu_core.Scheduler.Models.{
  ProviderStatus, GpuDetail, Provider, Job, JobState, InternalJob, JobRecord, to_internal_job,
  from_internal_job,
}
use dantegpu_core.Scheduler.Matching.{
  effective_power, estimate_power_from_model, best_provider_vram, best_provider_power_w,
  meets_floors, is_suitable, find_suitable, select_billing_gpu,
}
use dantegpu_core.Scheduler.Matching.Suitable.{Answers, find_suitable-Answers}
use dantegpu_core.Scheduler.Matching.Billing.{
  Meets, BilledOn, select_billing_gpu-BilledOn, split_rig_suitable,
}
use dantegpu_core.Scheduler.Store.{Table, Fetched, get_job, save_job, row}
use dantegpu_core.Scheduler.Details.{marshal_details, unmarshal_details}
use dantegpu_core.Scheduler.Store.Reads.{saved_job_reads_back}
use dantegpu_core.Scheduler.Consumer.{
  Env, ack, is_terminal, final_last_error, schedule_job, handle_message,
}
use dantegpu_core.Scheduler.Consumer.Outcomes.{
  publications, sessions, IsDispatched, IsWaiting, HasFailed, schedule_job_outcome,
}
use dantegpu_core.Scheduler.Consumer.Deliveries.{IsAcked, acked_message_was_handled}
use dantegpu_core.Scheduler.Consumer.Attempts.{delivery_counts_attempt, terminal_job_untouched}
use dantegpu_core.Scheduler.Consumer.Leak.{PublishFails, redelivery_opens_second_session}

instance abbrev tables : Unicode
tables = ascii

abbrev big : GpuDetail
big = record {
  model_name = "NVIDIA A6000";
  vram = 49152;
  driver_version = "550";
  power_consumption = 0;
}

abbrev hot : GpuDetail
hot = record {
  model_name = "RTX 4090";
  vram = 24576;
  driver_version = "550";
  power_consumption = 450;
}

abbrev rig : Provider
rig = record {
  id = "p1";
  owner_id = "o";
  name = "rig";
  hostname = "";
  ip_address = "";
  status = ProviderStatus.idle;
  gpus = big ∷ hot ∷ [];
  location = "";
  registered_at = 1;
  last_seen_at = 2;
  metadata = [];
}

abbrev busy_rig : Provider
busy_rig = record rig { id = "p0"; status = ProviderStatus.busy }

abbrev training : Job
training = record {
  id = "j1";
  user_id = "u1";
  type = "ai-training";
  name = "train";
  description = "";
  priority = pos 1;
  submitted_at = 5;
  gpu_type = "";
  gpu_count = pos 1;
  min_vram_mb = 40000;
  min_power_w = 400;
  params = [];
  tags = [];
}

-- The rig passes the guards for a job that neither of its GPUs can run.
rig_passes : is_suitable training rig ≡ true
unfolding is_suitable best_provider_vram best_provider_power_w effective_power
    estimate_power_from_model
rig_passes = refl

find_suitable-Answers_example : Answers training (busy_rig ∷ rig ∷ []) (some rig)
unfolding find_suitable is_suitable best_provider_vram best_provider_power_w effective_power
    estimate_power_from_model
find_suitable-Answers_example = find_suitable-Answers training (busy_rig ∷ rig ∷ [])

select_billing_gpu-BilledOn_example : BilledOn 20000 400 (big ∷ hot ∷ []) (some hot)
unfolding select_billing_gpu meets_floors effective_power estimate_power_from_model
select_billing_gpu-BilledOn_example = select_billing_gpu-BilledOn rig 20000 400

split_rig_suitable_example :
    (is_suitable training rig ≡ true)
    × (select_billing_gpu rig 40000 400 ≡ some big)
    × ¬ Meets 40000 400 big
unfolding effective_power estimate_power_from_model
split_rig_suitable_example =
    split_rig_suitable training rig big hot refl refl refl (omega arith) (omega arith) (omega arith)
      (omega arith) (omega arith)

-- A delivery on which everything works, at time 100.
abbrev sunny : Env
sunny = record {
  now = 100;
  subject_prefix = "tasks.dispatch";
  providers = Answer.ok (busy_rig ∷ rig ∷ []);
  start_session = some (λ r. Answer.ok "s1");
  marshal_error = λ t. none;
  publish_error = λ s t. none;
  nak_fails = false;
  get_fault = none;
  save_fault = none;
  update_fault = none;
}

-- A delivery on which NATS refuses the task.
abbrev refused : Env
refused = record sunny { publish_error = λ s t. some "no responders" }

abbrev fresh : InternalJob
fresh = record {
  job_details = training;
  state = JobState.pending;
  provider_id = "";
  attempts = 0;
  last_error = "";
  received_at = 90;
  updated_at = 90;
}

schedule_job_outcome_example :
    let o = schedule_job sunny fresh in
    ((ps : List Provider) × (sunny.providers ≡ Answer.ok ps)
      × (((p : Provider) × Answers training ps (some p) × IsDispatched sunny fresh p o)
          ⊎ (Answers training ps none × IsWaiting fresh o)))
    ⊎ HasFailed fresh o
schedule_job_outcome_example = schedule_job_outcome sunny fresh

abbrev stored : JobRecord
stored = record {
  job_id = "j1";
  user_id = "u1";
  job_details = training;
  state = JobState.pending;
  provider_id = "";
  attempts = 2;
  last_error = "";
  received_at = 90;
  updated_at = 95;
  submitted_at = 5;
  job_name = "train";
  job_type = "ai-training";
  gpu_type = "";
  priority = pos 1;
}

abbrev waiting : Table
waiting = row 95 stored ∷ []

abbrev finished : Table
finished = row 95 (record stored { state = JobState.completed }) ∷ []

deaf_acks :
    IsAcked (handle_message (record refused { nak_fails = true }) (some training) waiting).ops
unfolding row unmarshal_details marshal_details handle_message get_job to_internal_job schedule_job
    find_suitable is_suitable best_provider_vram best_provider_power_w effective_power
    estimate_power_from_model
deaf_acks = inr (inl (inl refl))

-- A refused negative acknowledgement ends in an acknowledgement with nothing published.
acked_message_was_handled_example :
    (publications
        (handle_message (record refused { nak_fails = true }) (some training) waiting).effects
      ≡ 1)
    ⊎ (◌≡◌ {A = Option Job} (some training) none)
    ⊎ (◌≡◌ {A = Bool} true true)
    ⊎ ((job : Job) × (r : JobRecord) × (◌≡◌ {A = Option Job} (some training) (some job))
        × (get_job none job.id waiting ≡ Fetched.found r)
        × (is_terminal r.state ≡ true))
acked_message_was_handled_example =
    acked_message_was_handled (record refused { nak_fails = true }) (some training) waiting
      deaf_acks

delivery_counts_attempt_example :
    let o = schedule_job sunny (to_internal_job stored) in
    get_job none "j1" (handle_message sunny (some training) waiting).table
    ≡ Fetched.found (record stored {
      state = o.job.state;
      provider_id = o.job.provider_id;
      attempts = 3;
      last_error = final_last_error o.error;
      updated_at = 100;
    })
unfolding get_job row unmarshal_details marshal_details
delivery_counts_attempt_example =
    delivery_counts_attempt sunny training waiting stored refl refl refl (λ e. ground (arith, e))
      (λ e. ground (arith, e))

terminal_job_untouched_example :
    handle_message sunny (some training) finished
    ≡ record { table = finished; ops = ack ∷ []; effects = [] }
unfolding get_job row unmarshal_details marshal_details
terminal_job_untouched_example =
    terminal_job_untouched sunny training finished (record stored { state = JobState.completed })
      refl refl (inl refl)

refused_fails : PublishFails refused training
unfolding find_suitable is_suitable best_provider_vram best_provider_power_w effective_power
    estimate_power_from_model
refused_fails = record {
  listed = busy_rig ∷ rig ∷ [];
  provider = rig;
  start = λ r. Answer.ok "s1";
  session_id = "s1";
  reason = "no responders";
  lists = refl;
  fits = refl;
  bills = refl;
  starts = refl;
  marshals = refl;
  refuses = refl;
}

redelivery_opens_second_session_example :
    let first = handle_message refused (some training) [] in
    let second = handle_message refused (some training) first.table in
    (sessions first.effects ≡ 1)
    × (publications first.effects ≡ 0)
    × (sessions second.effects ≡ 1)
    × (publications second.effects ≡ 0)
unfolding get_job row unmarshal_details marshal_details
redelivery_opens_second_session_example =
    redelivery_opens_second_session refused training [] refused_fails refl refl refl refl

saved_job_reads_back_example :
    let t' = (save_job none 99 (from_internal_job fresh) waiting).1 in
    ((r : JobRecord) × (get_job none "j1" t' ≡ Fetched.found r)
      × (to_internal_job r ≡ record fresh { updated_at = 99; received_at = 90 }))
    × ((id : String) → id ≢ "j1" → get_job none id t' ≡ get_job none id waiting)
unfolding row
saved_job_reads_back_example = saved_job_reads_back 99 fresh waiting
