-- ===== src/Scheduler/Consumer/Attempts.antt =====
-- What the job table says of a job after its message was handled.
use dantegpu_core.Prelude.{
  ℕ, ◌+◌, String, Option, none, some, true, false, ◌≡◌, refl, ◌∙◌, ap, arith, Unicode, [], ◌∷◌,
  eq_iff, ok, Answer-cases, ◌≢◌, ◌⊎◌, inl, inr, Option-cases,
}
use dantegpu_core.Scheduler.Models.{
  Job, JobState, InternalJob, JobRecord, to_internal_job, from_internal_job, new_internal_job,
}
use dantegpu_core.Scheduler.Details.{unmarshal_details}
use dantegpu_core.Scheduler.Store.{
  scan, JobRow, Table, Fetched, find_row, get_job, save_job, update_job_state,
}
use dantegpu_core.Scheduler.Store.Reads.{get_job-save_job, get_job-update_job_state, restated, kept}
use dantegpu_core.Scheduler.Consumer.{
  Env, ack, is_terminal, attempts_after, final_last_error, schedule_job, process, handle_message,
  handle_fetched, handle_new, handle_saved,
}
use dantegpu_core.Scheduler.Consumer.Deliveries.{schedule_job_details, attempts_after_lem}

-- A row that is found has the id that it was looked up by.
find_row_id : (id : String) (t : Table) (r : JobRow) → find_row id t ≡ some r → r.job_id ≡ id
find_row_id id [] r e = absurd (cc)
find_row_id id (q ∷ t) r e = ground (arith, eq_iff q.job_id id, find_row_id id t r)

scan_id : (q : JobRow) (j : JobRecord) → scan q ≡ ok j → j.job_id ≡ q.job_id
unfolding scan
scan_id q j h = elim (Answer-cases (unmarshal_details q.job_details)) [
  | inl (d, e) ↦ ground (arith, e, h)
  | inr (m, e) ↦ ground (arith, e, h)
]

get_job_id :
    (id : String) (t : Table) (r : JobRecord) → get_job none id t ≡ Fetched.found r → r.job_id ≡ id
unfolding get_job
get_job_id id t r e = elim (Option-cases (find_row id t)) [
  | inl no_row ↦ ground arith
  | inr (q, row) ↦ elim (Answer-cases (scan q)) [
    | inl (j, h) ↦ ground (arith, h, find_row_id id t q row, scan_id q j h)
    | inr (m, h) ↦ ground (arith, h)
  ]
]

-- A job that is stored reads back with the new state after an update that the database takes.
update_found :
    (fault : Option String) (id key : String) (now : ℕ) (s : JobState) (p e : String) (n m : ℕ)
    (t : Table) (r : JobRecord)
    → fault ≡ none
    → key ≡ id
    → n ≡ m
    → get_job none id t ≡ Fetched.found r
    → get_job none id (update_job_state fault now key s p e n t).1
      ≡ Fetched.found (restated now s p e m r)
update_found fault id key now s p e n m t r works same counted stored =
    rw (works, same, counted)
      (ground (arith, eq_iff id id, get_job-update_job_state id id now s p e m t))

-- The table after a new job was saved.
abbrev pub saved_new : Env → Job → Table → Table
saved_new env job t = (save_job none env.now (from_internal_job (new_internal_job job env.now)) t).1

module _ ⦃u : Unicode⦄ where
  -- The record of a job after it was processed.
  abbrev pub processed : Env → InternalJob → JobRecord → JobRecord
  processed env j r =
      let o = schedule_job env j in
      restated env.now o.job.state o.job.provider_id (final_last_error o.error) (j.attempts + 1) r

  pub get_job-process :
      (env : Env) (j : InternalJob) (id : String) (t : Table) (r : JobRecord)
      → env.update_fault ≡ none
      → j.job_details.id ≡ id
      → get_job none id t ≡ Fetched.found r
      → get_job none id (process env j t).table ≡ Fetched.found (processed env j r)
  unfolding process
  get_job-process env j id t r works same stored =
      let o = schedule_job env j in
      update_found env.update_fault id o.job.job_details.id env.now o.job.state o.job.provider_id
        (final_last_error o.error) (attempts_after o) (j.attempts + 1) t r works
        (ap (λ d. d.id) (schedule_job_details env j) ∙ same) (attempts_after_lem env j) stored

  fetched :
      (env : Env) (id : String) (t : Table) {f : Fetched}
      → env.get_fault ≡ none
      → get_job none id t ≡ f
      → get_job env.get_fault id t ≡ f
  fetched env id t reads stored = ap (λ e. get_job e id t) reads ∙ stored

  pub handle_fetched_going :
      (env : Env) (job : Job) (t : Table) (r : JobRecord)
      → is_terminal r.state ≡ false
      → handle_fetched env job t (Fetched.found r) ≡ process env (to_internal_job r) t
  unfolding handle_fetched to_internal_job
  handle_fetched_going env job t r going = rw going

  terminal_lem :
      (s : JobState) → (s ≡ JobState.completed) ⊎ (s ≡ JobState.cancelled) → is_terminal s ≡ true
  terminal_lem s (inl e) = rw e refl
  terminal_lem s (inr e) = rw e refl

  going_lem :
      (s : JobState) → s ≢ JobState.completed → s ≢ JobState.cancelled → is_terminal s ≡ false
  going_lem JobState.completed n m = absurd (n refl)
  going_lem JobState.cancelled n m = absurd (m refl)
  going_lem _ n m = refl

  handle_fetched_done :
      (env : Env) (job : Job) (t : Table) (r : JobRecord)
      → is_terminal r.state ≡ true
      → handle_fetched env job t (Fetched.found r)
        ≡ record { table = t; ops = ack ∷ []; effects = [] }
  unfolding handle_fetched to_internal_job
  handle_fetched_done env job t r done = rw done

  -- A delivery for a stored job that is neither completed nor cancelled counts exactly one attempt more,
  -- whatever comes of the scheduling, and stores the state, the provider and the error of the attempt; the
  -- record keeps the rest but for the time of the write. The reads and the writes of the table work.
  pub delivery_counts_attempt :
      (env : Env) (job : Job) (t : Table) (r : JobRecord)
      → env.get_fault ≡ none
      → env.update_fault ≡ none
      → get_job none job.id t ≡ Fetched.found r
      → r.state ≢ JobState.completed
      → r.state ≢ JobState.cancelled
      → let o = schedule_job env (to_internal_job r) in
        get_job none job.id (handle_message env (some job) t).table
        ≡ Fetched.found (record r {
          state = o.job.state;
          provider_id = o.job.provider_id;
          attempts = r.attempts + 1;
          last_error = final_last_error o.error;
          updated_at = env.now;
        })
  unfolding handle_message to_internal_job
  delivery_counts_attempt env job t r reads works stored incomplete uncancelled =
      ap (λ f. get_job none job.id (handle_fetched env job t f).table)
        (fetched env job.id t reads stored)
      ∙ ap (λ h. get_job none job.id h.table)
          (handle_fetched_going env job t r (going_lem r.state incomplete uncancelled))
      ∙ get_job-process env (to_internal_job r) job.id t r works (get_job_id job.id t r stored)
          stored

  -- A stored job that is completed or cancelled is not touched: its message is acknowledged, the
  -- table stays, and nothing is sent.
  pub terminal_job_untouched :
      (env : Env) (job : Job) (t : Table) (r : JobRecord)
      → env.get_fault ≡ none
      → get_job none job.id t ≡ Fetched.found r
      → (r.state ≡ JobState.completed) ⊎ (r.state ≡ JobState.cancelled)
      → handle_message env (some job) t ≡ record { table = t; ops = ack ∷ []; effects = [] }
  unfolding handle_message
  terminal_job_untouched env job t r reads stored done =
      ap (handle_fetched env job t) (fetched env job.id t reads stored)
      ∙ handle_fetched_done env job t r (terminal_lem r.state done)

  pub new_job_processed :
      (env : Env) (job : Job) (t : Table)
      → env.save_fault ≡ none
      → handle_new env job t ≡ process env (new_internal_job job env.now) (saved_new env job t)
  unfolding handle_new handle_saved save_job
  new_job_processed env job t saves =
      let j = new_internal_job job env.now in
      ap (λ e. handle_saved env j (save_job e env.now (from_internal_job j) t)) saves

  pub saved_new_stored :
      (env : Env) (job : Job) (t : Table)
      → get_job none job.id (saved_new env job t)
        ≡ Fetched.found (kept env.now (from_internal_job (new_internal_job job env.now)) t)
  unfolding from_internal_job new_internal_job
  saved_new_stored env job t =
      let r = from_internal_job (new_internal_job job env.now) in
      ground (arith, eq_iff job.id job.id, get_job-save_job job.id env.now r t)
