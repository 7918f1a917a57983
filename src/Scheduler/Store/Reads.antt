-- ===== src/Scheduler/Store/Reads.antt =====
-- What `GetJob` reads after the other statements of the job store.
use dantegpu_core.Prelude.{
  ℕ, String, none, some, if◌then◌else◌, text_eq, ◌≡◌, ◌≢◌, refl, arith, eq_iff, Option-cases, inl,
  inr, ap, ◌∙◌, ok, err, Answer-cases,
}
use dantegpu_core.Scheduler.Models.{
  Job, JobState, JobRecord, InternalJob, to_internal_job, from_internal_job,
}
use dantegpu_core.Scheduler.Details.{
  marshal_details, unmarshal_details, unmarshal_details-marshal_details,
}
use dantegpu_core.Scheduler.Store.{
  JobRow, Table, Fetched, columns, scan, row, save_job, find_row, get_job, set_state,
  update_job_state,
}
use dantegpu_core.Scheduler.Store.Table.{
  merged, find_row-upsert, find_row-update_rows, of_null-to_null,
}

-- The time at which a job was received: what the table has for it, or else a given one.
abbrev pub received_of : String → ℕ → Table → ℕ
received_of id now t = elim (find_row id t) [ none ↦ now | some r ↦ r.received_at ]

-- The record that `SaveJob` leaves for a record.
abbrev pub kept : ℕ → JobRecord → Table → JobRecord
kept now r t = record r { updated_at = now; received_at = received_of r.job_id r.received_at t }

columns-merged :
    (now : ℕ) (r : JobRecord) (t : Table)
    → columns (merged (row now r) t) r.job_details ≡ kept now r t
unfolding row
columns-merged now r t = ground (arith, of_null-to_null r.provider_id, of_null-to_null r.last_error)

merged-job_details :
    (now : ℕ) (r : JobRecord) (t : Table)
    → (merged (row now r) t).job_details ≡ marshal_details r.job_details
unfolding row
merged-job_details now r t = ground arith

scan_lem :
    (r : JobRow) (details : Job)
    → unmarshal_details r.job_details ≡ ok details
    → scan r ≡ ok (columns r details)
unfolding scan
scan_lem r details h = rw (scan, h) refl

scan-merged :
    (now : ℕ) (r : JobRecord) (t : Table) → scan (merged (row now r) t) ≡ ok (kept now r t)
scan-merged now r t =
    scan_lem (merged (row now r) t) r.job_details (
      ap unmarshal_details (merged-job_details now r t)
      ∙ unmarshal_details-marshal_details r.job_details)
    ∙ ap ok (columns-merged now r t)

pub get_job-save_job :
    (id : String) (now : ℕ) (r : JobRecord) (t : Table)
    → get_job none id (save_job none now r t).1
      ≡ (if text_eq r.job_id id then Fetched.found (kept now r t) else get_job none id t)
unfolding get_job save_job
get_job-save_job id now r t = ground (arith, find_row-upsert id (row now r) t, scan-merged now r t)

-- The record that `UpdateJobState` leaves for a record.
abbrev pub restated : ℕ → JobState → String → String → ℕ → JobRecord → JobRecord
restated now s p e n r = record r {
  state = s;
  provider_id = p;
  last_error = e;
  attempts = n;
  updated_at = now;
}

abbrev pub map_found : (JobRecord → JobRecord) → Fetched → Fetched
map_found f (Fetched.found r) = Fetched.found (f r)
map_found f Fetched.absent = Fetched.absent
map_found f (Fetched.failed e) = Fetched.failed e

scan-set_state :
    (now : ℕ) (s : JobState) (p e : String) (n : ℕ) (r : JobRow)
    → scan (set_state now s p e n r)
      ≡ (elim (scan r) [ ok j ↦ ok (restated now s p e n j) | err m ↦ err m ])
unfolding scan
scan-set_state now s p e n r = elim (Answer-cases (unmarshal_details r.job_details)) [
  | inl (j, h) ↦ ground (arith, h, of_null-to_null p, of_null-to_null e)
  | inr (m, h) ↦ ground (arith, h)
]

pub get_job-update_job_state :
    (id key : String) (now : ℕ) (s : JobState) (p e : String) (n : ℕ) (t : Table)
    → get_job none id (update_job_state none now key s p e n t).1 ≡ (
        if text_eq key id
        then map_found (restated now s p e n) (get_job none id t)
        else get_job none id t)
unfolding get_job update_job_state
get_job-update_job_state id key now s p e n t = elim (Option-cases (find_row id t)) [
  | inl no_row ↦ ground (arith, find_row-update_rows id key (set_state now s p e n) t (λ r. refl))
  | inr (r, row) ↦ elim (Answer-cases (scan r)) [
    | inl (j, h) ↦ ground (
      arith,
      h,
      find_row-update_rows id key (set_state now s p e n) t (λ r. refl),
      scan-set_state now s p e n r,
    )
    | inr (m, h) ↦ ground (
      arith,
      h,
      find_row-update_rows id key (set_state now s p e n) t (λ r. refl),
      scan-set_state now s p e n r,
    )
  ]
]

-- A job that is saved, its details through their JSON, reads back as it was, but for the time of the write and, when the table already
-- had the job, the time at which it was first received; the other jobs read as before.
pub saved_job_reads_back :
    (now : ℕ) (j : InternalJob) (t : Table)
    → let t' = (save_job none now (from_internal_job j) t).1 in
      ((r : JobRecord) × (get_job none j.job_details.id t' ≡ Fetched.found r)
        × (to_internal_job r ≡ record j {
          updated_at = now;
          received_at = received_of j.job_details.id j.received_at t;
        }))
      × ((id : String) → id ≢ j.job_details.id → get_job none id t' ≡ get_job none id t)
unfolding from_internal_job to_internal_job
saved_job_reads_back now j t = (
  (
    kept now (from_internal_job j) t,
    ground (
      arith,
      eq_iff j.job_details.id j.job_details.id,
      get_job-save_job j.job_details.id now (from_internal_job j) t,
    ),
    ground arith,
  ),
  λ id ne.
      ground (arith, eq_iff j.job_details.id id, get_job-save_job id now (from_internal_job j) t),
)
