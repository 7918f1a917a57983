-- ===== src/Scheduler/Store/Table.antt =====
-- The statements of the job store on the table, against lookup by the primary key.
use dantegpu_core.Prelude.{
  String, [], ◌∷◌, none, some, if◌then◌else◌, text_eq, ◌≡◌, refl, arith, eq_iff,
}
use mathlib.Core.Option
use dantegpu_core.Scheduler.Models.{InternalJob, to_internal_job, from_internal_job}
use dantegpu_core.Scheduler.Store.{JobRow, Table, upsert, find_row, update_rows, of_null, to_null}

-- The row that an upsert leaves under its key.
abbrev pub merged : JobRow → Table → JobRow
merged new t = elim (find_row new.job_id t) [
  | none ↦ new
  | some old ↦ record new { received_at = old.received_at }
]

pub find_row-upsert :
    (id : String) (new : JobRow) (t : Table)
    → find_row id (upsert new t)
      ≡ (if text_eq new.job_id id then some (merged new t) else find_row id t)
unfolding upsert
find_row-upsert id new [] = refl
find_row-upsert id new (r ∷ t) = ground (
  arith,
  eq_iff r.job_id new.job_id,
  eq_iff r.job_id id,
  eq_iff new.job_id id,
  find_row-upsert id new t,
)

pub find_row-update_rows :
    (id key : String) (f : JobRow → JobRow) (t : Table)
    → ((r : JobRow) → (f r).job_id ≡ r.job_id)
    → find_row id (update_rows key f t)
      ≡ (if text_eq key id then Option.map f (find_row id t) else find_row id t)
unfolding update_rows
find_row-update_rows id key f [] keep = ground arith
find_row-update_rows id key f (r ∷ t) keep = ground (
  arith,
  keep r,
  eq_iff r.job_id key,
  eq_iff r.job_id id,
  eq_iff key id,
  eq_iff (f r).job_id id,
  find_row-update_rows id key f t keep,
)

pub of_null-to_null : (s : String) → of_null (to_null s) ≡ s
of_null-to_null s = ground (arith, eq_iff s "")

-- A job that becomes a record and comes back is the same job.
pub to_internal_job-from_internal_job :
    (j : InternalJob) → to_internal_job (from_internal_job j) ≡ j
unfolding to_internal_job from_internal_job
to_internal_job-from_internal_job j = ground arith
