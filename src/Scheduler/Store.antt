-- ===== src/Scheduler/Store.antt =====
-- services/scheduler-orchestrator-service/internal/store/postgres_jobstore.go: the `jobs` table and the
-- statements on it. A statement that the database refuses changes nothing: that is the `fault` that
-- an operation is given. The details of a job are kept as the JSON object that they are written as.
pub mod Table
pub mod Reads
pub mod Retry
use dantegpu_core.Prelude.{
  ℕ, String, append, List, [], ◌∷◌, Option, none, some, Bool, true, false, not, ◌&&◌, ◌||◌, ltb,
  ◌==◌, if◌then◌else◌, ℤ, ltb_ℤ, text_eq, filter, take, sort, Answer, ok, err,
}
use dantegpu_core.Scheduler.Models.{Job, JobState, JobRecord}
use dantegpu_core.Scheduler.Details.{Details, marshal_details, unmarshal_details}

-- `sql.NullString{String: s, Valid: s != ""}`, and the reading back.
abbrev pub to_null : String → Option String
to_null s = if text_eq s "" then none else some s

abbrev pub of_null : Option String → String
of_null none = ""
of_null (some s) = s

-- A row of `jobs`.
pub record JobRow : Type 0 where
  pub job_id : String
  pub user_id : String
  pub job_details : Details
  pub state : JobState
  pub provider_id : Option String
  pub attempts : ℕ
  pub last_error : Option String
  pub received_at : ℕ
  pub updated_at : ℕ
  pub submitted_at : ℕ
  pub job_name : String
  pub job_type : String
  pub gpu_type : String
  pub priority : ℤ

abbrev pub Table : Type 0
Table = List JobRow

-- The columns of a row that is read, with its details.
abbrev pub columns : JobRow → Job → JobRecord
columns r details = record {
  job_id = r.job_id;
  user_id = r.user_id;
  job_details = details;
  state = r.state;
  provider_id = of_null r.provider_id;
  attempts = r.attempts;
  last_error = of_null r.last_error;
  received_at = r.received_at;
  updated_at = r.updated_at;
  submitted_at = r.submitted_at;
  job_name = r.job_name;
  job_type = r.job_type;
  gpu_type = r.gpu_type;
  priority = r.priority;
}

-- The `Scan` of a row in `GetJob` and `scanJobRows`, with the details read from their JSON.
unfoldable pub scan : JobRow → Answer JobRecord
scan r = elim (unmarshal_details r.job_details) [
  | ok details ↦ ok (columns r details)
  | err e ↦ err e
]

-- `scanJobRows`
unfoldable pub scan_rows : List JobRow → Answer (List JobRecord)
unfolding scan
scan_rows [] = ok []
scan_rows (r ∷ rows) =
    let rest = scan_rows rows in
    elim (scan r) [
      | ok job ↦ elim rest [ ok jobs ↦ ok (job ∷ jobs) | err e ↦ err e ]
      | err e ↦
          err (
            append (append (append "unmarshalling job_details for job " r.job_id) " from scan: ") e)
    ]

-- The row that `SaveJob` inserts; `now` is the new `UpdatedAt`.
unfoldable pub row : ℕ → JobRecord → JobRow
row now r = record {
  job_id = r.job_id;
  user_id = r.user_id;
  job_details = marshal_details r.job_details;
  state = r.state;
  provider_id = to_null r.provider_id;
  attempts = r.attempts;
  last_error = to_null r.last_error;
  received_at = r.received_at;
  updated_at = now;
  submitted_at = r.submitted_at;
  job_name = r.job_name;
  job_type = r.job_type;
  gpu_type = r.gpu_type;
  priority = r.priority;
}

-- `INSERT … ON CONFLICT (job_id) DO UPDATE`: the row in place keeps only its `received_at`.
unfoldable pub upsert : JobRow → Table → Table
upsert new [] = new ∷ []
upsert new (r ∷ t) =
    if text_eq r.job_id new.job_id
    then record new { received_at = r.received_at } ∷ t
    else r ∷ upsert new t

-- `SaveJob`
unfoldable pub save_job : Option String → ℕ → JobRecord → Table → Option String × Table
unfolding upsert row
save_job (some e) now r t = (some (append (append (append "saving job " r.job_id) ": ") e), t)
save_job none now r t = (none, upsert (row now r) t)

abbrev pub find_row : String → Table → Option JobRow
find_row id [] = none
find_row id (r ∷ t) = if text_eq r.job_id id then some r else find_row id t

-- What `GetJob` returns: a record, `nil, nil` for no row, or an error.
pub data Fetched : Type 0 where
  found : JobRecord → Fetched
  absent : Fetched
  failed : String → Fetched

-- `GetJob`
unfoldable pub get_job : Option String → String → Table → Fetched
unfolding scan
get_job (some e) id t = failed (append (append (append "getting job " id) ": ") e)
get_job none id t = elim (find_row id t) [
  | none ↦ absent
  | some r ↦ elim (scan r) [
    | ok job ↦ found job
    | err e ↦ failed (append (append (append "unmarshalling job_details for job " id) ": ") e)
  ]
]

abbrev pub set_state : ℕ → JobState → String → String → ℕ → JobRow → JobRow
set_state now state provider_id last_error attempts r = record r {
  state = state;
  provider_id = to_null provider_id;
  last_error = to_null last_error;
  attempts = attempts;
  updated_at = now;
}

unfoldable pub update_rows : String → (JobRow → JobRow) → Table → Table
update_rows id f [] = []
update_rows id f (r ∷ t) = (if text_eq r.job_id id then f r else r) ∷ update_rows id f t

-- `UpdateJobState`; that no row has the id is no error.
unfoldable pub update_job_state :
    Option String → ℕ → String → JobState → String → String → ℕ → Table → Option String × Table
unfolding update_rows
update_job_state (some e) now id state provider_id last_error attempts t =
    (some (append (append (append "updating job state for " id) ": ") e), t)
update_job_state none now id state provider_id last_error attempts t =
    (none, update_rows id (set_state now state provider_id last_error attempts) t)

-- `DeleteJob`
unfoldable pub delete_job : Option String → String → Table → Option String × Table
delete_job (some e) id t = (some (append (append (append "deleting job " id) ": ") e), t)
delete_job none id t = (none, filter (λ r. not (text_eq r.job_id id)) t)

abbrev pub state_eq : JobState → JobState → Bool
state_eq JobState.pending JobState.pending = true
state_eq JobState.searching JobState.searching = true
state_eq JobState.assigning JobState.assigning = true
state_eq JobState.dispatched JobState.dispatched = true
state_eq JobState.running JobState.running = true
state_eq JobState.completed JobState.completed = true
state_eq JobState.failed JobState.failed = true
state_eq JobState.cancelled JobState.cancelled = true
state_eq _ _ = false

-- `ORDER BY updated_at ASC`
abbrev pub older : JobRow → JobRow → Bool
older a b = not (ltb b.updated_at a.updated_at)

-- `GetJobsByState`. Rows that the order does not tell apart come in the table's order.
unfoldable pub get_jobs_by_state : JobState → ℕ → Table → Answer (List JobRecord)
unfolding scan_rows
get_jobs_by_state state limit t =
    scan_rows (take limit (sort older (filter (λ r. state_eq r.state state) t)))

-- The `WHERE` of `GetRetryableJobs`, with `maxAttempts` 3.
abbrev pub is_retryable : JobRow → Bool
is_retryable r =
    state_eq r.state JobState.pending
    || state_eq r.state JobState.searching
    || (state_eq r.state JobState.failed && ltb r.attempts 3)

-- `ORDER BY priority DESC, updated_at ASC`
abbrev pub first_to_retry : JobRow → JobRow → Bool
first_to_retry a b =
    ltb_ℤ b.priority a.priority
    || (not (ltb_ℤ a.priority b.priority) && not (ltb b.updated_at a.updated_at))

-- `GetRetryableJobs`
unfoldable pub get_retryable_jobs : ℕ → Table → Answer (List JobRecord)
unfolding scan_rows
get_retryable_jobs limit t = scan_rows (take limit (sort first_to_retry (filter is_retryable t)))
