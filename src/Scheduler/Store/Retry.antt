-- ===== src/Scheduler/Store/Retry.antt =====
-- `GetRetryableJobs` and `GetJobsByState`: which jobs they return, and in which order.
use mathlib.Core.List.{Perm}
use mathlib.Core.List.Perm
use dantegpu_core.Prelude.{
  ℕ, ◌≤◌, ◌<◌, List, [], ◌++◌, Bool, true, false, not, ◌≡◌, ◌≢◌, refl, ◌⊎◌, ◌≤ℤ◌, arith, Answer,
  filter, take, drop, All, All-take, All-drop, All-filter, length, length-take-le, length-take_full,
  filter-perm, take-append-drop, sort, sort-perm, sort-All, sort-Ordered, Ordered, Ordered-take,
  Ordered-take-drop,
}
use dantegpu_core.Scheduler.Models.{JobState, JobRecord}
use dantegpu_core.Scheduler.Store.{JobRow, Table, scan_rows, state_eq, older, get_jobs_by_state}

-- A selection of a table: what is chosen and what is left are due, what is out is not; the
-- chosen are in order and stand before those left; and jobs are left only when the limit is used up.
pub record Selection (Due : JobRow → Type 0) (Before : JobRow → JobRow → Type 0) (limit : ℕ)
    (t : Table) (answer : Answer (List JobRecord)) : Type 0 where
  pub chosen : List JobRow
  pub left : List JobRow
  pub out : List JobRow
  pub is_answer : answer ≡ scan_rows chosen
  pub is_table : Perm ((chosen ++ left) ++ out) t
  pub chosen_due : All Due chosen
  pub left_due : All Due left
  pub out_undue : All (λ r. ¬ Due r) out
  pub in_order : Ordered Before chosen
  pub ahead : All (λ a. All (Before a) left) chosen
  pub within : length chosen ≤ limit
  pub filled : left ≢ [] → length chosen ≡ limit

module _ (Due : JobRow → Type 0) (test : JobRow → Bool)
    (sound : (r : JobRow) → test r ≡ true → Due r)
    (complete : (r : JobRow) → not (test r) ≡ true → ¬ Due r) (Before : JobRow → JobRow → Type 0)
    (le : JobRow → JobRow → Bool) (yes_le : (a b : JobRow) → le a b ≡ true → Before a b)
    (no_le : (a b : JobRow) → le a b ≡ false → Before b a)
    (trans : (a b c : JobRow) → Before a b → Before b c → Before a c) where
  -- `WHERE test ORDER BY le LIMIT limit`
  select_lem :
      (limit : ℕ) (t : Table)
      → Selection Due Before limit t (scan_rows (take limit (sort le (filter test t))))
  select_lem limit t =
      let rows = filter test t in
      let sorted = sort le rows in
      let due = sort-All Due le rows (All-filter Due test sound t) in
      record {
        chosen = take limit sorted;
        left = drop limit sorted;
        out = filter (λ r. not (test r)) t;
        is_answer = refl;
        is_table = rw (take-append-drop limit (sort le (filter test t))) (
            Perm.trans (Perm.append (sort-perm le rows) (Perm.refl (filter (λ r. not (test r)) t)))
              (filter-perm test t));
        chosen_due = All-take Due limit sorted due;
        left_due = All-drop Due limit sorted due;
        out_undue = All-filter (λ r. ¬ Due r) (λ r. not (test r)) complete t;
        in_order =
            Ordered-take Before limit sorted (sort-Ordered le Before yes_le no_le trans rows);
        ahead =
            Ordered-take-drop Before limit sorted (sort-Ordered le Before yes_le no_le trans rows);
        within = length-take-le limit sorted;
        filled = length-take_full limit sorted;
      }

-- The jobs that are to be tried again.
abbrev pub DueAgain : JobRow → Type 0
DueAgain r =
    (r.state ≡ JobState.pending)
    ⊎ (r.state ≡ JobState.searching)
    ⊎ ((r.state ≡ JobState.failed) × (r.attempts < 3))

-- A higher priority goes first, and of two equal ones the older update.
abbrev pub TriedBefore : JobRow → JobRow → Type 0
TriedBefore a b =
    (b.priority ≤ℤ a.priority) × (a.priority ≤ℤ b.priority → a.updated_at ≤ b.updated_at)

abbrev pub NotNewer : JobRow → JobRow → Type 0
NotNewer a b = a.updated_at ≤ b.updated_at

state_eq_sound : (a b : JobState) → state_eq a b ≡ true → a ≡ b
state_eq_sound JobState.pending b h = ground arith
state_eq_sound _ b h = ground arith

state_eq_complete : (a b : JobState) → a ≡ b → state_eq a b ≡ true
state_eq_complete JobState.pending b h = ground arith
state_eq_complete _ b h = ground arith

-- `GetJobsByState` returns, within the limit, the jobs of the state that were updated the longest ago.
pub get_jobs_by_state-Selection :
    (s : JobState) (limit : ℕ) (t : Table)
    → Selection (λ r. r.state ≡ s) NotNewer limit t (get_jobs_by_state s limit t)
unfolding get_jobs_by_state
get_jobs_by_state-Selection s =
    select_lem (λ r. r.state ≡ s) (λ r. state_eq r.state s) (λ r h. state_eq_sound r.state s h)
      (λ r h d. ground (arith, state_eq_complete r.state s d)) NotNewer older
      (λ a b h. ground arith) (λ a b h. ground arith) (λ a b c h k. omega arith)
