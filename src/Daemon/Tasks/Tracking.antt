-- ===== src/Daemon/Tasks/Tracking.antt =====
-- Which jobs are active while the goroutines interleave.
use dantegpu_core.Prelude.{
  ℕ, zero, suc, ◌+◌, String, List, [], ◌∷◌, Option, none, some, Bool, true, false, ◌&&◌, ◌||◌, ◌≡◌,
  refl, inl, inr, Bool-cases, text_eq, eq_iff, length, arith, Answer-cases,
}
use mathlib.Core.Path.{subst}
use dantegpu_core.Daemon.Tasks.{
  Task, Action, Setup, Run, is_terminal, Goroutine, Taken, Handler, new_handler, forget,
  report_task_status, perform, kept, next_of, act, result_of, is_offline, spawn, handle_task,
  take_action, advance, run_task,
}
use dantegpu_core.Daemon.Tasks.Runs.{final-cases}

-- `activeJobs` has an entry under the key.
unfoldable pub is_active : String → List (String × Task) → Bool
is_active id [] = false
is_active id (entry ∷ rest) = text_eq entry.0 id || is_active id rest

-- An action that reports an end.
unfoldable pub ends : Action → Bool
unfolding is_terminal
ends (Action.report status message exit_code log) = is_terminal status
ends (Action.stop_billing id reason) = false
ends (Action.remove_workspace path) = false

unfoldable pub any_ends : List Action → Bool
unfolding ends
any_ends [] = false
any_ends (a ∷ rest) = ends a || any_ends rest

-- A goroutine of the job still has to report its end.
unfoldable pub is_awaited : String → List Goroutine → Bool
unfolding any_ends
is_awaited id [] = false
is_awaited id (g ∷ gs) = (text_eq g.task.job_id id && any_ends g.actions) || is_awaited id gs

-- Every active job has a goroutine that will report its end.
unfoldable pub IsTracked : Handler → Type 0
IsTracked h = (id : String) → is_active id h.active_jobs ≡ true → is_awaited id h.running ≡ true

-- What can happen to a handler.
pub data Step (c : Setup) (h : Handler) : Handler → Type 0 where
  receives : (r : Run) (t : Task) → Step c h (handle_task c r t h).0
  goes_on : (now i : ℕ) → Step c h (advance c now i h)

pub data Reachable (c : Setup) : Handler → Type 0 where
  starts : Reachable c new_handler
  steps : {h k : Handler} → Reachable c h → Step c h k → Reachable c k

-- The actions that are left to do.
unfoldable pub left : List Goroutine → ℕ
left [] = 0
left (g ∷ gs) = length g.actions + left gs

forget-kept :
    (id j : String) (jobs : List (String × Task))
    → is_active id (forget j jobs) ≡ true
    → is_active id jobs ≡ true
unfolding is_active forget
forget-kept id j [] h = h
forget-kept id j (entry ∷ rest) h = ground (arith, forget-kept id j rest)

forget-gone : (j : String) (jobs : List (String × Task)) → is_active j (forget j jobs) ≡ false
unfolding is_active forget
forget-gone j [] = refl
forget-gone j (entry ∷ rest) = elim (Bool-cases (text_eq entry.0 j)) [
  | inl e ↦ rw e (forget-gone j rest)
  | inr e ↦ rw (e, e) (forget-gone j rest)
]

pub forget-gone_same :
    (j id : String) (jobs : List (String × Task))
    → text_eq j id ≡ true
    → is_active id (forget j jobs) ≡ false
forget-gone_same j id jobs h =
    subst (λ k. is_active k (forget j jobs) ≡ false) ((eq_iff j id).0 h) (forget-gone j jobs)

run_task-ends : (c : Setup) (r : Run) (t : Task) → any_ends (run_task c r t) ≡ true
unfolding run_task any_ends
run_task-ends c r t = elim (Answer-cases r.workspace) [
  | inr (e, w) ↦ rw (run_task, w) refl
  | inl (path, w) ↦ elim (final-cases (result_of c r t.execution_type)) [
    | inl (s, f) ↦ rw (run_task, w, f) refl
    | inr (s, f) ↦ rw (run_task, w, f) refl
  ]
]

-- What taking an action leaves.
unfoldable pub TookFrom : List Goroutine → Option Taken → Type 0
TookFrom gs none = Unit
TookFrom gs (some ((t, a), later)) =
    ((id : String) → is_awaited id gs ≡ ((text_eq t.job_id id && ends a) || is_awaited id later))
    × (left gs ≡ suc (left later))

split_ends : (p e r w : Bool) → ((p && (e || r)) || w) ≡ ((p && e) || ((p && r) || w))
split_ends p e r w = ground arith

past : (p q w : Bool) → (p || (q || w)) ≡ (q || (p || w))
past p q w = ground arith

kept-TookFrom :
    (g : Goroutine) (gs : List Goroutine) (o : Option Taken)
    → TookFrom gs o
    → TookFrom (g ∷ gs) (kept g o)
unfolding TookFrom kept is_awaited left
kept-TookFrom g gs none h = tt
kept-TookFrom g gs (some ((t, a), later)) h = (
  (λ id. rw (h.0 id) (
      past (text_eq g.task.job_id id && any_ends g.actions) (text_eq t.job_id id && ends a)
        (is_awaited id later))),
  omega (arith, h.1),
)

next_of-TookFrom :
    (t : Task) (actions : List Action) (gs : List Goroutine)
    → TookFrom (record { task = t; actions = actions } ∷ gs) (next_of t actions gs)
unfolding TookFrom next_of is_awaited left any_ends
next_of-TookFrom t [] gs = tt
next_of-TookFrom t (a ∷ rest) gs = (
  (λ id. split_ends (text_eq t.job_id id) (ends a) (any_ends rest) (is_awaited id gs)),
  omega arith,
)

pub take_action-TookFrom : (i : ℕ) (gs : List Goroutine) → TookFrom gs (take_action i gs)
unfolding TookFrom take_action
take_action-TookFrom i [] = tt
take_action-TookFrom zero (g ∷ gs) = next_of-TookFrom g.task g.actions gs
take_action-TookFrom (suc i) (g ∷ gs) =
    kept-TookFrom g gs (take_action i gs) (take_action-TookFrom i gs)

-- What is awaited before an action that ends no job of this key is awaited after it.
later_awaits : (p e w x : Bool) → x ≡ ((p && e) || w) → x ≡ true → (p && e) ≡ false → w ≡ true
later_awaits p e w x h k z = ground arith

pub and_false : (p : Bool) → (p && false) ≡ false
and_false p = ground arith

perform-IsTracked :
    (c : Setup) (now : ℕ) (t : Task) (a : Action) (h : Handler) (later : List Goroutine)
    → c.has_reporter ≡ true
    → IsTracked h
    → ((id : String)
        → is_awaited id h.running ≡ ((text_eq t.job_id id && ends a) || is_awaited id later))
    → IsTracked (perform c now t a (record h { running = later }))
unfolding IsTracked perform report_task_status ends
perform-IsTracked c now t (Action.report s m e l) h later r k w id =
    elim (Bool-cases (is_terminal s)) [
      | inl z ↦ elim (Bool-cases (text_eq t.job_id id)) [
        | inl same ↦
            rw (report_task_status, r, z)
              (λ x. ground (arith, forget-gone_same t.job_id id h.active_jobs same, x))
        | inr other ↦
            rw (report_task_status, r, z)
              (λ x.
                later_awaits (text_eq t.job_id id) (is_terminal s) (is_awaited id later)
                  (is_awaited id h.running) (w id) (k id (forget-kept id t.job_id h.active_jobs x))
                  (rw other refl))
      ]
      | inr z ↦
          rw (report_task_status, r, z)
            (λ x.
              later_awaits (text_eq t.job_id id) (is_terminal s) (is_awaited id later)
                (is_awaited id h.running) (w id) (k id x) (rw z (and_false (text_eq t.job_id id))))
    ]
perform-IsTracked c now t (Action.stop_billing i x) h later r k w id = λ y.
    later_awaits (text_eq t.job_id id) false (is_awaited id later) (is_awaited id h.running) (w id)
      (k id y) (and_false (text_eq t.job_id id))
perform-IsTracked c now t (Action.remove_workspace p) h later r k w id = λ y.
    later_awaits (text_eq t.job_id id) false (is_awaited id later) (is_awaited id h.running) (w id)
      (k id y) (and_false (text_eq t.job_id id))

act-IsTracked :
    (c : Setup) (now : ℕ) (h : Handler) (o : Option Taken)
    → c.has_reporter ≡ true
    → IsTracked h
    → TookFrom h.running o
    → IsTracked (act c now h o)
unfolding act TookFrom
act-IsTracked c now h none r k w = k
act-IsTracked c now h (some ((t, a), later)) r k w = perform-IsTracked c now t a h later r k w.0

handle_task-IsTracked :
    (c : Setup) (r : Run) (t : Task) (h : Handler) → IsTracked h → IsTracked (handle_task c r t h).0
unfolding handle_task spawn IsTracked is_active is_awaited any_ends
handle_task-IsTracked c r t h k id = elim (Bool-cases (is_offline r)) [
  | inl o ↦ rw (handle_task, o) (λ x. ground (arith, k id x))
  | inr o ↦
      rw (handle_task, o)
        (λ x. ground (arith, run_task-ends c r t, k id, forget-kept id t.job_id h.active_jobs, x))
]

module _ (c : Setup) where
  -- With a reporter, in every state that a handler reaches each active job has a goroutine that still has to report
  -- the job's end, also where a job comes again while it runs.
  pub Reachable-IsTracked : (h : Handler) → c.has_reporter ≡ true → Reachable c h → IsTracked h
  unfolding IsTracked new_handler is_active advance
  Reachable-IsTracked h r Reachable.starts = λ id x. ground (arith, x)
  Reachable-IsTracked k r (Reachable.steps {h} p (Step.receives run t)) =
      handle_task-IsTracked c run t h (Reachable-IsTracked h r p)
  Reachable-IsTracked k r (Reachable.steps {h} p (Step.goes_on now i)) =
      act-IsTracked c now h (take_action i h.running) r (Reachable-IsTracked h r p)
        (take_action-TookFrom i h.running)
