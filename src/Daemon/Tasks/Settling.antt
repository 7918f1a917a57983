-- ===== src/Daemon/Tasks/Settling.antt =====
-- Goroutines of a handler that go on one action at a time.
use dantegpu_core.Prelude.{
  ℕ, zero, suc, String, List, [], ◌∷◌, Option, none, some, true, false, ◌≡◌, refl, ◌⊎◌, inl, inr,
  text_eq, eq_iff, length, arith,
}
use mathlib.Core.Path.{ap}
use dantegpu_core.Daemon.Tasks.{
  Task, Action, Setup, Goroutine, Taken, Handler, report_task_status, perform, kept, next_of, act,
  take_action, advance,
}
use dantegpu_core.Daemon.Tasks.Tracking.{
  is_active, any_ends, is_awaited, IsTracked, Step, Reachable, left, TookFrom, take_action-TookFrom,
  and_false, Reachable-IsTracked,
}

no_ends : (actions : List Action) → length actions ≡ 0 → any_ends actions ≡ false
unfolding any_ends
no_ends [] h = refl
no_ends (a ∷ rest) h = absurd (omega (arith, h))

none_awaited : (id : String) (gs : List Goroutine) → left gs ≡ 0 → is_awaited id gs ≡ false
unfolding left is_awaited
none_awaited id [] h = refl
none_awaited id (g ∷ gs) h =
    rw
      (
        no_ends g.actions (omega (arith, h)),
        none_awaited id gs (omega (arith, h)),
        and_false (text_eq g.task.job_id id),
      )
      refl

none_active :
    (jobs : List (String × Task)) → ((id : String) → is_active id jobs ≡ false) → jobs ≡ []
unfolding is_active
none_active [] h = refl
none_active (entry ∷ rest) h = ground (arith, h entry.0, eq_iff entry.0 entry.0)

next_or_none :
    (t : Task) (actions : List Action) (gs : List Goroutine)
    → (length actions ≡ 0) ⊎ ((r : Taken) × (next_of t actions gs ≡ some r))
unfolding next_of
next_or_none t [] gs = inl refl
next_or_none t (a ∷ rest) gs = inr (((t, a), record { task = t; actions = rest } ∷ gs), refl)

-- Where an action is left, some goroutine has one.
can_take :
    (gs : List Goroutine) → (left gs ≡ 0) ⊎ ((i : ℕ) × ((r : Taken) × (take_action i gs ≡ some r)))
unfolding left take_action kept
can_take [] = inl refl
can_take (g ∷ gs) = elim (next_or_none g.task g.actions gs) [
  | inr (r, e) ↦ inr (0, (r, e))
  | inl z ↦ elim (can_take gs) [
    | inl l ↦ inl (omega (arith, z, l))
    | inr (i, (r, e)) ↦ inr (suc i, ((r.0, g ∷ r.1), ap (kept g) e))
  ]
]

perform-running :
    (c : Setup) (now : ℕ) (t : Task) (a : Action) (h : Handler)
    → (perform c now t a h).running ≡ h.running
unfolding perform report_task_status
perform-running c now t (Action.report s m e l) h = ground arith
perform-running c now t (Action.stop_billing i r) h = refl
perform-running c now t (Action.remove_workspace p) h = refl

act-left :
    (c : Setup) (now : ℕ) (h : Handler) (o : Option Taken) (r : Taken)
    → o ≡ some r
    → TookFrom h.running o
    → left h.running ≡ suc (left (act c now h o).running)
unfolding act TookFrom
act-left c now h none r e w = ground (arith, e)
act-left c now h (some ((t, a), later)) r e w =
    rw (perform-running c now t a (record h { running = later })) w.1

module _ (c : Setup) (now : ℕ) where
  -- Goroutines go on in this order.
  unfoldable pub runs : List ℕ → Handler → Handler
  unfolding advance
  runs [] h = h
  runs (i ∷ rest) h = runs rest (advance c now i h)

  settles_in :
      (n : ℕ) (h : Handler)
      → left h.running ≡ n
      → (order : List ℕ) × ((length order ≡ n) × (left (runs order h).running ≡ 0))
  unfolding runs advance
  settles_in zero h e = ([], (refl, e))
  settles_in (suc n) h e = elim (can_take h.running) [
    | inl z ↦ absurd (omega (arith, z, e))
    | inr (i, (r, t)) ↦
        let less =
          act-left c now h (take_action i h.running) r t (take_action-TookFrom i h.running) in
        let (order, (l, z)) =
          settles_in n (act c now h (take_action i h.running)) (omega (arith, e, less)) in
        (i ∷ order, (omega (arith, l), z))
  ]

  runs-Reachable : (order : List ℕ) (h : Handler) → Reachable c h → Reachable c (runs order h)
  unfolding runs
  runs-Reachable [] h r = r
  runs-Reachable (i ∷ rest) h r =
      runs-Reachable rest (advance c now i h) (Reachable.steps r (Step.goes_on now i))

  -- With a reporter, from every state that a handler reaches the goroutines can go on until none has an action
  -- left, in as many steps as there are actions, and then no job is active: every accepted task has reported its end.
  pub settles :
      (h : Handler)
      → c.has_reporter ≡ true
      → Reachable c h
      → (order : List ℕ) × ((length order ≡ left h.running)
          × ((left (runs order h).running ≡ 0) × ((runs order h).active_jobs ≡ [])))
  unfolding IsTracked
  settles h r p =
      let (order, (l, z)) = settles_in (left h.running) h refl in
      let last = runs order h in
      let tracked = Reachable-IsTracked c last r (runs-Reachable order h p) in
      (
        order,
        (
          l,
          (
            z,
            none_active last.active_jobs
                (λ id. ground (arith, tracked id, none_awaited id last.running z)),
          ),
        ),
      )
