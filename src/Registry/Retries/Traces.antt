-- ===== src/Registry/Retries/Traces.antt =====
-- What a run of WithRetry is: its calls, its verdict and its delays.
use dantegpu_core.Prelude.{
  ℕ, zero, suc, ◌+◌, ◌≤◌, ◌<◌, ℤ, pos, negsuc, [], none, some, true, false, ◌≡◌, ◌≢◌, refl, sym,
  ◌⊎◌, inl, inr, arith, Unicode, All, length, Bool-cases, Option-cases,
}
use mathlib.Core.Path.{subst}
use dantegpu_core.Registry.Retries.{
  OperationError, RetryConfig, is_transient_error, Verdict, Run, Outside, attempts, with_retry,
  next_delay, slept,
}

module _ ⦃u : Unicode⦄ (outside : Outside) where
  -- A call that failed in passing, and the sleep after it was not cut off.
  unfoldable pub WasRetried : ℕ → Type 0
  WasRetried i =
      (e : OperationError) × ((outside.call i ≡ some e)
        × ((is_transient_error e ≡ true) × (outside.done i ≡ false)))

  -- How the last call explains the verdict.
  unfoldable pub Explains : ℕ → ℕ → Verdict → Type 0
  Explains most calls Verdict.succeeded = outside.call calls ≡ none
  Explains most calls (Verdict.gave_up e) =
      (outside.call calls ≡ some e) × ((is_transient_error e ≡ false) ⊎ (calls ≡ most))
  Explains most calls Verdict.cancelled =
      (calls < most)
      × ((e : OperationError) × ((outside.call calls ≡ some e)
            × ((is_transient_error e ≡ true) × (outside.done calls ≡ true))))
  Explains most calls Verdict.never_ran = ⊥

  -- A run from one attempt to a last one at most.
  unfoldable pub IsRun : ℕ → ℕ → Run → Type 0
  IsRun first most r =
      (first ≤ r.calls)
      × ((r.calls ≤ most)
          × (((i : ℕ) → first ≤ i → i < r.calls → WasRetried i)
              × (Explains most r.calls r.verdict × (length r.delays + first ≡ r.calls))))

sign_cases : (z : ℤ) → (z ≡ pos 0) ⊎ (((n : ℕ) × (z ≡ pos (suc n))) ⊎ ((n : ℕ) × (z ≡ negsuc n)))
sign_cases (pos zero) = inl refl
sign_cases (pos (suc n)) = inr (inl (n, refl))
sign_cases (negsuc n) = inr (inr (n, refl))

at_or_after : (m n : ℕ) → m ≤ n → (n ≡ m) ⊎ (suc m ≤ n)
at_or_after m n h = ground arith

module _ ⦃u : Unicode⦄ (config : RetryConfig) (outside : Outside) where
  IsRun-longer :
      (first most : ℕ) (delay : ℕ) (r : Run)
      → WasRetried outside first
      → IsRun outside (suc first) most r
      → IsRun outside first most (slept delay r)
  unfolding IsRun slept
  IsRun-longer first most delay r h (a, (b, (c, (x, l)))) = (
    omega (arith, a),
    (
      b,
      (
        (λ i p q. elim (at_or_after first i p) [
          | inl e ↦ subst (WasRetried outside) (sym e) h
          | inr k ↦ c i k q
        ]),
        (x, omega (arith, l)),
      ),
    ),
  )

  IsRun-ends :
      (first most : ℕ) (v : Verdict)
      → first ≤ most
      → Explains outside most first v
      → IsRun outside first most (record { verdict = v; calls = first; delays = [] })
  unfolding IsRun
  IsRun-ends first most v h x =
      (omega arith, (h, ((λ i p q. absurd (omega (arith, p, q))), (x, omega arith))))

  attempts-IsRun :
      (left first delay most : ℕ)
      → left + first ≡ most
      → IsRun outside first most (attempts config outside left first delay)
  unfolding attempts Explains WasRetried
  attempts-IsRun zero first delay most m = elim (Option-cases (outside.call first)) [
    | inl c ↦ rw (attempts, c) (IsRun-ends first most Verdict.succeeded (omega (arith, m)) c)
    | inr (e, c) ↦
        rw (attempts, c)
          (IsRun-ends first most (Verdict.gave_up e) (omega (arith, m)) (c, inr (omega (arith, m))))
  ]
  attempts-IsRun (suc left) first delay most m = elim (Option-cases (outside.call first)) [
    | inl c ↦ rw (attempts, c) (IsRun-ends first most Verdict.succeeded (omega (arith, m)) c)
    | inr (e, c) ↦ elim (Bool-cases (is_transient_error e)) [
      | inr t ↦
          rw (attempts, c, t)
            (IsRun-ends first most (Verdict.gave_up e) (omega (arith, m)) (c, inl t))
      | inl t ↦ elim (Bool-cases (outside.done first)) [
        | inl k ↦
            rw (attempts, c, t, k)
              (IsRun-ends first most Verdict.cancelled (omega (arith, m))
                (omega (arith, m), (e, (c, (t, k)))))
        | inr k ↦
            rw (attempts, c, t, k)
              (IsRun-longer first most delay
                (attempts config outside left (suc first) (next_delay config delay))
                (e, (c, (t, k)))
                (attempts-IsRun left (suc first) (next_delay config delay) most (omega (arith, m))))
      ]
    ]
  ]

  attempts-delays :
      (left first delay : ℕ)
      → delay ≤ config.max_delay
      → All (λ n. n ≤ config.max_delay) (attempts config outside left first delay).delays
  unfolding attempts slept next_delay
  attempts-delays zero first delay h = ground arith
  attempts-delays (suc left) first delay h =
      ground (arith, attempts-delays left (suc first) (next_delay config delay) (ground arith))

  -- With a positive number of attempts WithRetry calls the operation at least once and at most that often. Every
  -- call but the last failed in passing; it succeeds when the last call does, gives up on an
  -- error that does not pass or at the last attempt, and is cancelled only between attempts. It
  -- sleeps once between two calls, and no delay before its jitter exceeds the maximum if the initial one does not.
  pub with_retry-IsRun :
      (most : ℕ)
      → config.max_attempts ≡ pos (suc most)
      → config.initial_delay ≤ config.max_delay
      → IsRun outside 1 (suc most) (with_retry config outside)
        × All (λ n. n ≤ config.max_delay) (with_retry config outside).delays
  unfolding with_retry
  with_retry-IsRun most e h = rw e (
    attempts-IsRun most 1 config.initial_delay (suc most) (omega arith),
    attempts-delays most 1 config.initial_delay h,
  )

  -- Without a positive number of attempts WithRetry never calls the operation and still answers an error.
  with_retry-never_ran :
      ((most : ℕ) → config.max_attempts ≢ pos (suc most))
      → ((with_retry config outside).verdict ≡ Verdict.never_ran)
        × ((with_retry config outside).calls ≡ 0)
  unfolding with_retry
  with_retry-never_ran h = elim (sign_cases config.max_attempts) [
    | inl e ↦ rw (with_retry, e) (refl, refl)
    | inr (inl (n, e)) ↦ absurd (h n e)
    | inr (inr (n, e)) ↦ rw (with_retry, e) (refl, refl)
  ]
