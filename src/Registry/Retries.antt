-- ===== src/Registry/Retries.antt =====
-- services/provider-registry-service/internal/retryer/retryer.go. Durations are in nanoseconds. The floating-point
-- factors of the delays are functions of the configuration.

pub mod Traces
use dantegpu_core.Prelude.{
  ℕ, zero, suc, ◌+◌, ℤ, pos, negsuc, String, List, [], ◌∷◌, Option, none, some, Bool, true, false,
  not, ◌&&◌, ◌||◌, if◌then◌else◌, ltb, ◌==◌, Unicode, codes, has_prefix, contains, to_lower,
  codes_eq,
}

-- An error of an operation: the SQLSTATE where it wraps a `pgconn.PgError`, and its text.
pub record OperationError : Type 0 where
  pub code : Option String
  pub text : String

-- `DatabaseRetryConfig`
pub record RetryConfig : Type 0 where
  pub max_attempts : ℤ
  pub initial_delay : ℕ
  pub max_delay : ℕ
  -- `delay * BackoffFactor`
  pub backoff : ℕ → ℕ
  -- the jitter for a delay and an attempt
  pub jitter : ℕ → ℕ → ℕ

-- The SQLSTATEs that are worth another attempt.
unfoldable pub transient_code : String → Bool
transient_code code =
    has_prefix (codes code) (codes "08")
    || has_prefix (codes code) (codes "57")
    || has_prefix (codes code) (codes "53")
    || codes_eq (codes code) (codes "40P01")
    || codes_eq (codes code) (codes "40001")

module _ ⦃u : Unicode⦄ where
  -- `IsTransientError` of an error
  unfoldable pub is_transient_error : OperationError → Bool
  unfolding transient_code
  is_transient_error e =
      (elim e.code [ none ↦ false | some code ↦ transient_code code ])
      || (contains (to_lower e.text) (codes "connection")
          && (contains (to_lower e.text) (codes "reset")
              || contains (to_lower e.text) (codes "closed")
              || contains (to_lower e.text) (codes "refused")
              || contains (to_lower e.text) (codes "timeout")))

-- What `WithRetry` answers; `never_ran` is the error after the loop, which wraps no error.
pub data Verdict : Type 0 where
  succeeded never_ran cancelled : Verdict
  gave_up : OperationError → Verdict

-- A run: the verdict, the calls of the operation, and the delays slept, without the jitter.
pub record Run : Type 0 where
  pub verdict : Verdict
  pub calls : ℕ
  pub delays : List ℕ

-- `delay` for the next attempt.
unfoldable pub next_delay : RetryConfig → ℕ → ℕ
next_delay config delay =
    if ltb config.max_delay (config.backoff delay) then config.max_delay else config.backoff delay

-- What the operation and the context do: the error of the n-th call, none where it succeeds, and whether the
-- context is done before the sleep after it ends.
pub record Outside : Type 0 where
  pub call : ℕ → Option OperationError
  pub done : ℕ → Bool

unfoldable pub slept : ℕ → Run → Run
slept delay r = record r { delays = delay ∷ r.delays }

module _ ⦃u : Unicode⦄ (config : RetryConfig) (outside : Outside) where
  -- The loop, with so many attempts left after this one.
  unfoldable pub attempts : ℕ → ℕ → ℕ → Run
  unfolding next_delay slept is_transient_error
  attempts zero attempt delay = elim (outside.call attempt) [
    | none ↦ record { verdict = succeeded; calls = attempt; delays = [] }
    | some e ↦ record { verdict = gave_up e; calls = attempt; delays = [] }
  ]
  attempts (suc left) attempt delay =
      let rest = attempts left (suc attempt) (next_delay config delay) in
      elim (outside.call attempt) [
        | none ↦ record { verdict = succeeded; calls = attempt; delays = [] }
        | some e ↦
            if not (is_transient_error e)
            then record { verdict = gave_up e; calls = attempt; delays = [] }
            else if outside.done attempt
            then record { verdict = cancelled; calls = attempt; delays = [] }
            else slept delay rest
      ]

  -- `WithRetry`
  unfoldable pub with_retry : Run
  unfolding attempts
  with_retry = elim config.max_attempts [
    | pos zero ↦ record { verdict = never_ran; calls = 0; delays = [] }
    | pos (suc left) ↦ attempts left 1 config.initial_delay
    | negsuc n ↦ record { verdict = never_ran; calls = 0; delays = [] }
  ]
