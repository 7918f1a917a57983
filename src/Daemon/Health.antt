-- ===== src/Daemon/Health.antt =====
-- clients/provider-daemon/internal/gpu/health.go. What the detector answers is an argument of each check; durations
-- are in nanoseconds. The lock makes each operation one step.
use dantegpu_core.Prelude.{
  ℕ, zero, suc, ◌+◌, ◌%◌, ◌^◌, ◌≤◌, ◌<◌, ℤ, pos, negsuc, leb_ℤ, int64, List, [], ◌∷◌, ◌++◌, Option,
  none, some, Bool, true, false, not, ◌&&◌, if◌then◌else◌, leb, length, All, Answer, ok, err, ◌≡◌,
  refl, arith,
}

pub record HealthMonitor : Type 0 where
  pub interval : ℤ
  pub failure_threshold : ℤ
  pub healthy : Bool
  -- the 64 bits of the `int`
  pub consecutive_fails : ℕ
  -- none for the zero time
  pub last_check : Option ℕ
  pub last_gpu_count : ℕ

-- `NewHealthMonitor`
unfoldable pub new_health_monitor : ℤ → ℤ → HealthMonitor
new_health_monitor interval failure_threshold = record {
  interval = if leb_ℤ interval (pos 0) then pos 30000000000 else interval;
  failure_threshold = if leb_ℤ failure_threshold (pos 0) then pos 3 else failure_threshold;
  healthy = true;
  consecutive_fails = 0;
  last_check = none;
  last_gpu_count = 0;
}

-- The branch of `check` for an error or no GPU.
unfoldable pub failed_check : ℕ → HealthMonitor → HealthMonitor
failed_check now h =
    let fails = (h.consecutive_fails + 1) % 2 ^ 64 in
    record h {
      last_check = some now;
      consecutive_fails = fails;
      healthy = h.healthy && not (leb_ℤ h.failure_threshold (int64 fails));
    }

-- `Status`
unfoldable pub status : HealthMonitor → Bool × (ℕ × Option ℕ)
status h = (h.healthy, (h.last_gpu_count, h.last_check))

module _ {ℓ} {G : Type ℓ} where
  -- `check`, at the time after the detection
  unfoldable pub check : ℕ → Answer (List G) → HealthMonitor → HealthMonitor
  unfolding failed_check
  check now (err e) h = failed_check now h
  check now (ok []) h = failed_check now h
  check now (ok (g ∷ gs)) h = record h {
    last_check = some now;
    last_gpu_count = length (g ∷ gs);
    healthy = true;
    consecutive_fails = 0;
  }

  -- `Start`: one check at once and one for each tick, until the context is done.
  unfoldable pub start : List (ℕ × Answer (List G)) → HealthMonitor → HealthMonitor
  unfolding check
  start [] h = h
  start ((now, found) ∷ rest) h = start rest (check now found h)

  -- What counts as a failure: an error, or no GPU.
  unfoldable pub fails : Answer (List G) → Bool
  fails (err e) = true
  fails (ok []) = true
  fails (ok (g ∷ gs)) = false

  -- The failures since the last success, the count before the first check given.
  unfoldable pub failures : ℕ → List (ℕ × Answer (List G)) → ℕ
  unfolding fails
  failures k [] = k
  failures k ((now, found) ∷ rest) = failures (if fails found then k + 1 else 0) rest

-- The threshold that a monitor is made with: three where the argument is not positive.
unfoldable pub threshold_of : ℤ → ℕ
threshold_of (pos zero) = 3
threshold_of (pos (suc n)) = suc n
threshold_of (negsuc n) = 3

-- The monitor after so many failures since the last success.
unfoldable pub Agrees : ℕ → ℕ → HealthMonitor → Type 0
Agrees most k h =
    (h.failure_threshold ≡ pos most)
    × ((h.consecutive_fails ≡ k % 2 ^ 64) × (h.healthy ≡ not (leb most k)))

new_health_monitor-Agrees :
    (interval threshold : ℤ)
    → Agrees (threshold_of threshold) 0 (new_health_monitor interval threshold)
unfolding Agrees new_health_monitor threshold_of
new_health_monitor-Agrees i (pos zero) = (refl, (refl, refl))
new_health_monitor-Agrees i (pos (suc n)) = (ground arith, (refl, ground arith))
new_health_monitor-Agrees i (negsuc n) = (ground arith, (refl, refl))

still_healthy :
    (most k : ℕ)
    → most < 2 ^ 63
    → (not (leb most k) && not (leb_ℤ (pos most) (int64 ((k % 2 ^ 64 + 1) % 2 ^ 64))))
      ≡ not (leb most (k + 1))
still_healthy most k h = ground arith

failed_check-Agrees :
    (most k now : ℕ) (h : HealthMonitor)
    → most < 2 ^ 63
    → Agrees most k h
    → Agrees most (k + 1) (failed_check now h)
unfolding Agrees failed_check
failed_check-Agrees most k now h b (t, (c, o)) =
    (t, (rw c (omega arith), rw (t, c, o) (still_healthy most k b)))

threshold_of-positive : (t : ℤ) → 0 < threshold_of t
unfolding threshold_of
threshold_of-positive (pos zero) = omega arith
threshold_of-positive (pos (suc n)) = omega arith
threshold_of-positive (negsuc n) = omega arith

module _ {ℓ} {G : Type ℓ} where
  check-Agrees :
      (most k now : ℕ) (found : Answer (List G)) (h : HealthMonitor)
      → most < 2 ^ 63
      → 0 < most
      → Agrees most k h
      → Agrees most (if fails found then k + 1 else 0) (check now found h)
  unfolding check fails Agrees
  check-Agrees most k now (err e) h b p a = failed_check-Agrees most k now h b a
  check-Agrees most k now (ok []) h b p a = failed_check-Agrees most k now h b a
  check-Agrees most k now (ok (g ∷ gs)) h b p a = (a.0, (refl, ground arith))

  start-Agrees :
      (most k : ℕ) (checks : List (ℕ × Answer (List G))) (h : HealthMonitor)
      → most < 2 ^ 63
      → 0 < most
      → Agrees most k h
      → Agrees most (failures k checks) (start checks h)
  unfolding start failures
  start-Agrees most k [] h b p a = a
  start-Agrees most k ((now, found) ∷ rest) h b p a =
      start-Agrees most (if fails found then k + 1 else 0) rest (check now found h) b p
        (check-Agrees most k now found h b p a)

  -- After any checks the provider is online exactly while the failures since the last success are fewer than
  -- the threshold, which is three where the argument is not positive and else below 2^63 as a Go int is.
  pub start-healthy :
      (interval threshold : ℤ) (checks : List (ℕ × Answer (List G)))
      → threshold_of threshold < 2 ^ 63
      → (start checks (new_health_monitor interval threshold)).healthy
        ≡ not (leb (threshold_of threshold) (failures 0 checks))
  unfolding Agrees
  start-healthy i t checks b =
      let most = threshold_of t in
      (start-Agrees most 0 checks (new_health_monitor i t) b (threshold_of-positive t)
        (new_health_monitor-Agrees i t)).1.1

  failures-append :
      (k : ℕ) (xs ys : List (ℕ × Answer (List G)))
      → failures k (xs ++ ys) ≡ failures (failures k xs) ys
  unfolding failures
  failures-append k [] ys = refl
  failures-append k ((now, found) ∷ xs) ys =
      failures-append (if fails found then k + 1 else 0) xs ys

  failures-All :
      (k : ℕ) (xs : List (ℕ × Answer (List G)))
      → All (λ x. fails x.1 ≡ true) xs
      → failures k xs ≡ length xs + k
  unfolding failures
  failures-All k [] h = omega arith
  failures-All k ((now, found) ∷ xs) h = rw h.0 (omega (arith, failures-All (k + 1) xs h.1))

  -- Whatever came before, one check that finds a GPU brings the provider online, and as many failing checks in a row
  -- as the threshold take it offline.
  pub start-reacts :
      (interval threshold : ℤ) (before failing : List (ℕ × Answer (List G))) (now : ℕ) (g : G)
      (gs : List G)
      → threshold_of threshold < 2 ^ 63
      → All (λ x. fails x.1 ≡ true) failing
      → threshold_of threshold ≤ length failing
      → ((start (before ++ (now, ok (g ∷ gs)) ∷ []) (new_health_monitor interval threshold)).healthy
          ≡ true)
        × ((start (before ++ failing) (new_health_monitor interval threshold)).healthy ≡ false)
  unfolding failures fails
  start-reacts i t before failing now g gs b f l = (
    rw
        (
          start-healthy i t (before ++ (now, ok (g ∷ gs)) ∷ []) b,
          failures-append 0 before ((now, ok (g ∷ gs)) ∷ []),
        )
        (ground (arith, threshold_of-positive t)),
    rw
        (
          start-healthy i t (before ++ failing) b,
          failures-append 0 before failing,
          failures-All (failures 0 before) failing f,
        )
        (ground (arith, l)),
  )
