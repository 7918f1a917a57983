-- ===== src/Auth/Limits/Window.antt =====
-- How many requests a window lets pass.
use dantegpu_core.Prelude.{
  ℕ, suc, ◌+◌, ◌*◌, ◌≤◌, ◌<◌, ℤ, pos, negsuc, leb_ℤ, String, append, List, [], ◌∷◌, Option, none,
  some, Bool, true, false, if◌then◌else◌, ◌==◌, length, Answer, ok, err, Answer-cases, Bool-cases,
  ◌≡◌, refl, sym, ◌∙◌, ◌⊎◌, inl, inr, arith,
}
use mathlib.Core.Path.{ap, subst}
use dantegpu_core.Auth.Redis.{
  wrapped, relabel, bind-ok, bind-err, whole_seconds, Redis, HoldsCounters,
}
use dantegpu_core.Auth.Limits.{limit_key, judge, allow}

-- The requests of a run that were let pass, and those that ended in an error.
pub record Tally : Type 0 where
  pub passed : ℕ
  pub failed : ℕ

unfoldable pub tallied : Answer Bool → Tally → Tally
tallied (ok true) n = record n { passed = n.passed + 1 }
tallied (ok false) n = n
tallied (err e) n = record n { failed = n.failed + 1 }

module _ {S : Type 0} ⦃r : Redis S⦄ (key : String) (limit : ℤ) (window : ℕ) where
  -- Calls of Allow for one key, at these instants.
  unfoldable pub calls : List ℕ → S → Tally → Tally
  unfolding tallied
  calls [] s n = n
  calls (t ∷ rest) s n =
      let first = allow t key limit window s in calls rest first.1 (tallied first.0 n)

-- The instants do not go back, and stay before the end.
unfoldable pub Within : ℕ → ℕ → List ℕ → Type 0
Within start end [] = Unit
Within start end (t ∷ rest) = (start ≤ t) × ((t < end) × Within t end rest)

unfoldable pub cap : ℤ → ℕ
cap (pos n) = n
cap (negsuc n) = 0

-- No more have passed than the limit; and the limit, or all that asked, passed up to two for each failure.
unfoldable pub IsLimited : ℤ → ℕ → Tally → Type 0
IsLimited limit asked n =
    (n.passed ≤ cap limit)
    × ((cap limit ≤ n.passed + 2 * n.failed) ⊎ (asked ≤ n.passed + 2 * n.failed))

unfoldable pub no_calls : Tally
no_calls = record { passed = 0; failed = 0 }

-- What is known after so many calls, of which the counter counts some.
Kept : ℤ → ℕ → ℕ → Tally → Type 0
Kept limit count asked n =
    (asked ≤ count + n.failed)
    × ((n.passed ≤ cap limit)
        × ((n.passed ≤ count)
            × ((cap limit ≤ n.passed + n.failed) ⊎ (count ≤ n.passed + n.failed))))

ok-Kept :
    (limit : ℤ) (count asked : ℕ) (n : Tally)
    → Kept limit count asked n
    → Kept limit (suc count) (suc asked) (tallied (ok (leb_ℤ (pos (suc count)) limit)) n)
unfolding Kept tallied cap
ok-Kept (pos m) count asked n h = ground arith
ok-Kept (negsuc m) count asked n h = ground arith

err-Kept :
    (limit : ℤ) (count later asked : ℕ) (e : String) (n : Tally)
    → count ≤ later
    → later ≤ suc count
    → Kept limit count asked n
    → Kept limit later (suc asked) (tallied (err e) n)
unfolding Kept tallied
err-Kept limit count later asked e n p q (a, (b, (c, inl d))) = ground arith
err-Kept limit count later asked e n p q (a, (b, (c, inr d))) = ground arith

module _ {S : Type 0} ⦃r : Redis S⦄ (key : String) (limit : ℤ) (window : ℕ) where
  judge-ok :
      (t n : ℕ) (s : S)
      → judge t key limit window n s
        ≡ (ok (leb_ℤ (pos n) limit), if n == 1 then (r.expire t (limit_key key) window s).1 else s)
  unfolding judge
  judge-ok t n s = elim (Bool-cases (n == 1)) [ inl e ↦ rw e refl | inr e ↦ rw e refl ]

  allow-ok :
      (t n : ℕ) (s : S)
      → (r.incr t (limit_key key) s).0 ≡ ok n
      → allow t key limit window s ≡ (
        ok (leb_ℤ (pos n) limit),
        if n == 1
            then (r.expire t (limit_key key) window (r.incr t (limit_key key) s).1).1
            else (r.incr t (limit_key key) s).1,
      )
  unfolding allow judge
  allow-ok t n s h =
      bind-ok (wrapped "failed to increment rate limit counter: " (r.incr t (limit_key key)))
        (λ count. judge t key limit window count) s n
        (ap (relabel "failed to increment rate limit counter: ") h)
      ∙ judge-ok t n (r.incr t (limit_key key) s).1

  allow-err :
      (t : ℕ) (e : String) (s : S)
      → (r.incr t (limit_key key) s).0 ≡ err e
      → allow t key limit window s ≡ (
        err (append "failed to increment rate limit counter: " e),
        (r.incr t (limit_key key) s).1,
      )
  unfolding allow judge
  allow-err t e s h =
      bind-err (wrapped "failed to increment rate limit counter: " (r.incr t (limit_key key)))
        (λ count. judge t key limit window count) s
        (append "failed to increment rate limit counter: " e)
        (ap (relabel "failed to increment rate limit counter: ") h)

lives_on :
    (held : Bool) (end d : ℕ) (before after : Option ℕ)
    → after ≡ (if held then before else none)
    → (held ≡ true → (x : ℕ) → before ≡ some x → end ≤ x)
    → after ≡ some d
    → end ≤ d
lives_on true end d before after e h k = h refl d (sym e ∙ k)
lives_on false end d before after e h k = ground (arith, e, k)

module _ {S : Type 0} ⦃r : Redis S⦄ (laws : HoldsCounters r) (key : String) (limit : ℤ)
    (window : ℕ) where
  -- A counter that counts something lives until the end at least.
  Lives : ℕ → ℕ → S → Type 0
  Lives t end s =
      laws.is_held t (limit_key key) s ≡ true
      → (d : ℕ) → laws.deadline (limit_key key) s ≡ some d
      → end ≤ d

  Good : ℕ → ℕ → ℕ → S → Tally → Type 0
  Good t end asked s n = Lives t end s × Kept limit (laws.count_at t (limit_key key) s) asked n

  Good-later :
      (t u end asked : ℕ) (s : S) (n : Tally)
      → t ≤ u
      → u < end
      → Good t end asked s n
      → Good u end asked s n
  unfolding Good Lives Kept
  Good-later t u end asked s n p q g =
      let stays = laws.count-stays t u (limit_key key) s p (λ c d e. omega (arith, g.0 c d e)) in
      ((λ c d e. g.0 (laws.held-before t u (limit_key key) s p c) d e), rw stays g.1)

  -- The counter after an INCR that was carried out, and after the EXPIRE that may follow.
  incr-Lives :
      (t end : ℕ) (s : S)
      → laws.deadline (limit_key key) (r.incr t (limit_key key) s).1
        ≡ (if laws.is_held t (limit_key key) s then laws.deadline (limit_key key) s else none)
      → Lives t end s
      → Lives t end (r.incr t (limit_key key) s).1
  unfolding Lives
  incr-Lives t end s life h c d e =
      lives_on (laws.is_held t (limit_key key) s) end d (laws.deadline (limit_key key) s)
        (laws.deadline (limit_key key) (r.incr t (limit_key key) s).1) life h e

  expire-Lives :
      (t end : ℕ) (s : S)
      → t < end
      → end ≤ t + whole_seconds window
      → Lives t end s
      → Lives t end (r.expire t (limit_key key) window s).1
  unfolding Lives
  expire-Lives t end s b p h c d e = elim (laws.expire-sets t window (limit_key key) s) [
    | inl new ↦ ground (arith, p, new, e)
    | inr old ↦
        h ((laws.expire-counts t window (limit_key key) s (omega (arith, b, p))).1 c) d
          (sym old ∙ e)
  ]

  judged-Good :
      (t end asked : ℕ) (b : Bool) (s : S) (n : Tally)
      → t < end
      → end ≤ t + whole_seconds window
      → Good t end asked s n
      → Good t end asked (if b then (r.expire t (limit_key key) window s).1 else s) n
  unfolding Good
  judged-Good t end asked true s n b p g = (
    expire-Lives t end s b p g.0,
    rw (laws.expire-counts t window (limit_key key) s (omega (arith, b, p))).0 g.1,
  )
  judged-Good t end asked false s n b p g = g

  allow-Good :
      (t end asked : ℕ) (s : S) (n : Tally)
      → t < end
      → end ≤ t + whole_seconds window
      → Good t end asked s n
      → Good t end
          (suc asked)
          (allow t key limit window s).1
          (tallied (allow t key limit window s).0 n)
  unfolding Good
  allow-Good t end asked s n b p g =
      let k = limit_key key in
      let s1 = (r.incr t k s).1 in
      let c = laws.count_at t k s in
      elim (Answer-cases (r.incr t k s).0) [
        | inl (m, e) ↦ elim (laws.incr-adds t k s) [
          | inr (same, never) ↦ absurd (never m e)
          | inl (more, life) ↦ rw (allow-ok key limit window t m s e) (
              judged-Good t end (suc asked) (m == 1) s1 (tallied (ok (leb_ℤ (pos m) limit)) n) b p (
                incr-Lives t end s life g.0,
                rw (more, laws.incr-answers t m k s e ∙ more) (ok-Kept limit c asked n g.1),
              ))
        ]
        | inr (x, e) ↦
            let told = append "failed to increment rate limit counter: " x in
            elim (laws.incr-adds t k s) [
              | inr (same, never) ↦
                  rw (allow-err key limit window t x s e, same)
                    (g.0, err-Kept limit c c asked told n (omega arith) (omega arith) g.1)
              | inl (more, life) ↦ rw (allow-err key limit window t x s e) (
                incr-Lives t end s life g.0,
                rw more (err-Kept limit c (suc c) asked told n (omega arith) (omega arith) g.1),
              )
            ]
      ]

  calls-Kept :
      (t end asked : ℕ) (times : List ℕ) (s : S) (n : Tally)
      → end ≤ t + whole_seconds window
      → Within t end times
      → Good t end asked s n
      → IsLimited limit (length times + asked) (calls key limit window times s n)
  unfolding calls Within Good Kept IsLimited
  calls-Kept t end asked [] s n p w g = ground (arith, g.1)
  calls-Kept t end asked (u ∷ rest) s n p w g =
      let first = allow u key limit window s in
      subst (λ k. IsLimited limit k (calls key limit window rest first.1 (tallied first.0 n)))
        (omega arith)
        (calls-Kept u end (suc asked) rest first.1 (tallied first.0 n) (omega (arith, p, w.0)) w.1.1
          (allow-Good u end asked s n w.1.0 (omega (arith, p, w.0))
            (Good-later t u end asked s n w.0 w.1.0 g)))

  -- From a key without a counter, the calls of Allow within one window, cut to
  -- whole seconds, let at most the limit pass, whatever
  -- commands fail, and each failed call costs at most two of the calls that would have passed: without failures exactly
  -- the first calls pass, up to the limit. Redis keeps its documented behaviour.
  pub calls-IsLimited :
      (start : ℕ) (times : List ℕ) (s : S)
      → laws.is_held start (limit_key key) s ≡ false
      → Within start (start + whole_seconds window) times
      → IsLimited limit (length times) (calls key limit window times s no_calls)
  unfolding Good Lives Kept no_calls
  calls-IsLimited start times s z w =
      subst (λ k. IsLimited limit k (calls key limit window times s no_calls)) (omega arith)
        (calls-Kept start (start + whole_seconds window) 0 times s no_calls (omega arith) w (
          (λ c d e. ground (arith, c, z)),
          (
            omega arith,
            (
              omega arith,
              (omega arith, inr (omega (arith, laws.held-counts start (limit_key key) s z))),
            ),
          ),
        ))
