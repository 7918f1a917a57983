-- ===== src/Auth/Redis/Memory/Counters.antt =====
-- Counters on the server of one process.
use dantegpu_core.Prelude.{
  ℕ, suc, ◌+◌, ◌≤◌, ◌<◌, String, none, some, Bool, true, false, if◌then◌else◌, ok, Bool-cases,
  Option-cases, ◌≡◌, ◌≢◌, refl, sym, ◌∙◌, ◌⊎◌, inl, inr, arith,
}
use mathlib.Core.Path.{ap, fun_ext}
use dantegpu_core.Auth.Redis.{whole_seconds, HoldsCounters}
use dantegpu_core.Auth.Redis.Memory.{
  Value, absent, text, members, number, Cell, Server, live, put, expire_cell, add_one, memory,
  put_same, put_keeps,
}

abbrev number_of : Value → ℕ
number_of (number n) = suc n
number_of other = 0

abbrev is_number : Value → Bool
is_number (number n) = true
is_number other = false

pub not_number : (v : Value) → is_number v ≡ false → number_of v ≡ 0
not_number v h = ground (arith, h)

pub was_number :
    (t u : ℕ) (c : Cell) → t ≤ u → is_number (live u c) ≡ true → is_number (live t c) ≡ true
was_number t u c p h = ground (arith, h)

value_cases :
    (v : Value)
    → (v ≡ absent)
      ⊎ (((n : ℕ) × (v ≡ number n))
          ⊎ ((is_number v ≡ false)
              × ((c : Cell) → ((add_one v c).1 ≡ c) × ((n : ℕ) → (add_one v c).0 ≢ ok n))))
value_cases absent = inl refl
value_cases (number n) = inr (inl (n, refl))
value_cases (text s) = inr (inr (refl, (λ c. (refl, (λ n h. ground (arith, h))))))
value_cases (members ms) = inr (inr (refl, (λ c. (refl, (λ n h. ground (arith, h))))))

one_more :
    (t n : ℕ) (c : Cell)
    → live t c ≡ number n
    → number_of (live t (record { value = number (suc n); expires = c.expires })) ≡ suc (suc n)
one_more t n c e = ground (arith, e)

add_one-adds :
    (t : ℕ) (c : Cell)
    → ((number_of (live t (add_one (live t c) c).1) ≡ suc (number_of (live t c)))
        × ((add_one (live t c) c).1.expires ≡ (if is_number (live t c) then c.expires else none)))
      ⊎ (((add_one (live t c) c).1 ≡ c) × ((n : ℕ) → (add_one (live t c) c).0 ≢ ok n))
add_one-adds t c = elim (value_cases (live t c)) [
  | inl e ↦ rw (add_one, e) (inl (refl, refl))
  | inr (inl (n, e)) ↦ rw (add_one, e) (inl (one_more t n c e, refl))
  | inr (inr (x, y)) ↦ inr (y c)
]

pub add_one-answers :
    (t n : ℕ) (c : Cell)
    → (add_one (live t c) c).0 ≡ ok n
    → n ≡ number_of (live t (add_one (live t c) c).1)
add_one-answers t n c h = ground (arith, h)

pub expire_cell-counts :
    (t ttl : ℕ) (c : Cell)
    → 0 < whole_seconds ttl
    → number_of (live t (expire_cell t ttl (live t c) c)) ≡ number_of (live t c)
expire_cell-counts t ttl c h = ground arith

pub expire_cell-holds :
    (t ttl : ℕ) (c : Cell)
    → 0 < whole_seconds ttl
    → is_number (live t (expire_cell t ttl (live t c) c)) ≡ true
    → is_number (live t c) ≡ true
expire_cell-holds t ttl c h k = ground (arith, h, k)

expire_cell-sets :
    (t ttl : ℕ) (v : Value) (c : Cell)
    → ((expire_cell t ttl v c).expires ≡ some (t + whole_seconds ttl))
      ⊎ ((expire_cell t ttl v c).expires ≡ c.expires)
expire_cell-sets t ttl v c = ground arith

not_later :
    (t u : ℕ) (c : Cell) → t ≤ u → is_number (live t c) ≡ false → is_number (live u c) ≡ false
not_later t u c p h = ground (arith, h)

alive :
    (t u d : ℕ) (c : Cell)
    → c.expires ≡ some d
    → t ≤ u
    → u < d
    → number_of (live u c) ≡ number_of (live t c)
alive t u d c e p q = ground (arith, e)

put_back : (key : String) (s : Server) → put key (s key) s ≡ s
put_back key s = fun_ext (λ other. put_keeps (λ c. c) key other (s key) s refl)

pub memory-adds :
    (t : ℕ) (key : String) (s : Server)
    → ((number_of (live t ((memory.incr t key s).1 key)) ≡ suc (number_of (live t (s key))))
        × (((memory.incr t key s).1 key).expires
            ≡ (if is_number (live t (s key)) then (s key).expires else none)))
      ⊎ (((memory.incr t key s).1 ≡ s) × ((n : ℕ) → (memory.incr t key s).0 ≢ ok n))
memory-adds t key s =
    let new = (add_one (live t (s key)) (s key)).1 in
    elim (add_one-adds t (s key)) [
      | inl (more, life) ↦ inl (rw (put_same key new s) (more, life))
      | inr (same, never) ↦ inr (ap (λ c. put key c s) same ∙ put_back key s, never)
    ]

pub memory-sets :
    (t ttl : ℕ) (key : String) (s : Server)
    → (((memory.expire t key ttl s).1 key).expires ≡ some (t + whole_seconds ttl))
      ⊎ (((memory.expire t key ttl s).1 key).expires ≡ (s key).expires)
memory-sets t ttl key s =
    let new = expire_cell t ttl (live t (s key)) (s key) in
    elim (expire_cell-sets t ttl (live t (s key)) (s key)) [
      | inl e ↦ inl (ap (λ c. c.expires) (put_same key new s) ∙ e)
      | inr e ↦ inr (ap (λ c. c.expires) (put_same key new s) ∙ e)
    ]

pub number_stays :
    (t u : ℕ) (c : Cell)
    → t ≤ u
    → (is_number (live t c) ≡ true → (d : ℕ) → c.expires ≡ some d → u < d)
    → number_of (live u c) ≡ number_of (live t c)
number_stays t u c p h = elim (Bool-cases (is_number (live t c))) [
  | inr free ↦ not_number (live u c) (not_later t u c p free) ∙ sym (not_number (live t c) free)
  | inl held ↦ elim (Option-cases c.expires) [
    | inl e ↦ ground (arith, e)
    | inr (d, e) ↦ alive t u d c e p (h held d e)
  ]
]

abbrev pub memory-HoldsCounters : HoldsCounters memory
memory-HoldsCounters = record {
  is_held = λ t key s. is_number (live t (s key));
  count_at = λ t key s. number_of (live t (s key));
  deadline = λ key s. (s key).expires;
  held-counts = λ t key s h. not_number (live t (s key)) h;
  held-before = λ t u key s p h. was_number t u (s key) p h;
  incr-adds = λ t key s. memory-adds t key s;
  incr-answers = λ t n key s h.
      add_one-answers t n (s key) h
      ∙ ap (λ c. number_of (live t c)) (sym (put_same key (add_one (live t (s key)) (s key)).1 s));
  expire-counts = λ t ttl key s p.
      let new = expire_cell t ttl (live t (s key)) (s key) in
      (
        ap (λ c. number_of (live t c)) (put_same key new s) ∙ expire_cell-counts t ttl (s key) p,
        (λ h.
            expire_cell-holds t ttl (s key) p
              (ap (λ c. is_number (live t c)) (sym (put_same key new s)) ∙ h)),
      );
  expire-sets = λ t ttl key s. memory-sets t ttl key s;
  count-stays = λ t u key s p h. number_stays t u (s key) p h;
}
