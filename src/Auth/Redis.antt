-- ===== src/Auth/Redis.antt =====
-- What services/auth-service uses of github.com/redis/go-redis: the commands as operations on a server's state
-- that may fail, and the documented behaviour that the store relies on. Instants and durations are in nanoseconds.
use dantegpu_core.Prelude.{
  ℕ, zero, suc, ◌+◌, ◌*◌, ◌/◌, ◌≤◌, ◌<◌, ℤ, String, append, List, Option, none, some, Bool, true,
  false, if◌then◌else◌, ltb, ◌==◌, Answer, ok, err, Answer-cases, ◌≡◌, ◌≢◌, refl, sym, ◌∙◌, ◌⊎◌,
  inl, inr, arith,
}
use mathlib.Core.Path.{ap}
pub mod Memory

-- An operation on the server: its answer and the state it leaves.
abbrev pub Op : Type 0 → Type 0 → Type 0
Op S A = S → Answer A × S

abbrev pub relabel : {A : Type 0} → String → Answer A → Answer A
relabel message (ok a) = ok a
relabel message (err e) = err (append message e)

module _ {S : Type 0} where
  abbrev pub return : {A : Type 0} → A → Op S A
  return a s = (ok a, s)

  infixl 5 ◌>>=◌ ◌>>◌
  abbrev pub ◌>>=◌ : {A B : Type 0} → Op S A → (A → Op S B) → Op S B
  ◌>>=◌ m f s = elim (m s).0 [ ok a ↦ f a (m s).1 | err e ↦ (err e, (m s).1) ]

  abbrev pub ◌>>◌ : {A B : Type 0} → Op S A → Op S B → Op S B
  m >> k = m >>= λ _. k

  -- `if err != nil { return fmt.Errorf("message: %w", err) }`
  abbrev pub wrapped : {A : Type 0} → String → Op S A → Op S A
  wrapped message m s = (relabel message (m s).0, (m s).1)

  -- An operation whose error is dropped.
  abbrev pub dropped : {A : Type 0} → Op S A → Op S (Unit {0})
  dropped m s = (ok tt, (m s).1)

  abbrev pub guard : Bool → String → Op S (Unit {0})
  guard test e s = if test then (ok tt, s) else (err e, s)

  abbrev pub lift : {A : Type 0} → Answer A → Op S A
  lift a s = (a, s)

  pub bind-ok :
      {A B : Type 0} (m : Op S A) (f : A → Op S B) (s : S) (a : A)
      → (m s).0 ≡ ok a
      → (m >>= f) s ≡ f a (m s).1
  bind-ok m f s a e = rw (◌>>=◌, e) refl

  pub bind-err :
      {A B : Type 0} (m : Op S A) (f : A → Op S B) (s : S) (e : String)
      → (m s).0 ≡ err e
      → (m >>= f) s ≡ (err e, (m s).1)
  bind-err m f s e h = rw (◌>>=◌, h) refl

  -- What a chain that succeeds has done first, and what it goes on with.
  abbrev pub Went : {A B : Type 0} → Op S A → (A → Op S B) → Op S B → S → B → Type 0
  Went {A} m f whole s b =
      (a : A) × (((m s).0 ≡ ok a) × ((whole s ≡ f a (m s).1) × ((f a (m s).1).0 ≡ ok b)))

  went :
      {A B : Type 0} (m : Op S A) (f : A → Op S B) (whole : Op S B) (s : S) (a : A) (b : B)
      → (m s).0 ≡ ok a
      → whole s ≡ f a (m s).1
      → (whole s).0 ≡ ok b
      → Went m f whole s b
  went m f whole s a b e q h = (a, (e, (q, sym (ap (λ z. z.0) q) ∙ h)))

  module _ {A B : Type 0} (f : A → Op S B) (s : S) (b : B) where
    pub bind-Went : (m : Op S A) → ((m >>= f) s).0 ≡ ok b → Went m f (m >>= f) s b
    bind-Went m h = elim (Answer-cases (m s).0) [
      | inl (a, e) ↦ went m f (m >>= f) s a b e (rw (◌>>=◌, e) refl) h
      | inr (x, e) ↦ ground (arith, e, h)
    ]

    pub wrapped-Went :
        (message : String) (m : Op S A)
        → ((wrapped message m >>= f) s).0 ≡ ok b
        → Went m f (wrapped message m >>= f) s b
    wrapped-Went message m h = elim (Answer-cases (m s).0) [
      | inl (a, e) ↦ went m f (wrapped message m >>= f) s a b e (rw (◌>>=◌, e) refl) h
      | inr (x, e) ↦ ground (arith, e, h)
    ]

  pub guard-Went :
      {B : Type 0} (f : Unit {0} → Op S B) (s : S) (b : B) (test : Bool) (e : String)
      → ((guard test e >>= f) s).0 ≡ ok b
      → (test ≡ true) × (((guard test e >>= f) s ≡ f tt s) × ((f tt s).0 ≡ ok b))
  guard-Went f s b true e h = (refl, (refl, h))
  guard-Went f s b false e h = ground (arith, h)

-- What EXPIRE is sent for a duration: go-redis cuts it to whole seconds, and sends one second for a shorter one.
abbrev pub whole_seconds : ℕ → ℕ
whole_seconds zero = 0
whole_seconds d = if ltb d 1000000000 then 1000000000 else d / 1000000000 * 1000000000

-- The commands, at an instant of the server's clock. `get_int` is `Get(…).Int()`; a key that is missing is none.
pub record Redis (S : Type 0) : Type 0 where
  pub set : ℕ → String → String → ℕ → Op S (Unit {0})
  pub get : ℕ → String → Op S (Option String)
  pub get_int : ℕ → String → Op S (Option ℤ)
  pub exists : ℕ → String → Op S ℕ
  pub del : ℕ → String → Op S (Unit {0})
  pub expire : ℕ → String → ℕ → Op S (Unit {0})
  pub sadd : ℕ → String → String → Op S (Unit {0})
  pub srem : ℕ → String → String → Op S (Unit {0})
  pub smembers : ℕ → String → Op S (List String)
  pub scard : ℕ → String → Op S ℕ
  pub incr : ℕ → String → Op S ℕ

-- What Redis documents of texts with an expiry, less the rounding of SET to whole milliseconds: `text_at` is the text that a key holds at an instant, none where it
-- holds none or has expired.
pub record HoldsTexts {S : Type 0} (r : Redis S) : Type 0 where
  pub text_at : ℕ → String → S → Option String
  pub set-holds :
      (t u ttl : ℕ) (key text : String) (s : S)
      → (r.set t key text ttl s).0 ≡ ok tt
      → t ≤ u
      → text_at u key (r.set t key text ttl s).1 ≡ (if ltb u (t + ttl) then some text else none)
  pub get-reads :
      (t : ℕ) (key : String) (s : S) (o : Option String)
      → (r.get t key s).0 ≡ ok o
      → o ≡ text_at t key s
  pub get-keeps :
      (t u : ℕ) (key other : String) (s : S) → text_at u other (r.get t key s).1 ≡ text_at u other s
  pub exists-counts :
      (t n : ℕ) (key : String) (s : S)
      → (r.exists t key s).0 ≡ ok n
      → text_at t key s ≢ none
      → 0 < n
  pub del-removes :
      (t u : ℕ) (key : String) (s : S)
      → (r.del t key s).0 ≡ ok tt
      → t ≤ u
      → text_at u key (r.del t key s).1 ≡ none
  -- A set command on a key that holds a text is an error and changes nothing.
  pub sadd-needs_set :
      (t : ℕ) (key member : String) (s : S)
      → (r.sadd t key member s).0 ≡ ok tt
      → text_at t key s ≡ none
  pub sadd-keeps :
      (t u : ℕ) (key member other : String) (s : S)
      → t ≤ u
      → text_at u other (r.sadd t key member s).1 ≡ text_at u other s
  pub srem-keeps :
      (t u : ℕ) (key member other : String) (s : S)
      → t ≤ u
      → text_at u other (r.srem t key member s).1 ≡ text_at u other s
  pub expire-keeps :
      (t u ttl : ℕ) (key other : String) (s : S)
      → other ≢ key
      → text_at u other (r.expire t key ttl s).1 ≡ text_at u other s

-- What it documents of counters: `is_held` says whether a key holds a number at an instant, `count_at` the number,
-- zero where it holds none, and `deadline` the instant at which the key expires, none where it does not.
pub record HoldsCounters {S : Type 0} (r : Redis S) : Type 0 where
  pub is_held : ℕ → String → S → Bool
  pub count_at : ℕ → String → S → ℕ
  pub deadline : String → S → Option ℕ
  pub held-counts : (t : ℕ) (key : String) (s : S) → is_held t key s ≡ false → count_at t key s ≡ 0
  pub held-before :
      (t u : ℕ) (key : String) (s : S) → t ≤ u → is_held u key s ≡ true → is_held t key s ≡ true
  -- INCR keeps the deadline of a key and gives a new one none; one that failed may have been carried out.
  pub incr-adds :
      (t : ℕ) (key : String) (s : S)
      → ((count_at t key (r.incr t key s).1 ≡ suc (count_at t key s))
          × (deadline key (r.incr t key s).1 ≡ (if is_held t key s then deadline key s else none)))
        ⊎ (((r.incr t key s).1 ≡ s) × ((n : ℕ) → (r.incr t key s).0 ≢ ok n))
  pub incr-answers :
      (t n : ℕ) (key : String) (s : S)
      → (r.incr t key s).0 ≡ ok n
      → n ≡ count_at t key (r.incr t key s).1
  pub expire-counts :
      (t ttl : ℕ) (key : String) (s : S)
      → 0 < whole_seconds ttl
      → (count_at t key (r.expire t key ttl s).1 ≡ count_at t key s)
        × (is_held t key (r.expire t key ttl s).1 ≡ true → is_held t key s ≡ true)
  pub expire-sets :
      (t ttl : ℕ) (key : String) (s : S)
      → (deadline key (r.expire t key ttl s).1 ≡ some (t + whole_seconds ttl))
        ⊎ (deadline key (r.expire t key ttl s).1 ≡ deadline key s)
  pub count-stays :
      (t u : ℕ) (key : String) (s : S)
      → t ≤ u
      → (is_held t key s ≡ true → (d : ℕ) → deadline key s ≡ some d → u < d)
      → count_at u key s ≡ count_at t key s
