-- ===== src/Auth/Redis/Memory.antt =====
-- A server of one process for the concrete inputs. Of its commands only those on a key of another kind fail.
use dantegpu_core.Prelude.{
  ℕ, zero, suc, ◌+◌, ◌≤◌, ◌<◌, ℤ, pos, String, List, [], ◌∷◌, Option, none, some, Bool, true, false,
  not, if◌then◌else◌, ltb, ◌==◌, filter, length, text_eq, eq_iff, Answer, ok, err, Bool-cases,
  Option-cases, ◌≡◌, ◌≢◌, refl, sym, ◌∙◌, ◌⊎◌, inl, inr, arith,
}
use mathlib.Core.Path.{ap, fun_ext}
use dantegpu_core.Auth.Redis.{Op, whole_seconds, Redis, HoldsTexts, HoldsCounters}
pub mod Texts
pub mod Counters

pub data Value : Type 0 where
  absent : Value
  text : String → Value
  members : List String → Value
  -- one more than the argument
  number : ℕ → Value

pub record Cell : Type 0 where
  pub value : Value
  pub expires : Option ℕ

abbrev pub Server : Type 0
Server = String → Cell

abbrev pub live : ℕ → Cell → Value
live t c = elim c.expires [ none ↦ c.value | some d ↦ if ltb t d then c.value else absent ]

abbrev pub empty : Server
empty key = record { value = absent; expires = none }

abbrev pub put : String → Cell → Server → Server
put key c s other = if text_eq other key then c else s other

-- A command on one key.
abbrev pub on : {A : Type 0} → String → (Cell → Answer A × Cell) → Op Server A
on key f s = ((f (s key)).0, put key (f (s key)).1 s)

abbrev pub read_value : Value → Answer (Option String)
read_value absent = ok none
read_value (text v) = ok (some v)
read_value other = err "WRONGTYPE"

abbrev pub read_number : Value → Answer (Option ℤ)
read_number absent = ok none
read_number (number n) = ok (some (pos (suc n)))
read_number other = err "not an integer"

abbrev pub read_members : Value → Answer (List String)
read_members absent = ok []
read_members (members ms) = ok ms
read_members other = err "WRONGTYPE"

abbrev pub present : Value → ℕ
present absent = 0
present other = 1

abbrev pub expire_cell : ℕ → ℕ → Value → Cell → Cell
expire_cell t ttl absent c = c
expire_cell t ttl other c = record c { expires = some (t + whole_seconds ttl) }

abbrev pub add_member : String → Value → Cell → Answer (Unit {0}) × Cell
add_member m absent c = (ok tt, record { value = members (m ∷ []); expires = none })
add_member m (members ms) c =
    (ok tt, record c { value = members (m ∷ filter (λ x. not (text_eq x m)) ms) })
add_member m other c = (err "WRONGTYPE", c)

abbrev pub drop_member : String → Value → Cell → Answer (Unit {0}) × Cell
drop_member m absent c = (ok tt, c)
drop_member m (members ms) c =
    (ok tt, record c { value = members (filter (λ x. not (text_eq x m)) ms) })
drop_member m other c = (err "WRONGTYPE", c)

abbrev pub add_one : Value → Cell → Answer ℕ × Cell
add_one absent c = (ok 1, record { value = number 0; expires = none })
add_one (number n) c = (ok (suc (suc n)), record c { value = number (suc n) })
add_one other c = (err "not an integer", c)

abbrev pub counted : Answer (List String) → Answer ℕ
counted (ok ms) = ok (length ms)
counted (err e) = err e

abbrev pub memory : Redis Server
memory = record {
  set = λ t key v ttl. on key (λ c. (ok tt, record { value = text v; expires = some (t + ttl) }));
  get = λ t key s. (read_value (live t (s key)), s);
  get_int = λ t key s. (read_number (live t (s key)), s);
  exists = λ t key s. (ok (present (live t (s key))), s);
  del = λ t key. on key (λ c. (ok tt, record { value = absent; expires = none }));
  expire = λ t key ttl. on key (λ c. (ok tt, expire_cell t ttl (live t c) c));
  sadd = λ t key m. on key (λ c. add_member m (live t c) c);
  srem = λ t key m. on key (λ c. drop_member m (live t c) c);
  smembers = λ t key s. (read_members (live t (s key)), s);
  scard = λ t key s. (counted (read_members (live t (s key))), s);
  incr = λ t key. on key (λ c. add_one (live t c) c);
}

pub put_same : (key : String) (c : Cell) (s : Server) → put key c s key ≡ c
put_same key c s = ground (arith, eq_iff key key)

-- What is seen of a cell stays where the new cell shows the same.
pub put_keeps :
    {X : Type 0} (see : Cell → X) (key other : String) (c : Cell) (s : Server)
    → see c ≡ see (s key)
    → see (put key c s other) ≡ see (s other)
put_keeps see key other c s h = elim (Bool-cases (text_eq other key)) [
  | inl e ↦ rw e (h ∙ ap (λ k. see (s k)) (sym ((eq_iff other key).0 e)))
  | inr e ↦ rw e refl
]

pub put_other :
    (key other : String) (c : Cell) (s : Server) → other ≢ key → put key c s other ≡ s other
put_other key other c s n = elim (Bool-cases (text_eq other key)) [
  | inl e ↦ absurd (n ((eq_iff other key).0 e))
  | inr e ↦ rw e refl
]
