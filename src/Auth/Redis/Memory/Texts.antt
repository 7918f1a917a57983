-- ===== src/Auth/Redis/Memory/Texts.antt =====
-- Texts with an expiry on the server of one process.
use dantegpu_core.Prelude.{
  ℕ, ◌+◌, ◌≤◌, ◌<◌, String, Option, none, some, if◌then◌else◌, ltb, ok, ◌≡◌, ◌≢◌, refl, ◌∙◌, arith,
}
use mathlib.Core.Path.{ap}
use dantegpu_core.Auth.Redis.{HoldsTexts}
use dantegpu_core.Auth.Redis.Memory.{
  Value, absent, text, Cell, live, read_value, present, expire_cell, add_member, drop_member,
  memory, put_same, put_keeps, put_other,
}

abbrev text_of : Value → Option String
text_of (text v) = some v
text_of other = none

pub add_member_keeps :
    (t u : ℕ) (m : String) (c : Cell)
    → t ≤ u
    → text_of (live u (add_member m (live t c) c).1) ≡ text_of (live u c)
add_member_keeps t u m c h = ground arith

pub drop_member_keeps :
    (t u : ℕ) (m : String) (c : Cell)
    → t ≤ u
    → text_of (live u (drop_member m (live t c) c).1) ≡ text_of (live u c)
drop_member_keeps t u m c h = ground arith

pub text_lives :
    (v : String) (d u : ℕ)
    → text_of (live u (record { value = text v; expires = some d }))
      ≡ (if ltb u d then some v else none)
text_lives v d u = ground arith

pub read_text : (v : Value) (o : Option String) → read_value v ≡ ok o → o ≡ text_of v
read_text v o h = ground (arith, h)

pub present_text : (v : Value) (n : ℕ) → ok (present v) ≡ ok n → text_of v ≢ none → 0 < n
present_text v n h k = ground (arith, h, k)

pub add_member_needs :
    (m : String) (v : Value) (c : Cell) → (add_member m v c).0 ≡ ok tt → text_of v ≡ none
add_member_needs m v c h = ground (arith, h)

abbrev pub memory-HoldsTexts : HoldsTexts memory
memory-HoldsTexts = record {
  text_at = λ t key s. text_of (live t (s key));
  set-holds = λ t u ttl key v s h later.
      ap (λ c. text_of (live u c))
        (put_same key (record { value = text v; expires = some (t + ttl) }) s)
      ∙ text_lives v (t + ttl) u;
  get-reads = λ t key s o h. read_text (live t (s key)) o h;
  get-keeps = λ t u key other s. refl;
  exists-counts = λ t n key s h k. present_text (live t (s key)) n h k;
  del-removes = λ t u key s h later.
      ap (λ c. text_of (live u c)) (put_same key (record { value = absent; expires = none }) s);
  sadd-needs_set = λ t key m s h. add_member_needs m (live t (s key)) (s key) h;
  sadd-keeps = λ t u key m other s later.
      put_keeps (λ c. text_of (live u c)) key other (add_member m (live t (s key)) (s key)).1 s
        (add_member_keeps t u m (s key) later);
  srem-keeps = λ t u key m other s later.
      put_keeps (λ c. text_of (live u c)) key other (drop_member m (live t (s key)) (s key)).1 s
        (drop_member_keeps t u m (s key) later);
  expire-keeps = λ t u ttl key other s n.
      ap (λ c. text_of (live u c))
        (put_other key other (expire_cell t ttl (live t (s key)) (s key)) s n);
}
