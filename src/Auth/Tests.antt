-- ===== src/Auth/Tests.antt =====
-- Sessions and rate limits on a server of one process.
use dantegpu_core.Prelude.{
  true, false, eq_iff, ◌≢◌, ℕ, pos, String, [], ◌∷◌, none, some, if◌then◌else◌, ltb, text_eq,
  Answer, ok, err, ◌≡◌, refl, arith,
}
use mathlib.Core.Path.{ap, subst}
use dantegpu_core.Auth.Redis.Memory.{Server, empty, memory}
use dantegpu_core.Auth.Redis.Memory.Texts.{memory-HoldsTexts}
use dantegpu_core.Auth.Redis.Memory.Counters.{memory-HoldsCounters}
use dantegpu_core.Auth.Sessions.{
  Session, Codec, session_key, create, get, delete, delete_all_user_sessions, count_user_sessions,
}
use dantegpu_core.Auth.Sessions.RoundTrip.{get-create, get-delete}
use dantegpu_core.Auth.Tokens
use dantegpu_core.Auth.Tokens.{
  Claims, TokenPair, Manager, Parsed, Jwt, IsSecure, checked_at, new_manager, claims_for,
  generate_token_pair,
}
use dantegpu_core.Auth.Tokens.Kinds.{IsKept, generate-IsKept}
use dantegpu_core.Auth.Limits.{allow}
use dantegpu_core.Auth.Limits.Window.{Within, IsLimited, calls, no_calls, calls-IsLimited}

abbrev session : String → ℕ → Session
session id expires_at = record {
  id = id;
  user_id = "user";
  email = "user@example.com";
  roles = "user" ∷ [];
  refresh_token = "";
  ip_address = "";
  user_agent = "";
  created_at = 0;
  last_activity = 0;
  expires_at = expires_at;
}

abbrev long : Session
long = session "long" 1000000000000

abbrev short : Session
short = session "short" 100000000000

abbrev codec : Codec
codec = record {
  encode = λ x. ok x.id;
  decode = λ t. if text_eq t "long" then ok long else ok short;
}

abbrev payload : Answer String → String
payload (ok t) = t
payload (err e) = e

abbrev created : Server
created = (create ⦃r = memory⦄ codec 10000000000 long empty).1

get-create_example :
    (get ⦃r = memory⦄ codec 999000000000 "long" created).0
    ≡ (if ltb 999000000000 1000000000000 then ok long else err "session not found")
unfolding create session_key
get-create_example =
    get-create ⦃r = memory⦄ memory-HoldsTexts codec 10000000000 999000000000 long empty
      (some "long") (λ t h. subst (λ k. codec.decode k ≡ ok long) (ap payload h) refl) refl
      (omega arith) refl

get-delete_example :
    (get ⦃r = memory⦄ codec 20000000000 "long"
      (delete ⦃r = memory⦄ codec 15000000000 "long" created).1).0
    ≡ err "session not found"
unfolding create delete get session_key
get-delete_example =
    get-delete ⦃r = memory⦄ memory-HoldsTexts codec 15000000000 20000000000 "long" created none refl
      (omega arith) refl

-- The set of the user expires with the session that was created last: all sessions of the user are deleted, and
-- the long one is still there.
abbrev both : Server
both = (create ⦃r = memory⦄ codec 20000000000 short created).1

survives :
    (get ⦃r = memory⦄ codec 300000000000 "long"
      (delete_all_user_sessions ⦃r = memory⦄ 200000000000 "user" both).1).0
    ≡ ok long
unfolding create get delete_all_user_sessions
survives = refl

-- An expired session is still counted.
counts_expired :
    (count_user_sessions ⦃r = memory⦄ 150000000000 "user"
      (create ⦃r = memory⦄ codec 20000000000 long
        (create ⦃r = memory⦄ codec 10000000000 short empty).1).1).0
    ≡ ok 2
unfolding create count_user_sessions
counts_expired = refl

calls-IsLimited_example :
    IsLimited
      (pos 2)
      3
      (calls ⦃r = memory⦄ "login" (pos 2) 60900000000 (0 ∷ 5 ∷ 59000000000 ∷ []) empty no_calls)
unfolding Within
calls-IsLimited_example =
    calls-IsLimited ⦃r = memory⦄ memory-HoldsCounters "login" (pos 2) 60900000000 0
      (0 ∷ 5 ∷ 59000000000 ∷ []) empty refl
      (omega arith, (omega arith, (omega arith, (omega arith, (omega arith, (omega arith, tt))))))

-- Two of the three pass.
two_pass : (calls ⦃r = memory⦄ "login" (pos 2) 60 (0 ∷ 5 ∷ 59 ∷ []) empty no_calls).passed ≡ 2
unfolding calls no_calls allow
two_pass = refl

-- A token is its secret with its claims.
abbrev signing : Jwt (String × Claims)
signing = record {
  signed = λ secret c. Tokens.ok (secret, c);
  parse =
      λ secret now token. if text_eq secret token.0 then checked_at now token.1 else Parsed.invalid;
  parse_unverified = λ token. Tokens.ok token.1;
}

abbrev taken : String × Claims → Tokens.Checked (String × Claims) → String × Claims
taken d (Tokens.ok t) = t
taken d (Tokens.err e) = d

same_secret :
    (secret : String) (now : ℕ) (c : Claims)
    → signing.parse secret now (secret, c) ≡ checked_at now c
same_secret secret now c = ground (arith, eq_iff secret secret)

other_secret :
    (secret another : String) (now : ℕ) (c : Claims)
    → another ≢ secret
    → signing.parse another now (secret, c) ≡ Parsed.invalid
other_secret secret another now c n = ground (arith, eq_iff another secret, n)

signing-IsSecure : IsSecure signing
signing-IsSecure = record {
  parse-signed = λ secret token now c h.
      subst (λ t. signing.parse secret now t ≡ checked_at now c) (ap (taken (secret, c)) h)
        (same_secret secret now c);
  parse-forged = λ secret another token now c h n.
      subst (λ t. signing.parse another now t ≡ Parsed.invalid) (ap (taken (secret, c)) h)
        (other_secret secret another now c n);
}

abbrev manager : Manager
manager = new_manager "one" "one" 900000000000 86400000000000

abbrev pair : TokenPair (String × Claims)
pair = record {
  access_token =
      ("one", claims_for manager 5 900000000000 false "id" "ann" "ann@example.com" ("user" ∷ []));
  refresh_token =
      ("one", claims_for manager 5 86400000000000 true "id" "ann" "ann@example.com" ("user" ∷ []));
  expires_at = 900000000005;
  token_type = "Bearer";
}

generate-IsKept_example :
    IsKept ⦃j = signing⦄ manager 5 pair
      (claims_for manager 5 900000000000 false "id" "ann" "ann@example.com" ("user" ∷ []))
      (claims_for manager 5 86400000000000 true "id" "ann" "ann@example.com" ("user" ∷ []))
unfolding new_manager generate_token_pair
generate-IsKept_example =
    generate-IsKept ⦃j = signing⦄ signing-IsSecure manager 5 "id" "ann" "ann@example.com"
      ("user" ∷ []) pair refl
