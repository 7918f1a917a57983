-- ===== src/Auth/Tokens.antt =====
-- services/auth-service/pkg/jwt/jwt.go. The library that signs and parses is a parameter, and so is
-- the type of the texts that it makes; instants and durations are in
-- nanoseconds, the dates in a token in seconds.
use dantegpu_core.Prelude.{
  ℕ, ◌+◌, ◌-◌, ◌*◌, ◌/◌, ◌≤◌, String, List, [], ◌∷◌, Option, none, some, Bool, true, false, not,
  ◌&&◌, ◌||◌, if◌then◌else◌, ltb, text_eq, ◌≡◌, ◌≢◌,
}
pub mod Kinds

pub record Claims : Type 0 where
  pub user_id : String
  pub email : String
  pub roles : List String
  pub token_id : String
  pub is_refresh : Bool
  -- the registered claims, none where a token has no expiry
  pub expires_at : Option ℕ
  pub issued_at : ℕ
  pub not_before : ℕ
  pub issuer : String
  pub subject : String

pub record TokenPair (T : Type 0) : Type 0 where
  pub access_token : T
  pub refresh_token : T
  pub expires_at : ℕ
  pub token_type : String

pub record Manager : Type 0 where
  pub access_secret : String
  pub refresh_secret : String
  pub access_ttl : ℕ
  pub refresh_ttl : ℕ
  pub issuer : String

pub data TokenError : Type 0 where
  invalid expired not_yet_valid invalid_claims no_expiration : TokenError
  other : String → TokenError

pub data Checked (A : Type 0) : Type 0 where
  ok : A → Checked A
  err : TokenError → Checked A

-- What `jwt.ParseWithClaims` comes to; `invalid` is any other error, a signing method that is no HMAC too.
pub data Parsed : Type 0 where
  valid : Claims → Parsed
  too_late too_early invalid : Parsed

pub record Jwt (T : Type 0) : Type 0 where
  pub signed : String → Claims → Checked T
  pub parse : String → ℕ → T → Parsed
  pub parse_unverified : T → Checked Claims

-- `jwt.NewNumericDate`
unfoldable pub numeric_date : ℕ → ℕ
numeric_date t = t / 1000000000

-- The claims of a token that is signed with a secret, at an instant.
unfoldable pub checked_at : ℕ → Claims → Parsed
checked_at now c = elim c.expires_at [
  | none ↦ if ltb now (c.not_before * 1000000000) then Parsed.too_early else Parsed.valid c
  | some e ↦
      if not (ltb now (e * 1000000000))
      then Parsed.too_late
      else if ltb now (c.not_before * 1000000000)
      then Parsed.too_early
      else Parsed.valid c
]

-- What the library documents of HMAC tokens.
pub record IsSecure {T : Type 0} (j : Jwt T) : Type 0 where
  pub parse-signed :
      (secret : String) (token : T) (now : ℕ) (c : Claims)
      → j.signed secret c ≡ ok token
      → j.parse secret now token ≡ checked_at now c
  pub parse-forged :
      (secret another : String) (token : T) (now : ℕ) (c : Claims)
      → j.signed secret c ≡ ok token
      → another ≢ secret
      → j.parse another now token ≡ Parsed.invalid

-- `NewManager`
unfoldable pub new_manager : String → String → ℕ → ℕ → Manager
new_manager access_secret refresh_secret access_ttl refresh_ttl = record {
  access_secret = access_secret;
  refresh_secret = refresh_secret;
  access_ttl = access_ttl;
  refresh_ttl = refresh_ttl;
  issuer = "dantegpu-platform";
}

unfoldable pub claims_for : Manager → ℕ → ℕ → Bool → String → String → String → List String → Claims
unfolding numeric_date
claims_for m now ttl is_refresh token_id user email roles = record {
  user_id = user;
  email = email;
  roles = roles;
  token_id = token_id;
  is_refresh = is_refresh;
  expires_at = some (numeric_date (now + ttl));
  issued_at = numeric_date now;
  not_before = numeric_date now;
  issuer = m.issuer;
  subject = user;
}

-- The type of a token is checked after the token.
unfoldable pub of_kind : Bool → Parsed → Checked Claims
of_kind is_refresh Parsed.too_late = err TokenError.expired
of_kind is_refresh Parsed.too_early = err TokenError.not_yet_valid
of_kind is_refresh Parsed.invalid = err TokenError.invalid
of_kind true (Parsed.valid c) = if c.is_refresh then ok c else err TokenError.invalid
of_kind false (Parsed.valid c) = if c.is_refresh then err TokenError.invalid else ok c

module _ {T : Type 0} ⦃j : Jwt T⦄ where
  -- The two signatures of `GenerateTokenPair`.
  unfoldable pub sign_pair : Manager → ℕ → Claims → Claims → Checked (TokenPair T)
  sign_pair m now access refresh = elim (j.signed m.access_secret access) [
    | err e ↦ err e
    | ok a ↦ elim (j.signed m.refresh_secret refresh) [
      | err e ↦ err e
      | ok r ↦ ok (record {
        access_token = a;
        refresh_token = r;
        expires_at = now + m.access_ttl;
        token_type = "Bearer";
      })
    ]
  ]

  -- `GenerateTokenPair`, with what `generateTokenID` answers
  unfoldable pub generate_token_pair :
      Manager → ℕ → Checked String → String → String → List String → Checked (TokenPair T)
  unfolding claims_for sign_pair
  generate_token_pair m now (err e) user email roles = err e
  generate_token_pair m now (ok id) user email roles =
      sign_pair m now (claims_for m now m.access_ttl false id user email roles)
        (claims_for m now m.refresh_ttl true id user email roles)

  -- `validateToken`
  unfoldable pub validate_token : ℕ → T → String → Bool → Checked Claims
  unfolding of_kind
  validate_token now token secret is_refresh = of_kind is_refresh (j.parse secret now token)

  -- `ValidateAccessToken` and `ValidateRefreshToken`
  unfoldable pub validate_access_token : Manager → ℕ → T → Checked Claims
  unfolding validate_token
  validate_access_token m now token = validate_token now token m.access_secret false

  unfoldable pub validate_refresh_token : Manager → ℕ → T → Checked Claims
  unfolding validate_token
  validate_refresh_token m now token = validate_token now token m.refresh_secret true

  -- `RefreshTokens`
  unfoldable pub refresh_tokens : Manager → ℕ → Checked String → T → Checked (TokenPair T)
  unfolding validate_refresh_token generate_token_pair
  refresh_tokens m now id token = elim (validate_refresh_token m now token) [
    | err e ↦ err e
    | ok c ↦ generate_token_pair m now id c.user_id c.email c.roles
  ]

  -- `ExtractClaims`
  unfoldable pub extract_claims : T → Checked Claims
  extract_claims token = j.parse_unverified token

  -- `GetTokenExpiration`
  unfoldable pub get_token_expiration : T → Checked ℕ
  unfolding extract_claims
  get_token_expiration token = elim (extract_claims token) [
    | err e ↦ err e
    | ok c ↦ elim c.expires_at [
      | none ↦ err TokenError.no_expiration
      | some e ↦ ok (e * 1000000000)
    ]
  ]

  -- `GetTokenRemainingTime`
  unfoldable pub get_token_remaining_time : ℕ → T → Checked ℕ
  unfolding get_token_expiration
  get_token_remaining_time now token = elim (get_token_expiration token) [
    | err e ↦ err e
    | ok e ↦ if ltb e now then err TokenError.expired else ok (e - now)
  ]

-- `HasRole`, `HasAnyRole` and `HasAllRoles`
unfoldable pub has_role : String → List String → Bool
has_role role [] = false
has_role role (r ∷ rs) = text_eq r role || has_role role rs

unfoldable pub has_any_role : List String → Claims → Bool
unfolding has_role
has_any_role [] c = false
has_any_role (role ∷ roles) c = has_role role c.roles || has_any_role roles c

unfoldable pub has_all_roles : List String → Claims → Bool
unfolding has_role
has_all_roles [] c = true
has_all_roles (role ∷ roles) c = has_role role c.roles && has_all_roles roles c
