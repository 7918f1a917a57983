-- ===== src/Auth/Tokens/Kinds.antt =====
-- What access tokens and refresh tokens count as.
use dantegpu_core.Prelude.{
  ℕ, ◌+◌, ◌*◌, ◌≤◌, String, List, Bool, true, false, not, if◌then◌else◌, ltb, text_eq, eq_iff,
  Bool-cases, ◌≡◌, ◌≢◌, refl, sym, ◌∙◌, ◌⊎◌, inl, inr, arith,
}
use mathlib.Core.Path.{ap, subst}
use dantegpu_core.Auth.Tokens.{
  Claims, TokenPair, Manager, TokenError, Checked, ok, err, Parsed, Jwt, IsSecure, numeric_date,
  checked_at, claims_for, sign_pair, generate_token_pair, of_kind, validate_token,
  validate_access_token, validate_refresh_token,
}

-- An answer of an expired token is an error, and else the claims.
unfoldable pub until : ℕ → ℕ → Claims → Checked Claims
until end now c = if ltb now end then ok c else err TokenError.expired

unfoldable pub IsRefused : Checked Claims → Type 0
IsRefused a = (e : TokenError) × (a ≡ err e)

-- A token of the pair counts as its kind until its date, and never as the other kind.
unfoldable pub IsKept :
    {T : Type 0} ⦃j : Jwt T⦄ → Manager → ℕ → TokenPair T → Claims → Claims → Type 0
unfolding until IsRefused numeric_date
IsKept m now pair access refresh =
    (u : ℕ)
    → now ≤ u
    → ((validate_access_token m u pair.access_token
          ≡ until (numeric_date (now + m.access_ttl) * 1000000000) u access)
        × (validate_refresh_token m u pair.refresh_token
            ≡ until (numeric_date (now + m.refresh_ttl) * 1000000000) u refresh))
      × (IsRefused (validate_refresh_token m u pair.access_token)
          × IsRefused (validate_access_token m u pair.refresh_token))

right_kind :
    (m : Manager) (now u ttl : ℕ) (kind : Bool) (id user email : String) (roles : List String)
    → now ≤ u
    → of_kind kind (checked_at u (claims_for m now ttl kind id user email roles))
      ≡ until
          (numeric_date (now + ttl) * 1000000000)
          u
          (claims_for m now ttl kind id user email roles)
unfolding of_kind checked_at claims_for until numeric_date
right_kind m now u ttl true id user email roles p = ground arith
right_kind m now u ttl false id user email roles p = ground arith

checked-valid :
    (u : ℕ) (c d : Claims) → checked_at u c ≡ Parsed.valid d → d.is_refresh ≡ c.is_refresh
unfolding checked_at
checked-valid u c d h = ground (arith, h)

wrong_kind :
    (kind : Bool) (p : Parsed)
    → ((d : Claims) → p ≡ Parsed.valid d → d.is_refresh ≡ kind)
    → IsRefused (of_kind (not kind) p)
unfolding of_kind IsRefused
wrong_kind true Parsed.too_late h = (TokenError.expired, refl)
wrong_kind true Parsed.too_early h = (TokenError.not_yet_valid, refl)
wrong_kind true Parsed.invalid h = (TokenError.invalid, refl)
wrong_kind true (Parsed.valid c) h = (TokenError.invalid, rw (h c refl) refl)
wrong_kind false Parsed.too_late h = (TokenError.expired, refl)
wrong_kind false Parsed.too_early h = (TokenError.not_yet_valid, refl)
wrong_kind false Parsed.invalid h = (TokenError.invalid, refl)
wrong_kind false (Parsed.valid c) h = (TokenError.invalid, rw (h c refl) refl)

claims_for-kind :
    (m : Manager) (now ttl : ℕ) (kind : Bool) (id user email : String) (roles : List String)
    → (claims_for m now ttl kind id user email roles).is_refresh ≡ kind
unfolding claims_for
claims_for-kind m now ttl kind id user email roles = refl

signed_cases :
    {T : Type 0} (a : Checked T) → ((t : T) × (a ≡ ok t)) ⊎ ((e : TokenError) × (a ≡ err e))
signed_cases (ok t) = inl (t, refl)
signed_cases (err e) = inr (e, refl)

module _ {T : Type 0} ⦃j : Jwt T⦄ (secure : IsSecure j) where
  -- A token of a kind that is checked with any secret as the other kind.
  swapped :
      (kind : Bool) (secret another : String) (token : T) (u : ℕ) (c : Claims)
      → j.signed secret c ≡ ok token
      → c.is_refresh ≡ kind
      → IsRefused (validate_token u token another (not kind))
  unfolding validate_token IsRefused
  swapped kind secret another token u c s k = elim (Bool-cases (text_eq another secret)) [
    | inl e ↦
        let path : another ≡ secret = (eq_iff another secret).0 e in
        wrong_kind kind (j.parse another u token) (λ d h.
          checked-valid u c d (
            sym (secure.parse-signed secret token u c s)
            ∙ ap (λ x. j.parse x u token) (sym path)
            ∙ h)
          ∙ k)
    | inr e ↦
        let apart : another ≢ secret = λ q. ground (arith, eq_iff another secret, e, q) in
        subst (λ x. IsRefused (of_kind (not kind) x))
          (sym (secure.parse-forged secret another token u c s apart))
          (wrong_kind kind Parsed.invalid (λ d h. ground (arith, h)))
  ]

  sign_pair-cases :
      (m : Manager) (now : ℕ) (a r : Claims) (pair : TokenPair T)
      → sign_pair m now a r ≡ ok pair
      → (j.signed m.access_secret a ≡ ok pair.access_token)
        × (j.signed m.refresh_secret r ≡ ok pair.refresh_token)
  unfolding sign_pair
  sign_pair-cases m now a r pair h = elim (signed_cases (j.signed m.access_secret a)) [
    | inr (e, x) ↦ ground (arith, x, h)
    | inl (t, x) ↦ elim (signed_cases (j.signed m.refresh_secret r)) [
      | inr (e, y) ↦ ground (arith, x, y, h)
      | inl (v, y) ↦ ground (arith, x, y, h)
    ]
  ]

  -- Of the tokens that GenerateTokenPair makes, the access token is valid with its claims as an access token until its
  -- date in whole seconds, and then expired, and never valid as a refresh token, and the other way round, also where both
  -- secrets are one; the library signs and parses as documented.
  pub generate-IsKept :
      (m : Manager) (now : ℕ) (id user email : String) (roles : List String) (pair : TokenPair T)
      → generate_token_pair m now (ok id) user email roles ≡ ok pair
      → IsKept m now pair
          (claims_for m now m.access_ttl false id user email roles)
          (claims_for m now m.refresh_ttl true id user email roles)
  unfolding generate_token_pair IsKept validate_access_token validate_refresh_token validate_token
  generate-IsKept m now id user email roles pair h u later =
      let a = claims_for m now m.access_ttl false id user email roles in
      let r = claims_for m now m.refresh_ttl true id user email roles in
      let signs = sign_pair-cases m now a r pair h in
      (
        (
          ap (of_kind false) (secure.parse-signed m.access_secret pair.access_token u a signs.0)
              ∙ right_kind m now u m.access_ttl false id user email roles later,
          ap (of_kind true) (secure.parse-signed m.refresh_secret pair.refresh_token u r signs.1)
              ∙ right_kind m now u m.refresh_ttl true id user email roles later,
        ),
        (
          swapped false m.access_secret m.refresh_secret pair.access_token u a signs.0
              (claims_for-kind m now m.access_ttl false id user email roles),
          swapped true m.refresh_secret m.access_secret pair.refresh_token u r signs.1
              (claims_for-kind m now m.refresh_ttl true id user email roles),
        ),
      )
