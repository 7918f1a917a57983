-- ===== src/Auth/Limits.antt =====
-- services/auth-service/internal/session/redis_store.go: the rate limiter and the revoked tokens.
use dantegpu_core.Prelude.{
  ℕ, ◌-◌, ℤ, pos, negsuc, leb_ℤ, ◌-ℤ◌, ltb_ℤ, String, append, Option, none, some, Bool, ltb, ◌==◌,
  if◌then◌else◌,
}
use dantegpu_core.Auth.Redis.{Op, return, ◌>>=◌, ◌>>◌, wrapped, dropped, Redis}
pub mod Window

-- `limit - count`, not below zero
unfoldable pub remaining_of : ℤ → Option ℤ → ℤ
remaining_of limit none = limit
remaining_of limit (some count) = if ltb_ℤ (limit -ℤ count) (pos 0) then pos 0 else limit -ℤ count

-- `r.prefix + key`
unfoldable pub limit_key : String → String
limit_key key = append "ratelimit:" key

module _ {S : Type 0} ⦃r : Redis S⦄ where
  -- `Allow` after the counter has been incremented.
  unfoldable pub judge : ℕ → String → ℤ → ℕ → ℕ → Op S Bool
  unfolding limit_key
  judge now key limit window count = do
    if count == 1 then dropped (r.expire now (limit_key key) window) else return tt
    return (leb_ℤ (pos count) limit)

  -- `RateLimiter.Allow`
  unfoldable pub allow : ℕ → String → ℤ → ℕ → Op S Bool
  unfolding limit_key judge
  allow now key limit window = do
    count ← wrapped "failed to increment rate limit counter: " (r.incr now (limit_key key))
    judge now key limit window count

  -- `RateLimiter.GetRemaining`
  unfoldable pub get_remaining : ℕ → String → ℤ → Op S ℤ
  unfolding remaining_of limit_key
  get_remaining now key limit = do
    count ← wrapped "failed to get rate limit count: " (r.get_int now (limit_key key))
    return (remaining_of limit count)

  -- `RateLimiter.Reset`
  unfoldable pub reset : ℕ → String → Op S (Unit {0})
  unfolding limit_key
  reset now key = wrapped "failed to reset rate limit: " (r.del now (limit_key key))

  -- `TokenBlacklist.Add`
  unfoldable pub add_token : ℕ → String → ℕ → Op S (Unit {0})
  add_token now token expires_at =
      if ltb now expires_at
      then wrapped "failed to blacklist token: "
          (r.set now (append "blacklist:" token) "1" (expires_at - now))
      else return tt

  -- `TokenBlacklist.IsBlacklisted`
  unfoldable pub is_blacklisted : ℕ → String → Op S Bool
  is_blacklisted now token = do
    n ← wrapped "failed to check token blacklist: " (r.exists now (append "blacklist:" token))
    return (ltb 0 n)

  -- `TokenBlacklist.Remove`
  unfoldable pub remove_token : ℕ → String → Op S (Unit {0})
  remove_token now token =
      wrapped "failed to remove token from blacklist: " (r.del now (append "blacklist:" token))
