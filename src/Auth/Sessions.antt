-- ===== src/Auth/Sessions.antt =====
-- services/auth-service/internal/session/redis_store.go: the store of the sessions. The encoding as JSON is a parameter; the
-- clock stands still during an operation.
use dantegpu_core.Prelude.{
  ℕ, ◌+◌, ◌-◌, String, append, List, [], ◌∷◌, Option, none, some, Bool, true, false, if◌then◌else◌,
  ltb, Answer, ok, err,
}
use dantegpu_core.Auth.Redis.{Op, return, ◌>>=◌, ◌>>◌, wrapped, dropped, guard, lift, Redis}
pub mod RoundTrip

pub record Session : Type 0 where
  pub id : String
  pub user_id : String
  pub email : String
  pub roles : List String
  pub refresh_token : String
  pub ip_address : String
  pub user_agent : String
  pub created_at : ℕ
  pub last_activity : ℕ
  pub expires_at : ℕ

-- `json.Marshal` and `json.Unmarshal` of a session
pub record Codec : Type 0 where
  pub encode : Session → Answer String
  pub decode : String → Answer Session

-- `sessionKey`
unfoldable pub session_key : String → String
session_key id = append "session:" id

-- `userSessionsKey`
unfoldable pub user_sessions_key : String → String
user_sessions_key user = append "session:" (append "user:" (append user ":sessions"))

-- The text that a key holds, where it is not `redis.Nil`.
unfoldable pub found : {S : Type 0} → Option String → Op S String
found none s = (err "session not found", s)
found (some text) s = (ok text, s)

-- A session is put before the others where it was found.
unfoldable pub put_found : Answer Session → List Session → List Session
put_found (ok x) xs = x ∷ xs
put_found (err e) xs = xs

module _ {S : Type 0} ⦃r : Redis S⦄ where
  -- The session is added to the set of its user.
  unfoldable pub list_session : ℕ → Session → Op S (Unit {0})
  unfolding user_sessions_key
  list_session now x = do
    wrapped "failed to add session to user set: " (r.sadd now (user_sessions_key x.user_id) x.id)
    dropped (r.expire now (user_sessions_key x.user_id) (x.expires_at - now))

  unfoldable pub store_session : ℕ → Session → String → Op S (Unit {0})
  unfolding session_key list_session
  store_session now x text = do
    wrapped "failed to store session: " (r.set now (session_key x.id) text (x.expires_at - now))
    list_session now x

  -- `Exists`
  unfoldable pub exists : ℕ → String → Op S Bool
  unfolding session_key
  exists now id = do
    n ← wrapped "failed to check session existence: " (r.exists now (session_key id))
    return (ltb 0 n)

  -- The loop of `DeleteAllUserSessions`; the errors are dropped.
  unfoldable pub delete_each : ℕ → List String → Op S (Unit {0})
  unfolding session_key
  delete_each now [] = return tt
  delete_each now (id ∷ rest) = dropped (r.del now (session_key id)) >> delete_each now rest

  -- `DeleteAllUserSessions`
  unfoldable pub delete_all_user_sessions : ℕ → String → Op S (Unit {0})
  unfolding user_sessions_key delete_each
  delete_all_user_sessions now user = do
    ids ← wrapped "failed to get user sessions: " (r.smembers now (user_sessions_key user))
    delete_each now ids
    wrapped "failed to delete user sessions set: " (r.del now (user_sessions_key user))

  -- `CountUserSessions`
  unfoldable pub count_user_sessions : ℕ → String → Op S ℕ
  unfolding user_sessions_key
  count_user_sessions now user =
      wrapped "failed to count user sessions: " (r.scard now (user_sessions_key user))

-- `CleanupExpiredSessions`, which removes none.
unfoldable pub cleanup_expired_sessions : {S : Type 0} → Op S ℕ
cleanup_expired_sessions = return 0

module _ {S : Type 0} ⦃r : Redis S⦄ (codec : Codec) where
  -- `Create`
  unfoldable pub create : ℕ → Session → Op S (Unit {0})
  unfolding store_session
  create now x = do
    text ← wrapped "failed to marshal session: " (lift (codec.encode x))
    guard (ltb now x.expires_at) "session already expired"
    store_session now x text

  -- `Get`
  unfoldable pub get : ℕ → String → Op S Session
  unfolding session_key found
  get now id = do
    o ← wrapped "failed to get session: " (r.get now (session_key id))
    text ← found o
    wrapped "failed to unmarshal session: " (lift (codec.decode text))

  -- `Update`
  unfoldable pub update : ℕ → Session → Op S (Unit {0})
  unfolding exists create
  update now x = do b ← exists now x.id; guard b "session not found"; create now x

  -- `Delete`
  unfoldable pub delete : ℕ → String → Op S (Unit {0})
  unfolding session_key user_sessions_key get
  delete now id = do
    x ← get now id
    wrapped "failed to delete session: " (r.del now (session_key id))
    wrapped "failed to remove session from user set: " (r.srem now (user_sessions_key x.user_id) id)

  -- The loop of `GetUserSessions`.
  unfoldable pub get_each : ℕ → List String → Op S (List Session)
  unfolding get put_found
  get_each now [] s = (ok [], s)
  get_each now (id ∷ rest) s =
      let first = get now id s in
      (get_each now rest >>= λ xs. return (put_found first.0 xs)) first.1

  -- `GetUserSessions`
  unfoldable pub get_user_sessions : ℕ → String → Op S (List Session)
  unfolding user_sessions_key get_each
  get_user_sessions now user = do
    ids ← wrapped "failed to get user sessions: " (r.smembers now (user_sessions_key user))
    get_each now ids

  -- `UpdateActivity`
  unfoldable pub update_activity : ℕ → String → Op S (Unit {0})
  unfolding get update
  update_activity now id = do x ← get now id; update now (record x { last_activity = now })

  -- `ExtendExpiration`
  unfoldable pub extend_expiration : ℕ → String → ℕ → Op S (Unit {0})
  unfolding get update
  extend_expiration now id duration = do
    x ← get now id
    update now (record x { expires_at = now + duration })
