-- ===== src/Auth.antt =====
-- services/auth-service: the sessions, rate limits and revoked tokens that it keeps in Redis.

pub mod Redis
pub mod Sessions
pub mod Limits
pub mod Tokens
pub mod Tests
