-- ===== src/Auth.antt =====
-- Package auth (backend/internal/auth): the unlock rate limiter the visitor session, and API keys.
pub mod Limiter
pub mod Session
pub mod ApiKey
