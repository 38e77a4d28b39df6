-- ===== src/Auth.antt =====
-- app/auth: the limiter of login attempts.
pub mod RateLimit
mod Examples
