-- ===== src/Auth.antt =====
-- backend/src/auth: one-time passwords and their rate limit, refresh tokens, log-in and log-out.
pub mod RateLimit
pub mod RateLaws
pub mod Otp
pub mod OtpLaws
pub mod Tokens
pub mod TokenLaws
pub mod Guards
pub mod GuardRoles
pub mod GuardParts
pub mod GuardLaws
pub mod Register
pub mod RegisterLaws
mod RegisterTests
mod GuardTests
mod Tests
pub mod Base32
pub mod Base32Laws
pub mod Totp
