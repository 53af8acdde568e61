-- ===== src/Requests.antt =====
-- backend/src/common/middlewares: what a request passes before its handler.
pub mod Idempotency
pub mod IdempotencyLaws
pub mod Sanitize
pub mod SanitizeLaws
mod SanitizeTests
mod Tests
