-- ===== src/Mail.antt =====
-- backend/src/email: the sending of an e-mail, its retries and its circuit breaker.
pub mod Smtp
pub mod SmtpLaws
mod Tests
