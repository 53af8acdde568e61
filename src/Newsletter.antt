-- ===== src/Newsletter.antt =====
-- The newsletter's subscribers: backend/src/newsletter.
pub mod Service
pub mod RollLaws
pub mod ListLaws
mod Tests
