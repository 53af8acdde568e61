-- ===== src/Dashboard.antt =====
-- backend/src/dashboard: the activity feed.
pub mod Activity
pub mod ActivityLaws
mod Tests
