-- ===== src/Attendance.antt =====
-- backend/src/attendance: clocking in and out, the completion of abandoned sessions, the pages of a
-- user's records and the summary of the sessions.
pub mod Clock
pub mod Sessions
pub mod SessionCalls
pub mod Abandoned
pub mod Pages
pub mod PageLaws
pub mod Summary
pub mod SummaryLaws
pub mod ClockRun
mod Tests
mod PageTests
