-- ===== src/Pagination.antt =====
-- backend/src/common/pagination: the cursor tokens of the lists that are read page by page.
pub mod Cursor
pub mod CursorLaws
pub mod Sample
mod Tests
