-- ===== src/Pagination/Tests.antt =====
-- The tokens of backend/src/common/pagination/utils/cursor.util.ts on one payload.
use hub_assist.Pagination.Cursor.{CursorPayload}

abbrev payload : CursorPayload
payload = record { timestamp = 1700000000123; id = 42 }
