-- ===== src/Attendance/Pages.antt =====
-- `getMyAttendance` of backend/src/attendance/attendance.service.ts, page by page. The database keeps a
-- timestamp in microseconds, a `Date` and with it a cursor in milliseconds. The table is the list of its
-- rows in the order of the query, `timestamp DESC, id DESC`.
use hub_assist.Common.{
  take, ℕ, zero, suc, ◌+◌, ◌*◌, ◌/◌, Bool, true, false, ◌&&◌, ◌||◌, Option, none, some, List, [],
  ◌∷◌, ◌++◌, ◌==◌, ltb, if◌then◌else◌, length, filter, ok, err, or_throw, ◌>>=◌,
}
use hub_assist.Attendance.Clock.{invalid_cursor, Attendances}
use hub_assist.Pagination.Cursor.{CursorPayload, Codec, encode_cursor, decode_cursor}

pub record Entry : Type 0 where
  pub id : ℕ
  pub user_id : ℕ
  pub at : ℕ

pub record Page : Type 0 where
  pub entries : List Entry
  pub next_cursor : Option (List ℕ)
  pub has_more : Bool

-- `a.timestamp < :ts OR (a.timestamp = :ts AND a.id < :id)`.
abbrev pub is_after : CursorPayload → Entry → Bool
is_after c e = ltb e.at (c.timestamp * 1000) || (e.at == c.timestamp * 1000 && ltb e.id c.id)

-- `data[data.length - 1]`.
abbrev pub last : List Entry → Option Entry
last [] = none
last (e ∷ []) = some e
last (e ∷ f ∷ es) = last (f ∷ es)

abbrev pub cursor_at : Entry → CursorPayload
cursor_at e = record { timestamp = e.at / 1000; id = e.id }

abbrev pub own : ℕ → List Entry → List Entry
own user_id rows = filter (λ e. e.user_id == user_id) rows

-- A client's list so far and what it reads from the next page on.
abbrev pub go_on :
    List Entry → (List ℕ → Option (List Entry)) → Option (List ℕ) → Option (List Entry)
go_on entries read none = some entries
go_on entries read (some next) = elim (read next) [
  | none ↦ none
  | some rest ↦ some (entries ++ rest)
]

abbrev pub follow : (List ℕ → Option (List Entry)) → Attendances Page → Option (List Entry)
follow read (err e) = none
follow read (ok page) = go_on page.entries read page.next_cursor

module _ (codec : Codec) where
  unfoldable pub next_cursor_of : List Entry → Option (List ℕ)
  next_cursor_of entries = elim (last entries) [
    | none ↦ none
    | some e ↦ some (encode_cursor codec (cursor_at e))
  ]

  -- The answer that is made of the `limit + 1` records which were asked for.
  unfoldable pub page_of : ℕ → List Entry → Page
  page_of limit records =
      if ltb limit (length records)
      then record {
        entries = take limit records;
        next_cursor = next_cursor_of (take limit records);
        has_more = true;
      }
      else record { entries = records; next_cursor = none; has_more = false }

  -- The records that the `where` selects.
  unfoldable pub records_after : ℕ → Option (List ℕ) → List Entry → Attendances (List Entry)
  records_after user_id none rows = ok (own user_id rows)
  records_after user_id (some cursor) rows = do
    payload ← or_throw (decode_cursor codec cursor) invalid_cursor
    ok (filter (is_after payload) (own user_id rows))

  unfoldable pub get_my_attendance : ℕ → ℕ → Option (List ℕ) → List Entry → Attendances Page
  get_my_attendance user_id limit cursor rows = do
    selected ← records_after user_id cursor rows
    ok (page_of limit (take (limit + 1) selected))

  -- A client that follows `nextCursor` while there is one, for at most `fuel` pages; none if more are left.
  unfoldable pub read_pages : ℕ → ℕ → ℕ → Option (List ℕ) → List Entry → Option (List Entry)
  read_pages zero user_id limit cursor rows = none
  read_pages (suc fuel) user_id limit cursor rows =
      follow (λ next. read_pages fuel user_id limit (some next) rows)
        (get_my_attendance user_id limit cursor rows)
