-- ===== src/Dashboard/Activity.antt =====
-- `getActivity` of backend/src/dashboard/dashboard.service.ts on the rows of
-- backend/src/audit/audit-log.entity.ts. A text is the list of its UTF-16 code units, a moment its
-- milliseconds; what is only compared for equality is a number. The table is the list of its rows in the
-- order of the query, `createdAt DESC, id DESC`.
use hub_assist.Common.{
  ℕ, zero, suc, ◌+◌, min, Bool, true, false, ◌&&◌, ◌||◌, Option, none, some, List, [], ◌∷◌, ◌++◌,
  ltb, ◌==◌, if◌then◌else◌, length, filter, take, Result, ok, err, ◌>>=◌,
}

abbrev pub Text : Type 0
Text = List ℕ

pub data UserRole : Type 0 where
  admin member staff : UserRole

pub record AuditLog : Type 0 where
  pub id : Text
  pub event_category : ℕ
  pub actor_id : Option ℕ
  pub resource_id : Option ℕ
  pub created_at : ℕ

pub record ActivityFeedQuery : Type 0 where
  pub event_category : Option ℕ
  pub actor_id : Option ℕ
  pub resource_id : Option ℕ
  pub cursor : Option Text
  pub limit : Option ℕ

pub record ActivityFeedResponse : Type 0 where
  pub items : List AuditLog
  pub next_cursor : Option Text
  pub has_more : Bool

-- The database refuses the text of an invalid date.
pub data ActivityError : Type 0 where
  invalid_timestamp : ActivityError

abbrev pub max_page_size : ℕ
max_page_size = 50

-- `Math.min(query.limit || 20, MAX_PAGE_SIZE)`.
abbrev or_twenty : Option ℕ → ℕ
or_twenty none = 20
or_twenty (some zero) = 20
or_twenty (some (suc n)) = suc n

unfoldable pub page_limit : ActivityFeedQuery → ℕ
page_limit query = min (or_twenty query.limit) max_page_size

-- A condition `x = :value` that is there only with a value.
abbrev pub given_equals : Option ℕ → Option ℕ → Bool
given_equals none x = true
given_equals (some value) none = false
given_equals (some value) (some x) = x == value

-- The value of the parameter `actorId` when the query runs. Both conditions on the actor name their
-- parameter so, and the builder keeps one value for a name, the one that was set last.
unfoldable pub bound_actor : UserRole → Option ℕ → Option ℕ → Option ℕ
bound_actor role user_id (some actor) = some actor
bound_actor admin user_id none = none
bound_actor member user_id none = user_id
bound_actor staff user_id none = user_id

-- The condition on the actor that is there for a user who is not an administrator, on the value bound.
unfoldable pub may_see : UserRole → Option ℕ → Option ℕ → AuditLog → Bool
may_see admin user_id bound e = true
may_see member none bound e = true
may_see member (some u) bound e = given_equals bound e.actor_id
may_see staff none bound e = true
may_see staff (some u) bound e = given_equals bound e.actor_id

-- The query's own condition on the actor, on the value bound.
abbrev pub asked_equals : Option ℕ → Option ℕ → Option ℕ → Bool
asked_equals none bound x = true
asked_equals (some actor) bound x = given_equals bound x

unfoldable pub is_selected : UserRole → Option ℕ → ActivityFeedQuery → AuditLog → Bool
unfolding may_see bound_actor
is_selected role user_id query e =
    let bound = bound_actor role user_id query.actor_id in
    may_see role user_id bound e
    && given_equals query.event_category (some e.event_category)
    && asked_equals query.actor_id bound e.actor_id
    && given_equals query.resource_id e.resource_id

-- `text.split(':')`, as its first part and those after it.
abbrev pub split_colon : Text → Text × List Text
split_colon [] = ([], [])
split_colon (c ∷ cs) =
    let rest = split_colon cs in if c == 58 then ([], rest.0 ∷ rest.1) else (c ∷ rest.0, rest.1)

abbrev first_of : List Text → Option Text
first_of [] = none
first_of (t ∷ ts) = some t

abbrev pub last_item : List AuditLog → Option AuditLog
last_item [] = none
last_item (e ∷ []) = some e
last_item (e ∷ f ∷ es) = last_item (f ∷ es)

-- `toISOString`, `new Date(text)` with none for an invalid date, base64 both ways, and the order of ids.
module _ (to_iso : ℕ → Text) (parse_date : Text → Option ℕ) (base64 of_base64 : Text → Text)
    (id_before : Text → Text → Bool) where
  unfoldable pub activity_cursor : AuditLog → Text
  activity_cursor e = base64 (to_iso e.created_at ++ 58 ∷ e.id)

  -- `[createdAt, id]` of a cursor; the id is undefined where there is no colon.
  unfoldable pub read_cursor : Text → Text × Option Text
  read_cursor cursor = let parts = split_colon (of_base64 cursor) in (parts.0, first_of parts.1)

  abbrev is_behind : ℕ → Option Text → AuditLog → Bool
  is_behind created_at id e =
      ltb e.created_at created_at
      || (e.created_at == created_at && elim id [ none ↦ false | some i ↦ id_before e.id i ])

  unfoldable pub behind_moment :
      Option ℕ → Option Text → List AuditLog → Result ActivityError (List AuditLog)
  behind_moment none id rows = err invalid_timestamp
  behind_moment (some created_at) id rows = ok (filter (is_behind created_at id) rows)

  -- The condition of the cursor.
  unfoldable pub behind_cursor : Option Text → List AuditLog → Result ActivityError (List AuditLog)
  unfolding read_cursor
  behind_cursor none rows = ok rows
  behind_cursor (some cursor) rows =
      behind_moment (parse_date (read_cursor cursor).0) (read_cursor cursor).1 rows

  abbrev cursor_of_last : List AuditLog → Option Text
  cursor_of_last results = elim (last_item results) [
    | none ↦ none
    | some e ↦ some (activity_cursor e)
  ]

  -- The answer made of `limit + 1` rows.
  unfoldable pub feed_of : ℕ → List AuditLog → ActivityFeedResponse
  unfolding activity_cursor
  feed_of limit items =
      let results = take limit items in
      let has_more = ltb limit (length items) in
      record {
        items = results;
        next_cursor = if has_more then cursor_of_last results else none;
        has_more = has_more;
      }

  unfoldable pub get_activity :
      ActivityFeedQuery
      → Option ℕ
      → UserRole
      → List AuditLog
      → Result ActivityError ActivityFeedResponse
  unfolding page_limit is_selected behind_cursor feed_of
  get_activity query user_id role rows = do
    selected ← behind_cursor query.cursor (filter (is_selected role user_id query) rows)
    ok (feed_of (page_limit query) (take (page_limit query + 1) selected))
