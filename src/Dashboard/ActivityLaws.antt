-- ===== src/Dashboard/ActivityLaws.antt =====
-- What the feed of backend/src/dashboard/dashboard.service.ts shows, and what becomes of its cursors.
use hub_assist.Common.{
  ℕ, ◌≤◌, ◌≡◌, ◌≢◌, refl, sym, ◌∙◌, ap, Bool, false, Option, none, some, List, [], ◌∷◌, ◌++◌, ◌==◌,
  length, filter, Result, ok, err, All,
}
use mathlib.Core.Path.{subst}
use mathlib.Core.List.{append_assoc}
use hub_assist.Dashboard.Activity.{
  Text, UserRole, AuditLog, ActivityFeedQuery, ActivityFeedResponse, ActivityError,
  invalid_timestamp, is_selected, split_colon, activity_cursor, read_cursor, behind_cursor,
  behind_moment, feed_of, get_activity,
}

-- Whose entries the feed of a user who is not an administrator shows: the query's actor, if it names one.
abbrev pub shown_actor : ℕ → Option ℕ → ℕ
shown_actor u none = u
shown_actor u (some actor) = actor

-- An entry of an actor.
abbrev pub IsBy : ℕ → AuditLog → Type 0
IsBy u e = e.actor_id ≡ some u

-- The query that names the actor whose entries are shown.
abbrev pub naming : ℕ → ActivityFeedQuery → ActivityFeedQuery
naming u query = record query { actor_id = some (shown_actor u query.actor_id) }

-- What a user's answer may be: a refusal of a cursor, or a page of at most fifty entries of one actor.
abbrev pub IsFeedOf : ℕ → ActivityFeedQuery → Result ActivityError ActivityFeedResponse → Type 0
IsFeedOf u query (err e) = query.cursor ≢ none
IsFeedOf u query (ok page) = All (IsBy u) page.items × (length page.items ≤ 50)

module _ (to_iso : ℕ → Text) (parse_date : Text → Option ℕ) (base64 of_base64 : Text → Text)
    (id_before : Text → Text → Bool) where
  abbrev feed : ℕ → List AuditLog → ActivityFeedResponse
  feed = feed_of to_iso parse_date base64 of_base64 id_before

  abbrev RowsOf : ℕ → Result ActivityError (List AuditLog) → Type 0
  RowsOf u (err e) = Unit
  RowsOf u (ok rows) = All (IsBy u) rows

  -- No colon among the units of a text.
  abbrev pub HasNoColon : Text → Type 0
  HasNoColon text = All (λ c. (c == 58) ≡ false) text

  split_colon-append :
      (before behind : Text)
      → HasNoColon before
      → split_colon (before ++ 58 ∷ behind)
        ≡ (before, (split_colon behind).0 ∷ (split_colon behind).1)
  split_colon-append [] behind h = refl
  split_colon-append (c ∷ cs) behind h = rw (h.0, split_colon-append cs behind h.1) refl

  read_cursor-activity_cursor :
      (e : AuditLog) (hour minutes : Text)
      → ((text : Text) → of_base64 (base64 text) ≡ text)
      → to_iso e.created_at ≡ hour ++ 58 ∷ minutes
      → HasNoColon hour
      → (read_cursor to_iso parse_date base64 of_base64 id_before
          (activity_cursor to_iso parse_date base64 of_base64 id_before e)).0
        ≡ hour
  unfolding read_cursor activity_cursor
  read_cursor-activity_cursor e hour minutes coded iso plain =
      let whole : of_base64 (base64 (to_iso e.created_at ++ 58 ∷ e.id))
          ≡ hour ++ 58 ∷ (minutes ++ 58 ∷ e.id) =
        coded (to_iso e.created_at ++ 58 ∷ e.id)
        ∙ (ap (λ t. t ++ 58 ∷ e.id) iso ∙ append_assoc hour (58 ∷ minutes) (58 ∷ e.id)) in
      ap (λ t. (split_colon t).0) whole
      ∙ ap (λ p. p.0) (split_colon-append hour (minutes ++ 58 ∷ e.id) plain)

  behind_cursor-refused :
      (cursor : Text) (rows : List AuditLog)
      → parse_date (read_cursor to_iso parse_date base64 of_base64 id_before cursor).0 ≡ none
      → behind_cursor to_iso parse_date base64 of_base64 id_before (some cursor) rows
        ≡ err invalid_timestamp
  unfolding behind_cursor behind_moment
  behind_cursor-refused cursor rows h = rw h refl

  -- The cursor of an entry is refused, whatever the entry: `toISOString` has a colon of its own after
  -- the hour, so that `split(':')` takes the date and the hour for the whole moment, which is no date.
  pub get_activity_cursor_refused :
      (query : ActivityFeedQuery) (user_id : Option ℕ) (role : UserRole) (rows : List AuditLog)
      (e : AuditLog) (hour minutes : Text)
      → ((text : Text) → of_base64 (base64 text) ≡ text)
      → to_iso e.created_at ≡ hour ++ 58 ∷ minutes
      → HasNoColon hour
      → parse_date hour ≡ none
      → query.cursor ≡ some (activity_cursor to_iso parse_date base64 of_base64 id_before e)
      → get_activity to_iso parse_date base64 of_base64 id_before query user_id role rows
        ≡ err invalid_timestamp
  unfolding get_activity
  get_activity_cursor_refused query user_id role rows e hour minutes coded iso plain invalid given =
      let selected = filter (is_selected role user_id query) rows in
      let bad = read_cursor-activity_cursor e hour minutes coded iso plain in
      let refusal : behind_cursor to_iso parse_date base64 of_base64 id_before query.cursor selected
          ≡ err invalid_timestamp =
        subst
          (λ c.
            behind_cursor to_iso parse_date base64 of_base64 id_before c selected
            ≡ err invalid_timestamp)
          (sym given) (behind_cursor-refused _ selected (ap parse_date bad ∙ invalid)) in
      rw refusal refl
