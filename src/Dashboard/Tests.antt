-- ===== src/Dashboard/Tests.antt =====
-- The feed of backend/src/dashboard/dashboard.service.ts on two entries. A moment is written as its last
-- hours and minutes, with a colon between them.
use hub_assist.Common.{ℕ, ◌≡◌, refl, Bool, Option, none, some, [], ◌∷◌, length, leb, err}
use hub_assist.Dashboard.Activity.{
  Text, admin, AuditLog, ActivityFeedQuery, get_activity, activity_cursor, invalid_timestamp,
}
use hub_assist.Dashboard.ActivityLaws.{get_activity_cursor_refused}

abbrev iso_of : ℕ → Text
iso_of t = 84 ∷ 49 ∷ 58 ∷ 51 ∷ []

-- A date is refused if it has two units.
abbrev long_date : Text → Option ℕ
long_date [] = none
long_date (a ∷ []) = none
long_date (a ∷ b ∷ []) = none
long_date (a ∷ b ∷ c ∷ rest) = some c

abbrev same_text : Text → Text
same_text t = t

abbrev shorter : Text → Text → Bool
shorter a b = leb (length a) (length b)

abbrev log_of : ℕ → AuditLog
log_of user_id = record {
  id = 65 ∷ [];
  event_category = 1;
  actor_id = some user_id;
  resource_id = none;
  created_at = 1000;
}

abbrev everything : ActivityFeedQuery
everything = record {
  event_category = none;
  actor_id = none;
  resource_id = none;
  cursor = none;
  limit = some 100;
}

-- The user 7 asks for the entries of the user 8.
abbrev of_another : ActivityFeedQuery
of_another = record everything { actor_id = some 8 }

-- The page that begins behind the entry.
abbrev next_page : ActivityFeedQuery
next_page = record everything {
  cursor = some (activity_cursor iso_of long_date same_text same_text shorter (log_of 7));
}

get_activity_cursor_refused_example :
    get_activity iso_of long_date same_text same_text shorter next_page
      (some 7)
      admin
      (log_of 7 ∷ [])
    ≡ err invalid_timestamp
get_activity_cursor_refused_example =
    get_activity_cursor_refused iso_of long_date same_text same_text shorter next_page (some 7)
      admin (log_of 7 ∷ []) (log_of 7) (84 ∷ 49 ∷ []) (51 ∷ []) (λ t. refl) refl (refl, (refl, tt))
      refl refl
