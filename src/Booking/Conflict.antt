-- ===== src/Booking/Conflict.antt =====
-- backend/src/bookings/conflict-detection.service.ts: the conflict check, with its sweep over the
-- starts and ends of the overlapping bookings. `sort` is JavaScript's stable sort.
use hub_assist.Common.{
  ℕ, min, max, Bool, true, false, not, ◌&&◌, Option, none, some, List, [], ◌∷◌, ok, ◌>>=◌, or_throw,
  ltb, ◌==◌, if◌then◌else◌, find?, filter,
}
use hub_assist.Common.Int.{ℤ, pos, ◌+ℤ◌, ◌-ℤ◌, ltb_ℤ, pos_part}
use hub_assist.Booking.Model.{
  Booking, Workspace, MaintenanceWindow, Db, holds_seat, ranges_overlap, ConflictDetail, Bookings,
  workspace_not_found,
}

pub data EventType : Type 0 where
  start end : EventType

pub record Event : Type 0 where
  pub time : ℕ
  pub kind : EventType

-- The comparator of `events.sort`, as the test that its value is not above 0: by time, and at one
-- time the ends before the starts.
abbrev pub kind_not_after : EventType → EventType → Bool
kind_not_after start end = false
kind_not_after _ _ = true

unfoldable pub not_after : Event → Event → Bool
not_after a b = if a.time == b.time then kind_not_after a.kind b.kind else ltb a.time b.time

unfoldable pub insert_event : Event → List Event → List Event
insert_event e [] = e ∷ []
insert_event e (x ∷ xs) = if not_after e x then e ∷ x ∷ xs else x ∷ insert_event e xs

unfoldable pub sort_events : List Event → List Event
sort_events [] = []
sort_events (e ∷ es) = insert_event e (sort_events es)

abbrev pub range_events : ℕ → ℕ → List Event → List Event
range_events from to rest =
    record { time = from; kind = start } ∷ record { time = to; kind = end } ∷ rest

-- The loop that pushes the events of the overlapping bookings, clipped to the requested range.
unfoldable pub booking_events : ℕ → ℕ → List Booking → List Event
booking_events start_time end_time [] = []
booking_events start_time end_time (b ∷ bs) =
    let overlap_start = max start_time b.start_time in
    let overlap_end = min end_time b.end_time in
    let rest = booking_events start_time end_time bs in
    if ltb overlap_start overlap_end then range_events overlap_start overlap_end rest else rest

unfoldable pub all_events : ℕ → ℕ → List Booking → List Event
all_events start_time end_time bs =
    range_events start_time end_time (booking_events start_time end_time bs)

-- `currentConcurrent` and `maxConcurrent`.
pub record Concurrency : Type 0 where
  pub current : ℤ
  pub most : ℤ

unfoldable pub count_event : Concurrency → EventType → Concurrency
count_event c start =
    let current = c.current +ℤ pos 1 in
    record { current = current; most = if ltb_ℤ c.most current then current else c.most }
count_event c end = record { current = c.current -ℤ pos 1; most = c.most }

unfoldable pub sweep : Concurrency → List Event → Concurrency
sweep c [] = c
sweep c (e ∷ es) = sweep (count_event c e.kind) es

unfoldable pub max_concurrent : ℕ → ℕ → List Booking → ℤ
max_concurrent start_time end_time bs =
    (sweep (record { current = pos 0; most = pos 0 })
      (sort_events (all_events start_time end_time bs))).most

abbrev pub is_other : Option ℕ → ℕ → Bool
is_other none id = true
is_other (some excluded) id = not (id == excluded)

-- The `where` of the bookings query.
unfoldable pub is_overlapping : ℕ → ℕ → ℕ → Option ℕ → Booking → Bool
is_overlapping workspace_id start_time end_time exclude_id b =
    b.workspace_id == workspace_id
    && (holds_seat b.status
        && (ranges_overlap start_time end_time b.start_time b.end_time && is_other exclude_id b.id))

unfoldable pub window_blocks : ℕ → ℕ → ℕ → MaintenanceWindow → Bool
window_blocks workspace_id start_time end_time w =
    w.workspace_id == workspace_id && ranges_overlap start_time end_time w.start_time w.end_time

-- The second half of `hasConflict`, on the overlapping bookings that the query returned.
unfoldable pub capacity_conflict : ℕ → ℕ → ℕ → List Booking → Option ConflictDetail
capacity_conflict capacity start_time end_time [] = none
capacity_conflict capacity start_time end_time (first ∷ others) =
    let most = max_concurrent start_time end_time (first ∷ others) in
    if ltb_ℤ (pos capacity) most
    then some (record {
      conflicting_booking_id = some first.id;
      window_start = first.start_time;
      window_end = first.end_time;
      is_maintenance = false;
      available = some (pos_part (pos capacity -ℤ (most -ℤ pos 1)));
    })
    else none

-- What `hasConflict` finds once the workspace row is locked.
unfoldable pub find_conflict : Workspace → Db → ℕ → ℕ → Option ℕ → Option ConflictDetail
find_conflict workspace db start_time end_time exclude_id =
    elim (find? (window_blocks workspace.id start_time end_time) db.windows) [
      | some w ↦ some (record {
        conflicting_booking_id = none;
        window_start = w.start_time;
        window_end = w.end_time;
        is_maintenance = true;
        available = none;
      })
      | none ↦
          capacity_conflict workspace.capacity start_time end_time
            (filter (is_overlapping workspace.id start_time end_time exclude_id) db.bookings)
    ]

unfoldable pub has_conflict : Db → ℕ → ℕ → ℕ → Option ℕ → Bookings (Option ConflictDetail)
has_conflict db workspace_id start_time end_time exclude_id = do
  workspace ← or_throw (find? (λ w. w.id == workspace_id) db.workspaces) workspace_not_found
  ok (find_conflict workspace db start_time end_time exclude_id)
