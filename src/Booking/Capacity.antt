-- ===== src/Booking/Capacity.antt =====
-- backend/src/bookings/capacity-check.service.ts: the free seats of a range and of the hours of a day.
-- `parseInt(count) || 0` of a `COUNT(*)` is the count.
use hub_assist.Common.{
  ℕ, zero, suc, ◌+◌, ◌-◌, ◌*◌, ◌/◌, ◌≤◌, ◌<◌, ◌≡◌, refl, Bool, ◌&&◌, none, some, List, [], ◌∷◌,
  arith, ok, ◌==◌, count, find?, or_throw, ◌>>=◌, length,
}
use hub_assist.Booking.Model.{
  Booking, Workspace, Db, holds_seat, ranges_overlap, Bookings, workspace_not_found,
}
use hub_assist.Booking.Room.{occupancy}

pub record Availability : Type 0 where
  pub available : ℕ
  pub capacity : ℕ

abbrev takes_seat : ℕ → ℕ → ℕ → Booking → Bool
takes_seat workspace_id start_time end_time b =
    b.workspace_id == workspace_id
    && (holds_seat b.status && ranges_overlap start_time end_time b.start_time b.end_time)

-- The query and the subtraction, which both methods make.
unfoldable pub free_seats : Workspace → List Booking → ℕ → ℕ → ℕ
free_seats workspace bookings start_time end_time =
    workspace.capacity - count (takes_seat workspace.id start_time end_time) bookings

unfoldable pub has_capacity : Db → ℕ → ℕ → ℕ → Bookings Availability
unfolding free_seats
has_capacity db workspace_id start_time end_time = do
  workspace ← or_throw (find? (λ w. w.id == workspace_id) db.workspaces) workspace_not_found
  ok (record {
    available = free_seats workspace db.bookings start_time end_time;
    capacity = workspace.capacity;
  })

pub record AvailabilitySlot : Type 0 where
  pub hour : ℕ
  pub available : ℕ
  pub capacity : ℕ

-- `setUTCHours(0, 0, 0, 0)`.
abbrev pub start_of_day : ℕ → ℕ
start_of_day date = date / 86400000 * 86400000

-- The loop from slot `hour` on, with the number of slots that are left.
unfoldable pub hourly_slots : ℕ → ℕ → ℕ → Workspace → List Booking → List AvailabilitySlot
hourly_slots zero hour day workspace bookings = []
hourly_slots (suc left) hour day workspace bookings =
    record {
      hour = day + hour * 3600000;
      available = free_seats workspace bookings (day + hour * 3600000) (day + (hour + 1) * 3600000);
      capacity = workspace.capacity;
    }
    ∷ hourly_slots left (hour + 1) day workspace bookings

unfoldable pub get_hourly_availability : Db → ℕ → ℕ → Bookings (List AvailabilitySlot)
get_hourly_availability db workspace_id date = do
  workspace ← or_throw (find? (λ w. w.id == workspace_id) db.workspaces) workspace_not_found
  ok (hourly_slots 24 0 (start_of_day date) workspace db.bookings)

-- A booking that holds a moment of the range is counted.
occupancy-le :
    (w s e t : ℕ) (bs : List Booking)
    → s ≤ t
    → t < e
    → occupancy bs w none t ≤ count (takes_seat w s e) bs
occupancy-le w s e t [] h k = omega arith
occupancy-le w s e t (b ∷ bs) h k = let ih = occupancy-le w s e t bs h k in ground arith

-- Free seats are free at every moment of the range: with one or more of them, and as many more
-- bookings as there are free seats, no moment is held by more than the capacity.
free_seats-HasSeat :
    (w : Workspace) (bookings : List Booking) (start_time end_time t : ℕ)
    → start_time ≤ t
    → t < end_time
    → 0 < free_seats w bookings start_time end_time
    → occupancy bookings w.id none t + free_seats w bookings start_time end_time ≤ w.capacity
unfolding free_seats
free_seats-HasSeat w bs s e t h k free = omega (arith, occupancy-le w.id s e t bs h k)

-- Consecutive hours from `from` on: each slot has the hour's start, and no moment of that hour is
-- held by more bookings than the slot's capacity less its free seats, if it has any.
abbrev pub TrueSlots : List Booking → Workspace → ℕ → List AvailabilitySlot → Type 0
TrueSlots bookings w from [] = Unit
TrueSlots bookings w from (slot ∷ rest) =
    (slot.hour ≡ from)
    × (slot.capacity ≡ w.capacity)
    × ((t : ℕ)
        → from ≤ t
        → t < from + 3600000
        → 0 < slot.available
        → occupancy bookings w.id none t + slot.available ≤ slot.capacity)
    × TrueSlots bookings w (from + 3600000) rest

hourly_slots-TrueSlots :
    (left hour day from : ℕ) (w : Workspace) (bookings : List Booking)
    → from ≡ day + hour * 3600000
    → TrueSlots bookings w from (hourly_slots left hour day w bookings)
unfolding hourly_slots
hourly_slots-TrueSlots zero hour day from w bs h = tt
hourly_slots-TrueSlots (suc left) hour day from w bs h = (
  omega arith,
  refl,
  λ t lo hi free. free_seats-HasSeat w bs _ _ t (omega arith) (omega arith) free,
  hourly_slots-TrueSlots left (hour + 1) day (from + 3600000) w bs (omega arith),
)

hourly_slots-length :
    (left hour day : ℕ) (w : Workspace) (bookings : List Booking)
    → length (hourly_slots left hour day w bookings) ≡ left
unfolding hourly_slots
hourly_slots-length zero hour day w bs = refl
hourly_slots-length (suc left) hour day w bs =
    omega (arith, hourly_slots-length left (hour + 1) day w bs)

-- The availability of a day has 24 slots, one for each hour from the start of the day, and a slot's
-- free seats are free at every moment of its hour.
pub get_hourly_availability-TrueSlots :
    (db : Db) (w : Workspace) (date : ℕ)
    → find? (λ x. x.id == w.id) db.workspaces ≡ some w
    → (slots : List AvailabilitySlot) × (get_hourly_availability db w.id date ≡ ok slots)
      × (length slots ≡ 24)
      × TrueSlots db.bookings w (start_of_day date) slots
unfolding get_hourly_availability
get_hourly_availability-TrueSlots db w date found = (
  hourly_slots 24 0 (start_of_day date) w db.bookings,
  rw found,
  hourly_slots-length 24 0 (start_of_day date) w db.bookings,
  hourly_slots-TrueSlots 24 0 (start_of_day date) (start_of_day date) w db.bookings (omega arith),
)
