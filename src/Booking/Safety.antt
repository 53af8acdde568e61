-- ===== src/Booking/Safety.antt =====
-- The calls of backend/src/bookings/bookings.service.ts on bookings that are there: none takes a seat
-- that is not free, as long as `update` gives no seat back to a booking that had lost it.
use hub_assist.Common.{
  ℕ, ◌+◌, ◌≤◌, ◌≡◌, ◌≢◌, inl, inr, true, none, some, List, [], ◌∷◌, arith, ◌==◌, ok, All,
  Bool-cases, find?, ==→eq, find?-holds,
}
use mathlib.Core.Path.{subst}
use hub_assist.Booking.Model.{Booking, Workspace, Db, holds_seat}
use hub_assist.Booking.Room.{occupies, occupancy}
use hub_assist.Booking.Lifecycle.{save_booking, find_by_id}
use hub_assist.Booking.Keys.{UniqueKeys, one_if, count-save}
use hub_assist.Booking.Overbooking.{RespectsCapacity}

-- The invariant of the tables.
pub record IsSound (db : Db) : Type 0 where
  pub respects : RespectsCapacity db
  pub keys : UniqueKeys db.bookings

save_booking-ids :
    (b : Booking) (k : ℕ) (rows : List Booking)
    → All (λ x. x.id ≢ k) rows
    → All (λ x. x.id ≢ k) (save_booking b rows)
unfolding save_booking
save_booking-ids b k [] h = tt
save_booking-ids b k (x ∷ xs) h = ground (arith, save_booking-ids b k xs h.1)

save_booking-UniqueKeys :
    (b : Booking) (rows : List Booking) → UniqueKeys rows → UniqueKeys (save_booking b rows)
unfolding save_booking
save_booking-UniqueKeys b [] h = tt
save_booking-UniqueKeys b (x ∷ xs) h = elim (Bool-cases (x.id == b.id)) [
  | inl same ↦ rw same (
    subst (λ i. All (λ y. y.id ≢ i) (save_booking b xs)) (==→eq _ _ same)
        (unfold save_booking in save_booking-ids b x.id xs h.0),
    save_booking-UniqueKeys b xs h.1,
  )
  | inr other ↦
      rw other
        ((unfold save_booking in save_booking-ids b x.id xs h.0), save_booking-UniqueKeys b xs h.1)
]

-- A save that takes at most the seats that are free or the row's own.
pub save-IsSound :
    (db db' : Db) (id : ℕ) (b b' : Booking)
    → IsSound db
    → find? (λ x. x.id == id) db.bookings ≡ some b
    → b'.id ≡ id
    → ((w : Workspace)
        → find? (λ x. x.id == w.id) db.workspaces ≡ some w
        → (t : ℕ)
        → occupancy db.bookings w.id none t + one_if (occupies w.id none t b')
          ≤ w.capacity + one_if (occupies w.id none t b))
    → db'.workspaces ≡ db.workspaces
    → db'.bookings ≡ save_booking b' db.bookings
    → IsSound db'
save-IsSound db db' id b b' s found key room ws bs = record {
  respects = record {
    capacity_pos = λ x f. s.respects.capacity_pos x (rw ws at f);
    within = λ x f t.
        let exchanged = count-save (occupies x.id none t) id db.bookings b b' s.keys found key in
        let seat = room x (rw ws at f) t in rw bs (omega (arith, exchanged, seat));
  };
  keys = rw bs (save_booking-UniqueKeys b' db.bookings s.keys);
}

pub found_key :
    (id : ℕ) (rows : List Booking) (b : Booking) → find? (λ x. x.id == id) rows ≡ some b → b.id ≡ id
found_key id rows b f = ==→eq _ _ (find?-holds (λ x. x.id == id) rows b f)

-- A booking that keeps its range and workspace and gains no seat.
pub keeps_seat :
    (w t : ℕ) (b b' : Booking)
    → b'.workspace_id ≡ b.workspace_id
    → b'.start_time ≡ b.start_time
    → b'.end_time ≡ b.end_time
    → (holds_seat b'.status ≡ true → holds_seat b.status ≡ true)
    → one_if (occupies w none t b') ≤ one_if (occupies w none t b)
keeps_seat w t b b' ew es ee h = ground (arith, h)

pub find_by_id-found :
    (db : Db) (id : ℕ) {b : Booking}
    → find_by_id db id ≡ ok b
    → find? (λ x. x.id == id) db.bookings ≡ some b
unfolding find_by_id
find_by_id-found db id h = ground arith
