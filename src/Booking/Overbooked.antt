-- ===== src/Booking/Overbooked.antt =====
-- Two calls of backend/src/bookings/bookings.service.ts that overbook a workspace: a series whose own
-- instances overlap, and an update that gives a cancelled booking its seat back.
use hub_assist.Common.{
  ℕ, ◌+◌, ◌-◌, ◌≤◌, ◌<◌, ◌≡◌, refl, true, false, none, some, [], ◌∷◌, ◌++◌, arith, ◌==◌, ok, count,
  count-append, find?, ==→eq, find?-holds,
}
use Prim.Native.String.{String}
use hub_assist.Booking.Model.{Booking, Workspace, Db, BookingStatus, holds_seat, cancelled}
use hub_assist.Booking.Room.{occupies, occupancy}
use hub_assist.Booking.Recurrence.{RecurrenceInstance, expand_instances}
use hub_assist.Booking.Service.{
  Env, CreateBookingDto, UpdateBookingDto, Effect, create_series, series_bookings, check_instances,
}
use hub_assist.Booking.Lifecycle.{
  find_by_id, save_booking, update, reprice, assign_booking, times_given,
}
use hub_assist.Booking.Keys.{UniqueKeys, one_if, count-save}

-- The checks of a series look at the bookings that are stored, and not at the other instances: where
-- the rule gives two instances that hold one moment, and that moment has a single seat left, the
-- series is stored and the moment is overbooked.
pub create_series_overbooks :
    (env : Env) (db : Db) (w : Workspace) (user_id t : ℕ) (dto : CreateBookingDto) (rule : String)
    (i j : RecurrenceInstance)
    → expand_instances env.rrule rule dto.start_time (dto.end_time - dto.start_time)
      ≡ ok (i ∷ j ∷ [])
    → check_instances db dto.workspace_id (i ∷ j ∷ []) ≡ ok tt
    → dto.workspace_id ≡ w.id
    → i.start_time ≤ t
    → t < i.end_time
    → j.start_time ≤ t
    → t < j.end_time
    → occupancy db.bookings w.id none t + 1 ≡ w.capacity
    → let rows = db.bookings ++ series_bookings env w user_id dto rule 0 (i ∷ j ∷ []) in
      (create_series env db w user_id dto rule
        ≡ ok (
          record db { bookings = rows },
          series_bookings env w user_id dto rule 0 (i ∷ j ∷ []),
          Effect.series_created user_id env.new_series 2 ∷ Effect.dashboard_invalidated ∷ [],
        ))
      × (occupancy rows w.id none t ≡ w.capacity + 1)
unfolding create_series series_bookings
create_series_overbooks env db w user_id t dto rule i j ex ch ws a b c d full = (
  rw (ex, ch) refl,
  omega (
    arith,
    full,
    count-append (occupies w.id none t) db.bookings
        (series_bookings env w user_id dto rule 0 (i ∷ j ∷ [])),
    both_count,
  ),
)
  where
    both_count :
        count (occupies w.id none t) (series_bookings env w user_id dto rule 0 (i ∷ j ∷ [])) ≡ 2
    both_count = ground arith

-- An update that sets the status alone is not checked: a cancelled booking of a full moment gets its
-- seat back, and the moment is overbooked.
pub update_overbooks :
    (env : Env) (db : Db) (w : Workspace) (id t : ℕ) (dto : UpdateBookingDto) (tier : String)
    (b : Booking) (status : BookingStatus)
    → UniqueKeys db.bookings
    → find? (λ x. x.id == id) db.bookings ≡ some b
    → b.status ≡ cancelled
    → dto.status ≡ some status
    → holds_seat status ≡ true
    → dto.start_time ≡ none
    → dto.end_time ≡ none
    → b.workspace_id ≡ w.id
    → b.start_time ≤ t
    → t < b.end_time
    → occupancy db.bookings w.id none t ≡ w.capacity
    → let rows = save_booking (assign_booking b dto) db.bookings in
      (update env db id dto tier ≡ ok (record db { bookings = rows }, assign_booking b dto))
      × (occupancy rows w.id none t ≡ w.capacity + 1)
unfolding update find_by_id reprice assign_booking
update_overbooks env db w id t dto tier b status u found was st holds ns ne ws lo hi full = (
  rw (found, no_times) refl,
  omega (
    arith,
    full,
    count-save (occupies w.id none t) id db.bookings b (assign_booking b dto) u found key,
    before,
    after,
  ),
)
  where
    no_times : times_given dto ≡ false
    no_times = unfold times_given in ground arith

    key : (assign_booking b dto).id ≡ id
    key = ==→eq _ _ (find?-holds (λ x. x.id == id) db.bookings b found)

    before : one_if (occupies w.id none t b) ≡ 0
    before = ground arith

    after : one_if (occupies w.id none t (assign_booking b dto)) ≡ 1
    after = ground arith
