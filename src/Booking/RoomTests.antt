-- ===== src/Booking/RoomTests.antt =====
-- The checks, the refunds and the expansion of backend/src/bookings, and two calls that overbook, on the
-- data of the service's tests.
use hub_assist.Common.{
  ◌-◌, not, ap, sym, ◌∙◌, ok-injective, ◌+◌, ◌≡◌, ◌↔◌, refl, none, some, List, [], ◌∷◌, ◌++◌, arith,
  ok, length,
}
use hub_assist.Common.{ℕ, Bool, true, filter}
use hub_assist.Booking.Model.{Booking, confirmed, cancelled}
use hub_assist.Booking.Tests.{hour, desk, held, db_of, twice, env, request}
use hub_assist.Booking.Recurrence.{RecurrenceInstance, rule_text, instances_at, expand_instances}
use hub_assist.Booking.Service.{
  UpdateBookingDto, series_created, dashboard_invalidated, create_series, series_bookings,
  check_instances, check_free, reject_conflict,
}
use hub_assist.Booking.Conflict.{has_conflict, find_conflict, capacity_conflict, is_overlapping}
use hub_assist.Booking.Room.{occupancy, IsFree, has_conflict-none_iff}
use hub_assist.Booking.Lifecycle.{update, save_booking, assign_booking}
use hub_assist.Booking.Overbooked.{create_series_overbooks, update_overbooks}
use hub_assist.Booking.Capacity.{
  get_hourly_availability, get_hourly_availability-TrueSlots, AvailabilitySlot, TrueSlots,
  start_of_day,
}
use hub_assist.Common.{◌>>=◌}
use hub_assist.Booking.Series.{
  create_series_from, drops_dashboard, request_of, hourly_amounts, create_series_from-create_series,
}

-- The desk is free from eleven on.
has_conflict-none_iff_example :
    (has_conflict (db_of (held ∷ [])) 1 (hour 11) (hour 12) none ≡ ok none)
    ↔ IsFree (db_of (held ∷ [])) desk (hour 11) (hour 12) none
has_conflict-none_iff_example =
    has_conflict-none_iff (db_of (held ∷ [])) desk (hour 11) (hour 12) none refl (omega arith)
      (omega arith)

get_hourly_availability-TrueSlots_example :
    (slots : List AvailabilitySlot) × (get_hourly_availability (db_of (held ∷ [])) 1 (hour 9)
      ≡ ok slots)
    × (length slots ≡ 24)
    × TrueSlots (held ∷ []) desk (start_of_day (hour 9)) slots
get_hourly_availability-TrueSlots_example =
    get_hourly_availability-TrueSlots (db_of (held ∷ [])) desk (hour 9) refl

abbrev two_instances : List RecurrenceInstance
two_instances =
    record { start_time = hour 9; end_time = hour 11 }
    ∷ record { start_time = hour 10; end_time = hour 12 }
    ∷ []

expands : expand_instances twice "FREQ=HOURLY;COUNT=2" (hour 9) (hour 2) ≡ ok two_instances
unfolding expand_instances instances_at rule_text
expands = refl

instances_free : check_instances (db_of []) 1 two_instances ≡ ok tt
unfolding check_instances check_free has_conflict reject_conflict find_conflict capacity_conflict
    is_overlapping
instances_free = refl

create_series_overbooks_example :
    let rows = [] ++ series_bookings env desk 7 request "FREQ=HOURLY;COUNT=2" 0 two_instances in
    (create_series env (db_of []) desk 7 request "FREQ=HOURLY;COUNT=2"
      ≡ ok (
        record (db_of []) { bookings = rows },
        series_bookings env desk 7 request "FREQ=HOURLY;COUNT=2" 0 two_instances,
        series_created 7 30 2 ∷ dashboard_invalidated ∷ [],
      ))
    × (occupancy rows 1 none (hour 10) ≡ 1 + 1)
create_series_overbooks_example =
    create_series_overbooks env (db_of []) desk 7 (hour 10) request "FREQ=HOURLY;COUNT=2"
      (record { start_time = hour 9; end_time = hour 11 })
      (record { start_time = hour 10; end_time = hour 12 }) expands instances_free refl
      (omega arith) (omega arith) (omega arith) (omega arith) refl

abbrev lost : Booking
lost = record held { id = 6; status = cancelled }

abbrev restore : UpdateBookingDto
restore = record {
  status = some confirmed;
  stellar_tx_hash = none;
  start_time = none;
  end_time = none;
}

update_overbooks_example :
    let rows = save_booking (assign_booking lost restore) (lost ∷ held ∷ []) in
    (update env (db_of (lost ∷ held ∷ [])) 6 restore "BRONZE"
      ≡ ok (record (db_of (lost ∷ held ∷ [])) { bookings = rows }, assign_booking lost restore))
    × (occupancy rows 1 none (hour 10) ≡ 1 + 1)
update_overbooks_example =
    update_overbooks env (db_of (lost ∷ held ∷ [])) desk 6 (hour 10) restore "BRONZE" lost confirmed
      ((omega arith, tt), (tt, tt)) refl refl refl refl refl refl refl (omega arith) (omega arith)
      refl

amounts_of_rule :
    (instances : List RecurrenceInstance)
    → expand_instances env.rrule "FREQ=HOURLY;COUNT=2" request.start_time
        (request.end_time - request.start_time)
      ≡ ok instances
    → hourly_amounts env desk two_instances ≡ hourly_amounts env desk instances
amounts_of_rule instances e = ap (hourly_amounts env desk) (ok-injective (sym expands ∙ e))

create_series_from-create_series_example :
    create_series_from env
      (db_of [])
      (request_of env 7 request "FREQ=HOURLY;COUNT=2" (hourly_amounts env desk two_instances))
    ≡ (create_series env (db_of []) desk 7 request "FREQ=HOURLY;COUNT=2" >>= λ (db', rows, effects).
        ok (db', rows, filter (λ e. not (drops_dashboard e)) effects))
create_series_from-create_series_example =
    create_series_from-create_series env (db_of []) desk 7 request "FREQ=HOURLY;COUNT=2"
      (hourly_amounts env desk two_instances) refl amounts_of_rule

-- The desk has one confirmed booking, from nine on.
abbrev booked : Booking
booked = record held { status = confirmed }

abbrev every_user : ℕ → Bool
every_user id = true
