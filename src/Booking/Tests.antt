-- ===== src/Booking/Tests.antt =====
-- The booking services of backend/src/bookings on a workspace with one desk.
use hub_assist.Common.{
  ℕ, ◌+◌, ◌*◌, ◌<◌, ◌≡◌, refl, inl, none, some, List, [], ◌∷◌, ◌++◌, arith, ◌==◌, ok, All-find?,
}
use hub_assist.Numbers.{micros}
use hub_assist.Booking.Model.{
  Booking, pending, confirmed, cancelled, Workspace, hot_desk, Db, stellar_escrow_create,
  stellar_booking_confirmed,
}
use hub_assist.Booking.Recurrence.{RRule}
use hub_assist.Booking.Service.{
  Env, dashboard_invalidated, booking_confirmed_sent, webhook_enqueued, booking_cancelled_sent,
  CreateBookingDto, UpdateBookingDto, single_booking, create, create_on, create_single, check_free,
  reject_conflict, price_range,
}
use hub_assist.Booking.Conflict.{has_conflict, find_conflict, capacity_conflict, is_overlapping}
use hub_assist.Pricing.Engine.{calculate_price}
use hub_assist.Booking.Safety.{IsSound}
use hub_assist.Booking.Lifecycle.{
  confirm, cancel, update, verify_payment, cancelled_booking, find_by_id, save_booking, times_given,
  reprice,
}
use hub_assist.Booking.SafeUpdate.{IsUpdated, update-IsSound}
use hub_assist.Booking.Reachable.{create-IsSound, Reach, Step, Reach-IsSound}
use hub_assist.Booking.Refund.{effective_policy, evaluate_refund, refund_for}

abbrev pub hour : ℕ → ℕ
hour n = n * 3600000

abbrev pub desk : Workspace
desk = record { id = 1; name = "Desk"; kind = hot_desk; capacity = 1; price_per_hour = 1000 }

-- The user 7 holds the desk from nine to eleven.
abbrev pub held : Booking
held = record {
  id = 5;
  workspace_id = 1;
  user_id = 7;
  start_time = hour 9;
  end_time = hour 11;
  status = pending;
  total_amount = 2000;
  stellar_tx_hash = none;
  recurrence_rule = none;
  series_id = some 3;
  instance_index = some 0;
  refund_amount = none;
}

abbrev pub db_of : List Booking → Db
db_of bookings = record {
  workspaces = desk ∷ [];
  windows = [];
  rules = [];
  policies = [];
  bookings = bookings;
  outbox = [];
}

-- Every rule has two occurrences, at nine and at ten.
abbrev pub twice : RRule
twice = record { all = λ text from goes_on. some (hour 9 ∷ hour 10 ∷ []) }

abbrev pub env : Env
env = record {
  numbers = micros;
  rrule = twice;
  transaction_status = λ hash. some "SUCCESS";
  new_key = λ n. n + 20;
  new_series = 30;
}

db_of_nothing-IsSound : IsSound (db_of [])
db_of_nothing-IsSound = record {
  respects = record {
    capacity_pos = λ w f.
        All-find? (λ x. 0 < x.capacity) (λ x. x.id == w.id) (desk ∷ []) w (omega arith, tt) f;
    within = λ w f t. omega arith;
  };
  keys = tt;
}

pub db_of_one-IsSound : (b : Booking) → IsSound (db_of (b ∷ []))
db_of_one-IsSound b = record {
  respects = record {
    capacity_pos = λ w f.
        All-find? (λ x. 0 < x.capacity) (λ x. x.id == w.id) (desk ∷ []) w (omega arith, tt) f;
    within = λ w f t.
        let room =
          All-find? (λ x. 0 < x.capacity) (λ x. x.id == w.id) (desk ∷ []) w (omega arith, tt) f in
        ground arith;
  };
  keys = (tt, tt);
}

abbrev pub request : CreateBookingDto
request = record {
  workspace_id = 1;
  start_time = hour 9;
  end_time = hour 11;
  stellar_tx_hash = none;
  recurrence_rule = none;
}

abbrev created_booking : Booking
created_booking = record held { id = 20; series_id = none; instance_index = none }

abbrev created_db : Db
created_db = record (db_of (created_booking ∷ [])) {
  outbox =
      record {
        event_type = stellar_escrow_create;
        booking_id = 20;
        user_id = 7;
        workspace_id = 1;
        total_amount = 2000;
        stellar_tx_hash = none;
      }
      ∷ [];
}

creates :
    create env (db_of []) 7 request "BRONZE"
    ≡ ok (created_db, created_booking ∷ [], dashboard_invalidated ∷ [])
unfolding create create_on create_single check_free has_conflict reject_conflict price_range
    single_booking find_conflict capacity_conflict calculate_price
creates = refl

create-IsSound_example :
    IsSound created_db
    × (hour 9 < hour 11)
    × ((total : ℕ) × (created_db.bookings ≡ [] ++ single_booking env 7 request total ∷ []))
create-IsSound_example =
    create-IsSound env (db_of []) 7 request "BRONZE" db_of_nothing-IsSound refl tt creates

Reach-IsSound_example : IsSound created_db
Reach-IsSound_example =
    Reach-IsSound db_of_nothing-IsSound
      (Reach.next Reach.here (Step.created env 7 request "BRONZE" refl tt creates))

abbrev confirmed_held : Booking
confirmed_held = record held { status = confirmed }

abbrev confirmed_db : Db
confirmed_db = record (db_of (confirmed_held ∷ [])) {
  outbox =
      record {
        event_type = stellar_booking_confirmed;
        booking_id = 5;
        user_id = 7;
        workspace_id = 1;
        total_amount = 2000;
        stellar_tx_hash = none;
      }
      ∷ [];
}

confirms :
    confirm env (db_of (held ∷ [])) 5
    ≡ ok (
      confirmed_db,
      confirmed_held,
      booking_confirmed_sent 7 5 ∷ webhook_enqueued confirmed_held ∷ [],
    )
unfolding confirm find_by_id verify_payment save_booking
confirms = refl

-- Thirty hours before the start everything is paid back.
abbrev cancelled_held : Booking
cancelled_held = record held {
  start_time = hour 39;
  end_time = hour 41;
  status = cancelled;
  refund_amount = some 2000;
}

abbrev held_late : Booking
held_late = record held { start_time = hour 39; end_time = hour 41 }

cancels :
    cancel env (db_of (held_late ∷ [])) (hour 9) 5 7
    ≡ ok (db_of (cancelled_held ∷ []), cancelled_held, booking_cancelled_sent 7 5 2000 100 ∷ [])
unfolding cancel find_by_id cancelled_booking evaluate_refund save_booking refund_for
    effective_policy
cancels = refl

abbrev pub move : UpdateBookingDto
move = record {
  status = none;
  stellar_tx_hash = none;
  start_time = some (hour 10);
  end_time = some (hour 12);
}

abbrev moved : Booking
moved = record held { start_time = hour 10; end_time = hour 12 }

updates : update env (db_of (held ∷ [])) 5 move "BRONZE" ≡ ok (db_of (moved ∷ []), moved)
unfolding update find_by_id reprice check_free has_conflict reject_conflict price_range save_booking
    find_conflict capacity_conflict is_overlapping calculate_price
updates = refl

update-IsSound_example :
    IsSound (db_of (moved ∷ []))
    × IsUpdated (db_of (held ∷ [])) (db_of (moved ∷ [])) move held moved
unfolding times_given
update-IsSound_example =
    update-IsSound env (db_of (held ∷ [])) 5 move "BRONZE" held (db_of_one-IsSound held) refl
      (inl refl) updates
