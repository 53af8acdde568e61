-- ===== src/Booking/Service.antt =====
-- backend/src/bookings/bookings.service.ts: create, confirm, cancel, cancelSeries and update. A call
-- takes the tables and returns them anew, with the messages that it sends; a call that throws
-- leaves the tables alone, as the transaction does.
use Prim.Native.String.{String}
use hub_assist.Common.{
  ℕ, ◌+◌, ◌-◌, ◌&&◌, Option, none, some, List, [], ◌∷◌, ◌++◌, ok, err, leb, ◌==◌, if◌then◌else◌,
  find?, filter, length, or_throw, throw_if, ◌>>=◌, ◌>>◌,
}
use hub_assist.Numbers.{Numbers}
use hub_assist.Pricing.Rules.{PriceRule}
use hub_assist.Pricing.Engine.{calculate_price, hours_between}
use hub_assist.Booking.Model.{
  BookingStatus, pending, Workspace, Booking, OutboxEntry, Db, ConflictDetail, Bookings,
  workspace_not_found, end_not_after_start, booking_conflict, stellar_escrow_create,
  OutboxEventType,
}
use hub_assist.Booking.Conflict.{has_conflict}
use hub_assist.Booking.Recurrence.{RRule, RecurrenceInstance, expand_instances}

-- What a call sends besides its writes.
pub data Effect : Type 0 where
  series_created : (user_id series_id instance_count : ℕ) → Effect
  booking_confirmed_sent : (user_id booking_id : ℕ) → Effect
  webhook_enqueued : Booking → Effect
  booking_cancelled_sent : (user_id booking_id refund_amount refund_percent : ℕ) → Effect
  series_cancelled_sent : (user_id series_id cancelled_count : ℕ) → Effect
  dashboard_invalidated : Effect

-- What the environment supplies: number arithmetic, the RRULE package, the status that the Stellar
-- network reports of a transaction (none where the call throws), and the keys of new rows.
pub record Env : Type 1 where
  pub numbers : Numbers
  pub rrule : RRule
  pub transaction_status : String → Option String
  pub new_key : ℕ → ℕ
  pub new_series : ℕ

pub record CreateBookingDto : Type 0 where
  pub workspace_id : ℕ
  pub start_time : ℕ
  pub end_time : ℕ
  pub stellar_tx_hash : Option String
  pub recurrence_rule : Option String

pub record UpdateBookingDto : Type 0 where
  pub status : Option BookingStatus
  pub stellar_tx_hash : Option String
  pub start_time : Option ℕ
  pub end_time : Option ℕ

-- `if (conflict) throw`.
unfoldable pub reject_conflict : Option ConflictDetail → Bookings (Unit {0})
reject_conflict none = ok tt
reject_conflict (some detail) = err (booking_conflict detail)

unfoldable pub check_free : Db → ℕ → ℕ → ℕ → Option ℕ → Bookings (Unit {0})
unfolding reject_conflict
check_free db workspace_id start_time end_time exclude_id = do
  conflict ← has_conflict db workspace_id start_time end_time exclude_id
  reject_conflict conflict

-- The loop over the instances of a series, before any is inserted.
unfoldable pub check_instances : Db → ℕ → List RecurrenceInstance → Bookings (Unit {0})
check_instances db workspace_id [] = ok tt
check_instances db workspace_id (i ∷ is) =
    check_free db workspace_id i.start_time i.end_time none >> check_instances db workspace_id is

abbrev pub first_only {ℓ} : {A : Type ℓ} → ℕ → A → Option A
first_only index a = if index == 0 then some a else none

module _ (env : Env) where
  unfoldable pub series_booking :
      Workspace → ℕ → CreateBookingDto → String → ℕ → RecurrenceInstance → Booking
  series_booking workspace user_id dto rule index i = record {
    id = env.new_key index;
    workspace_id = dto.workspace_id;
    user_id = user_id;
    start_time = i.start_time;
    end_time = i.end_time;
    status = pending;
    total_amount = env.numbers.to_cents (
        env.numbers.mul (hours_between env.numbers i.start_time i.end_time)
          (env.numbers.of_cents workspace.price_per_hour));
    stellar_tx_hash = dto.stellar_tx_hash;
    recurrence_rule = first_only index rule;
    series_id = some env.new_series;
    instance_index = some index;
    refund_amount = none;
  }

  unfoldable pub series_bookings :
      Workspace → ℕ → CreateBookingDto → String → ℕ → List RecurrenceInstance → List Booking
  unfolding series_booking
  series_bookings workspace user_id dto rule index [] = []
  series_bookings workspace user_id dto rule index (i ∷ is) =
      series_booking workspace user_id dto rule index i
      ∷ series_bookings workspace user_id dto rule (index + 1) is

  -- The recurring path of `create`.
  unfoldable pub create_series :
      Db → Workspace → ℕ → CreateBookingDto → String → Bookings (Db × List Booking × List Effect)
  create_series db workspace user_id dto rule = do
    instances ← expand_instances env.rrule rule dto.start_time (dto.end_time - dto.start_time)
    check_instances db dto.workspace_id instances
    let rows = series_bookings workspace user_id dto rule 0 instances
    ok (
      record db { bookings = db.bookings ++ rows },
      rows,
      series_created user_id env.new_series (length rows) ∷ dashboard_invalidated ∷ [],
    )

  unfoldable pub single_booking : ℕ → CreateBookingDto → ℕ → Booking
  single_booking user_id dto total = record {
    id = env.new_key 0;
    workspace_id = dto.workspace_id;
    user_id = user_id;
    start_time = dto.start_time;
    end_time = dto.end_time;
    status = pending;
    total_amount = total;
    stellar_tx_hash = dto.stellar_tx_hash;
    recurrence_rule = dto.recurrence_rule;
    series_id = none;
    instance_index = none;
    refund_amount = none;
  }

  abbrev pub active_rules : Db → ℕ → List PriceRule
  active_rules db workspace_id =
      filter (λ r. r.workspace_id == workspace_id && r.is_active) db.rules

  -- The price of a range; a refusal of the engine is that of the service.
  unfoldable pub price_range : Db → Workspace → ℕ → ℕ → String → Bookings ℕ
  price_range db workspace start_time end_time tier =
      elim (calculate_price env.numbers start_time end_time tier workspace.price_per_hour
        (active_rules db workspace.id)) [
          | ok snapshot ↦ ok snapshot.total_amount
          | err e ↦ err end_not_after_start
        ]

  abbrev pub outbox_entry : OutboxEventType → Booking → OutboxEntry
  outbox_entry kind b = record {
    event_type = kind;
    booking_id = b.id;
    user_id = b.user_id;
    workspace_id = b.workspace_id;
    total_amount = b.total_amount;
    stellar_tx_hash = b.stellar_tx_hash;
  }

  -- The single path of `create`.
  unfoldable pub create_single :
      Db → Workspace → ℕ → CreateBookingDto → String → Bookings (Db × List Booking × List Effect)
  create_single db workspace user_id dto tier = do
    check_free db dto.workspace_id dto.start_time dto.end_time none
    total ← price_range db workspace dto.start_time dto.end_time tier
    let saved = single_booking user_id dto total
    ok (
      record db {
        bookings = db.bookings ++ saved ∷ [];
        outbox = db.outbox ++ outbox_entry stellar_escrow_create saved ∷ [];
      },
      saved ∷ [],
      dashboard_invalidated ∷ [],
    )

  unfoldable pub create_on :
      Db → Workspace → ℕ → CreateBookingDto → String → Bookings (Db × List Booking × List Effect)
  create_on db workspace user_id dto tier = elim dto.recurrence_rule [
    | some rule ↦ create_series db workspace user_id dto rule
    | none ↦ create_single db workspace user_id dto tier
  ]

  unfoldable pub create :
      Db → ℕ → CreateBookingDto → String → Bookings (Db × List Booking × List Effect)
  create db user_id dto tier = do
    workspace ← or_throw (find? (λ w. w.id == dto.workspace_id) db.workspaces) workspace_not_found
    throw_if (leb dto.end_time dto.start_time) end_not_after_start
    create_on db workspace user_id dto tier
