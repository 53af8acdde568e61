-- ===== src/Booking/Lifecycle.antt =====
-- backend/src/bookings/bookings.service.ts: the calls on bookings that are there (`confirm`, `cancel`,
-- `cancelSeries`, `update` and the reads).
use Prim.Native.String.{String}
use text.Mathlib.Text.{◌==◌ as str_eq}
use hub_assist.Common.{
  ℕ, ◌-◌, Bool, true, false, not, ◌&&◌, ◌||◌, Option, none, some, get_or, List, [], ◌∷◌, ◌++◌, ok,
  err, ltb, ◌==◌, if◌then◌else◌, find?, filter, length, or_throw, throw_if, ◌>>=◌, ◌>>◌,
  update_where,
}
use hub_assist.Pricing.Rules.{present, or_else}
use hub_assist.Booking.Model.{
  BookingStatus, pending, confirmed, cancelled, Workspace, WorkspaceType, Booking, Db, Bookings,
  workspace_not_found, booking_not_found, series_not_found, payment_not_verified,
  only_pending_confirmed, not_authorized, stellar_booking_confirmed,
}
use hub_assist.Booking.Refund.{evaluate_refund}
use hub_assist.Booking.Service.{
  Env, Effect, booking_confirmed_sent, webhook_enqueued, booking_cancelled_sent,
  series_cancelled_sent, UpdateBookingDto, check_free, price_range, outbox_entry,
}

abbrev pub is_pending : BookingStatus → Bool
is_pending pending = true
is_pending _ = false

abbrev pub is_cancelled : BookingStatus → Bool
is_cancelled cancelled = true
is_cancelled _ = false

-- `findById`, which `confirm` and `update` repeat inside their transactions.
unfoldable pub find_by_id : Db → ℕ → Bookings Booking
find_by_id db id = or_throw (find? (λ b. b.id == id) db.bookings) booking_not_found

-- `save` of a row that is there.
unfoldable pub save_booking : Booking → List Booking → List Booking
save_booking b rows = update_where (λ x. x.id == b.id) (λ _. b) rows

-- The relation `workspace` of a booking.
abbrev pub workspace_of : Db → Booking → Option Workspace
workspace_of db b = find? (λ w. w.id == b.workspace_id) db.workspaces

abbrev kind_of : Option Workspace → Option WorkspaceType
kind_of none = none
kind_of (some w) = some w.kind

abbrev pub workspace_kind : Db → Booking → Option WorkspaceType
workspace_kind db b = kind_of (workspace_of db b)

-- `findAll`: an admin sees every booking, a user those of their own.
unfoldable pub find_all : Db → Option ℕ → Bool → List Booking
find_all db none is_admin = db.bookings
find_all db (some user_id) is_admin =
    if is_admin then db.bookings else filter (λ b. b.user_id == user_id) db.bookings

abbrev pub in_series : ℕ → Booking → Bool
in_series series_id b = elim b.series_id [ none ↦ false | some s ↦ s == series_id ]

abbrev verify_status : Option String → Bool
verify_status none = false
verify_status (some status) = str_eq status "SUCCESS"

-- The instances that `cancelSeries` cancels.
abbrev pub is_future : ℕ → Booking → Bool
is_future now b = ltb now b.start_time && not (is_cancelled b.status)

pub record SeriesCancellation : Type 0 where
  pub cancelled_count : ℕ
  pub preserved_count : ℕ

-- `allInstances[0]`, or the refusal of an empty series.
unfoldable pub first_instance : List Booking → Bookings Booking
first_instance [] = err series_not_found
first_instance (b ∷ bs) = ok b

-- `Object.assign(booking, dto)`.
unfoldable pub assign_booking : Booking → UpdateBookingDto → Booking
assign_booking b dto = record b {
  status = get_or dto.status b.status;
  stellar_tx_hash = or_else dto.stellar_tx_hash b.stellar_tx_hash;
  start_time = get_or dto.start_time b.start_time;
  end_time = get_or dto.end_time b.end_time;
}

unfoldable pub times_given : UpdateBookingDto → Bool
times_given dto = present dto.start_time || present dto.end_time

module _ (env : Env) where
  -- The verification in `confirm`: a hash that is absent or empty is not looked up; a call that
  -- throws and a status that is not SUCCESS are refused alike.
  unfoldable pub verify_payment : Option String → Bookings (Unit {0})
  verify_payment none = ok tt
  verify_payment (some hash) =
      if str_eq hash ""
      then ok tt
      else throw_if (not (verify_status (env.transaction_status hash))) payment_not_verified

  unfoldable pub confirm : Db → ℕ → Bookings (Db × Booking × List Effect)
  confirm db id = do
    booking ← find_by_id db id
    verify_payment booking.stellar_tx_hash
    throw_if (not (is_pending booking.status)) only_pending_confirmed
    let saved = record booking { status = confirmed }
    ok (
      record db {
        bookings = save_booking saved db.bookings;
        outbox = db.outbox ++ outbox_entry env stellar_booking_confirmed saved ∷ [];
      },
      saved,
      booking_confirmed_sent saved.user_id saved.id ∷ webhook_enqueued saved ∷ [],
    )

  -- A booking as a cancellation leaves it.
  unfoldable pub cancelled_booking : Db → ℕ → Booking → Booking
  cancelled_booking db now booking =
      let refund =
        evaluate_refund env.numbers db.policies (workspace_kind db booking) booking now in
      record booking { status = cancelled; refund_amount = some refund.refund_amount }

  unfoldable pub cancel : Db → ℕ → ℕ → ℕ → Bookings (Db × Booking × List Effect)
  cancel db now id user_id = do
    booking ← find_by_id db id
    throw_if (not (booking.user_id == user_id)) not_authorized
    let refund = evaluate_refund env.numbers db.policies (workspace_kind db booking) booking now
    let saved = cancelled_booking db now booking
    ok (
      record db { bookings = save_booking saved db.bookings },
      saved,
      booking_cancelled_sent saved.user_id saved.id refund.refund_amount refund.refund_percent ∷ [],
    )

  unfoldable pub cancel_instance : Db → ℕ → ℕ → Booking → Booking
  cancel_instance db now series_id b =
      if in_series series_id b && is_future now b then cancelled_booking db now b else b

  -- The loop and the save of `cancelSeries`, row by row.
  unfoldable pub cancel_instances : Db → ℕ → ℕ → List Booking → List Booking
  cancel_instances db now series_id [] = []
  cancel_instances db now series_id (b ∷ bs) =
      cancel_instance db now series_id b ∷ cancel_instances db now series_id bs

  unfoldable pub cancel_series : Db → ℕ → ℕ → ℕ → Bookings (Db × SeriesCancellation × List Effect)
  cancel_series db now series_id user_id = do
    let all_instances = filter (in_series series_id) db.bookings
    owner ← first_instance all_instances
    throw_if (not (owner.user_id == user_id)) not_authorized
    let count = length (filter (is_future now) all_instances)
    let done : SeriesCancellation = record {
      cancelled_count = count;
      preserved_count = length all_instances - count;
    }
    (if count == 0
        then ok (db, done, [])
        else ok (
          record db { bookings = cancel_instances db now series_id db.bookings },
          done,
          series_cancelled_sent user_id series_id count ∷ [],
        ))

  -- The check and the new price of `update`, made only if a time is given. The price reads the
  -- booking's workspace, which the check has found.
  unfoldable pub reprice : Db → UpdateBookingDto → String → Booking → Bookings Booking
  unfolding times_given
  reprice db dto tier booking =
      if times_given dto
      then (do
        let start_time = get_or dto.start_time booking.start_time
        let end_time = get_or dto.end_time booking.end_time
        check_free db booking.workspace_id start_time end_time (some booking.id)
        workspace ← or_throw (workspace_of db booking) workspace_not_found
        total ← price_range env db workspace start_time end_time tier
        ok (record booking { total_amount = total }))
      else ok booking

  unfoldable pub update : Db → ℕ → UpdateBookingDto → String → Bookings (Db × Booking)
  unfolding assign_booking
  update db id dto tier = do
    booking ← find_by_id db id
    priced ← reprice db dto tier booking
    let saved = assign_booking priced dto
    ok (record db { bookings = save_booking saved db.bookings }, saved)
