-- ===== src/Booking/Series.antt =====
-- backend/src/bookings/booking-series.service.ts and booking-pricing.service.ts: the recurring bookings of
-- `BookingsService.create` as a service of their own, whose caller brings the amounts along. Its
-- `cancelSeries` has the text of the one in bookings.service.ts.
use Prim.Native.String.{String}
use hub_assist.Common.{
  if◌then◌else◌, ℕ, ◌+◌, ◌-◌, ◌≡◌, refl, ap, Option, none, some, List, [], ◌∷◌, ◌++◌, arith, leb,
  ◌==◌, ok, err, ◌>>=◌, ◌>>◌, throw_if, filter, length, map, zero, suc, Bool, true, false, not,
}
use mathlib.Core.Path.{subst}
use hub_assist.Pricing.Engine.{hours_between}
use hub_assist.Booking.Model.{
  pending, Workspace, Booking, Db, Bookings, end_not_after_start, series_not_found,
}
use hub_assist.Booking.Recurrence.{RecurrenceInstance, expand_instances}
use hub_assist.Booking.Service.{
  Env, CreateBookingDto, Effect, series_created, booking_confirmed_sent, webhook_enqueued,
  booking_cancelled_sent, series_cancelled_sent, dashboard_invalidated, check_instances, first_only,
  series_booking, series_bookings, create_series, price_range,
}
use hub_assist.Booking.Lifecycle.{in_series}

-- `totalAmounts[index] ?? 0`.
unfoldable pub amount_at : List ℕ → ℕ → ℕ
amount_at [] index = 0
amount_at (a ∷ rest) zero = a
amount_at (a ∷ rest) (suc index) = amount_at rest index

-- A booking that comes before another in the order of the index in the series.
abbrev index_of : Booking → ℕ
index_of b = elim b.instance_index [ some i ↦ i | none ↦ 0 ]

unfoldable insert_by_index : Booking → List Booking → List Booking
insert_by_index b [] = b ∷ []
insert_by_index b (c ∷ cs) =
    let rest = insert_by_index b cs in
    if leb (index_of b) (index_of c) then b ∷ c ∷ cs else c ∷ rest

unfoldable sort_by_index : List Booking → List Booking
unfolding insert_by_index
sort_by_index [] = []
sort_by_index (b ∷ bs) = insert_by_index b (sort_by_index bs)

-- `findBySeries`.
unfoldable pub find_by_series : Db → ℕ → Bookings (List Booking)
unfolding sort_by_index
find_by_series db series_id = do
  let bookings = sort_by_index (filter (in_series series_id) db.bookings)
  throw_if (length bookings == 0) series_not_found
  ok bookings

-- The arguments of `createSeries`.
pub record SeriesRequest : Type 0 where
  pub user_id : ℕ
  pub workspace_id : ℕ
  pub start_time : ℕ
  pub end_time : ℕ
  pub recurrence_rule : String
  pub total_amounts : List ℕ
  pub stellar_tx_hash : Option String

-- The rows added to the table, with a message on how many they are before others.
abbrev announced :
    Db → (ℕ → Effect) → List Effect → List Booking → Bookings (Db × List Booking × List Effect)
announced db message others rows =
    ok (record db { bookings = db.bookings ++ rows }, rows, message (length rows) ∷ others)

-- Whether a message is the one that drops the dashboard's cache.
abbrev pub drops_dashboard : Effect → Bool
drops_dashboard (series_created user_id series_id count) = false
drops_dashboard (booking_confirmed_sent user_id booking_id) = false
drops_dashboard (webhook_enqueued booking) = false
drops_dashboard (booking_cancelled_sent user_id booking_id amount percent) = false
drops_dashboard (series_cancelled_sent user_id series_id count) = false
drops_dashboard dashboard_invalidated = true

>>_then :
    {A B : Type 0} (checked : Bookings (Unit {0})) (x : Bookings B) (y : Bookings A)
    (f : A → Bookings B)
    → x ≡ (y >>= f)
    → (checked >> x) ≡ ((checked >> y) >>= f)
>>_then (ok t) x y f e = e
>>_then (err e) x y f h = refl

module _ (env : Env) where
  unfoldable pub series_row : SeriesRequest → ℕ → RecurrenceInstance → Booking
  unfolding amount_at
  series_row request index i = record {
    id = env.new_key index;
    workspace_id = request.workspace_id;
    user_id = request.user_id;
    start_time = i.start_time;
    end_time = i.end_time;
    status = pending;
    total_amount = amount_at request.total_amounts index;
    stellar_tx_hash = request.stellar_tx_hash;
    recurrence_rule = first_only index request.recurrence_rule;
    series_id = some env.new_series;
    instance_index = some index;
    refund_amount = none;
  }

  unfoldable pub series_rows : SeriesRequest → ℕ → List RecurrenceInstance → List Booking
  unfolding series_row
  series_rows request index [] = []
  series_rows request index (i ∷ is) =
      series_row request index i ∷ series_rows request (index + 1) is

  -- `createSeries`.
  unfoldable pub create_series_from :
      Db → SeriesRequest → Bookings (Db × List Booking × List Effect)
  create_series_from db request = do
    throw_if (leb request.end_time request.start_time) end_not_after_start
    instances ←
        expand_instances env.rrule request.recurrence_rule request.start_time
          (request.end_time - request.start_time)
    check_instances db request.workspace_id instances
    let saved = series_rows request 0 instances
    ok (
      record db { bookings = db.bookings ++ saved },
      saved,
      series_created request.user_id env.new_series (length saved) ∷ [],
    )

  -- `calculateSeriesPrices`: the engine's price of each instance.
  unfoldable pub calculate_series_prices :
      Db → Workspace → String → List RecurrenceInstance → Bookings (List ℕ)
  calculate_series_prices db workspace tier [] = ok []
  calculate_series_prices db workspace tier (i ∷ is) = do
    amount ← price_range env db workspace i.start_time i.end_time tier
    amounts ← calculate_series_prices db workspace tier is
    ok (amount ∷ amounts)

  -- The amounts that the recurring path of `create` charges: hours times the workspace's rate.
  abbrev hourly_amount : Workspace → RecurrenceInstance → ℕ
  hourly_amount workspace i = env.numbers.to_cents (
      env.numbers.mul (hours_between env.numbers i.start_time i.end_time)
        (env.numbers.of_cents workspace.price_per_hour))

  abbrev pub hourly_amounts : Workspace → List RecurrenceInstance → List ℕ
  hourly_amounts workspace is = map (hourly_amount workspace) is

  -- The request with which the series service is to do what `create` does.
  abbrev pub request_of : ℕ → CreateBookingDto → String → List ℕ → SeriesRequest
  request_of user_id dto rule amounts = record {
    user_id = user_id;
    workspace_id = dto.workspace_id;
    start_time = dto.start_time;
    end_time = dto.end_time;
    recurrence_rule = rule;
    total_amounts = amounts;
    stellar_tx_hash = dto.stellar_tx_hash;
  }

  series_rows-series_bookings :
      (workspace : Workspace) (user_id : ℕ) (dto : CreateBookingDto) (rule : String)
      (amounts : List ℕ) (index : ℕ) (is : List RecurrenceInstance)
      → ((k : ℕ) → amount_at amounts (index + k) ≡ amount_at (hourly_amounts workspace is) k)
      → series_rows (request_of user_id dto rule amounts) index is
        ≡ series_bookings env workspace user_id dto rule index is
  unfolding series_rows series_bookings series_row series_booking
  series_rows-series_bookings workspace user_id dto rule amounts index [] h = refl
  series_rows-series_bookings workspace user_id dto rule amounts index (i ∷ is) h =
      let ih = series_rows-series_bookings workspace user_id dto rule amounts (index + 1) is (λ k.
        subst (λ n. amount_at amounts n ≡ amount_at (hourly_amounts workspace is) k) (omega arith)
          (unfold amount_at in h (suc k))) in
      let here : amount_at amounts index ≡ hourly_amount workspace i =
        subst (λ n. amount_at amounts n ≡ hourly_amount workspace i) (omega arith)
          (unfold amount_at in h zero) in
      rw (here, ih) refl

  -- With an end after the start, and the amounts that `create`'s recurring path charges for the
  -- instances if the rule can be expanded, `createSeries` does what that path does: the same refusals,
  -- those of the rule included, the same rows in the same table, and of the path's messages all but the
  -- one that drops the dashboard's cache.
  pub create_series_from-create_series :
      (db : Db) (workspace : Workspace) (user_id : ℕ) (dto : CreateBookingDto) (rule : String)
      (amounts : List ℕ)
      → leb dto.end_time dto.start_time ≡ false
      → ((instances : List RecurrenceInstance)
          → expand_instances env.rrule rule dto.start_time (dto.end_time - dto.start_time)
            ≡ ok instances
          → amounts ≡ hourly_amounts workspace instances)
      → create_series_from db (request_of user_id dto rule amounts) ≡ (
          create_series env db workspace user_id dto rule >>= λ (db', rows, effects).
          ok (db', rows, filter (λ e. not (drops_dashboard e)) effects))
  unfolding create_series_from create_series
  create_series_from-create_series db workspace user_id dto rule amounts after charged = rw after (
      of_rule (expand_instances env.rrule rule dto.start_time (dto.end_time - dto.start_time))
        charged)
    where
      of_rule :
          (expanded : Bookings (List RecurrenceInstance))
          → ((instances : List RecurrenceInstance)
              → expanded ≡ ok instances
              → amounts ≡ hourly_amounts workspace instances)
          → (expanded >>= λ instances.
              check_instances db dto.workspace_id instances
              >> announced db
                  (series_created user_id env.new_series)
                  []
                  (series_rows (request_of user_id dto rule amounts) 0 instances))
            ≡ ((expanded >>= λ instances.
                  check_instances db dto.workspace_id instances
                  >> announced db
                      (series_created user_id env.new_series)
                      (dashboard_invalidated ∷ [])
                      (series_bookings env workspace user_id dto rule 0 instances))
                >>= λ (db', rows, effects).
                    ok (db', rows, filter (λ e. not (drops_dashboard e)) effects))
      of_rule (err e) h = refl
      of_rule (ok instances) h = rw (h instances refl) (
          >>_then (check_instances db dto.workspace_id instances) _ _ _ (
            rw
              (series_rows-series_bookings workspace user_id dto rule
                (hourly_amounts workspace instances) 0 instances
                (λ k. ap (amount_at (hourly_amounts workspace instances)) (omega arith)))
              refl))
