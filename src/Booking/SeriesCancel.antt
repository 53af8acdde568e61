-- ===== src/Booking/SeriesCancel.antt =====
-- `cancelSeries` of backend/src/bookings/bookings.service.ts (and of booking-series.service.ts, which has
-- the same text): what it cancels, and that the tables stay sound.
use hub_assist.Common.{
  ℕ, ◌-◌, ◌≤◌, ◌≡◌, ◌≢◌, refl, inl, inr, Bool, false, not, ◌&&◌, none, List, [], ◌∷◌, arith, ◌==◌,
  ok, All, Bool-cases, count, sym, ◌∙◌, >>=-eq-ok, throw_if, length, filter, ==→eq, ok-injective,
}
use mathlib.Core.Path.{subst}
use hub_assist.Booking.Model.{Booking, Db, not_authorized}
use hub_assist.Booking.Room.{occupies, occupancy}
use hub_assist.Booking.Service.{Env, Effect}
use hub_assist.Booking.Lifecycle.{
  cancelled_booking, cancel_instance, cancel_instances, cancel_series, in_series, is_future,
  first_instance, SeriesCancellation,
}
use hub_assist.Booking.Keys.{UniqueKeys, one_if}
use hub_assist.Booking.Safety.{IsSound}

-- An instance of the series that has not started and is not cancelled.
abbrev pub is_open : ℕ → ℕ → Booking → Bool
is_open now series_id b = in_series series_id b && is_future now b

module _ (env : Env) (db : Db) (now series_id : ℕ) where
  cancel_instance_seat :
      (w t : ℕ) (b : Booking)
      → one_if (occupies w none t (cancel_instance env db now series_id b))
        ≤ one_if (occupies w none t b)
  unfolding cancel_instance cancelled_booking
  cancel_instance_seat w t b = elim (Bool-cases (is_open now series_id b)) [
    | inl o ↦ rw o (ground arith)
    | inr c ↦ rw c (omega arith)
  ]

  occupancy-cancel :
      (w t : ℕ) (rows : List Booking)
      → occupancy (cancel_instances env db now series_id rows) w none t ≤ occupancy rows w none t
  unfolding cancel_instances
  occupancy-cancel w t [] = omega arith
  occupancy-cancel w t (b ∷ bs) =
      let ih = occupancy-cancel w t bs in omega (arith, ih, cancel_instance_seat w t b)

  cancel_instance_id : (b : Booking) → (cancel_instance env db now series_id b).id ≡ b.id
  unfolding cancel_instance cancelled_booking
  cancel_instance_id b = ground arith

  cancel_instances-ids :
      (k k' : ℕ) (rows : List Booking)
      → k ≡ k'
      → All (λ x. x.id ≢ k) rows
      → All (λ x. x.id ≢ k') (cancel_instances env db now series_id rows)
  unfolding cancel_instances
  cancel_instances-ids k k' [] e h = tt
  cancel_instances-ids k k' (b ∷ bs) e h =
      (λ q. h.0 (sym (cancel_instance_id b) ∙ (q ∙ sym e)), cancel_instances-ids k k' bs e h.1)

  cancel_instances-UniqueKeys :
      (rows : List Booking)
      → UniqueKeys rows
      → UniqueKeys (cancel_instances env db now series_id rows)
  unfolding cancel_instances
  cancel_instances-UniqueKeys [] h = tt
  cancel_instances-UniqueKeys (b ∷ bs) h = (
    cancel_instances-ids b.id (cancel_instance env db now series_id b).id bs
        (sym (cancel_instance_id b)) h.0,
    cancel_instances-UniqueKeys bs h.1,
  )

  cancel_instance_closes :
      (b : Booking) → is_open now series_id (cancel_instance env db now series_id b) ≡ false
  unfolding cancel_instance cancelled_booking
  cancel_instance_closes b = elim (Bool-cases (is_open now series_id b)) [
    | inl o ↦ rw o (ground arith)
    | inr c ↦ rw c c
  ]

  count-cancel :
      (rows : List Booking)
      → count (is_open now series_id) (cancel_instances env db now series_id rows) ≡ 0
  unfolding cancel_instances
  count-cancel [] = refl
  count-cancel (b ∷ bs) = rw (cancel_instance_closes b, count-cancel bs)

length-filter_twice :
    (now series_id : ℕ) (rows : List Booking)
    → length (filter (is_future now) (filter (in_series series_id) rows))
      ≡ count (is_open now series_id) rows
length-filter_twice now series_id [] = refl
length-filter_twice now series_id (b ∷ bs) =
    let ih = length-filter_twice now series_id bs in ground arith

cancel_instances-IsSound :
    (env : Env) (db : Db) (now series_id : ℕ)
    → IsSound db
    → IsSound (record db { bookings = cancel_instances env db now series_id db.bookings })
cancel_instances-IsSound env db now series_id s = record {
  respects = record {
    capacity_pos = s.respects.capacity_pos;
    within = λ w f t.
        omega (
          arith,
          s.respects.within w f t,
          occupancy-cancel env db now series_id w.id t db.bookings,
        );
  };
  keys = cancel_instances-UniqueKeys env db now series_id db.bookings s.keys;
}

-- What `cancelSeries` leaves: a sound database, no open instance of the series, and the number that it
-- reports.
pub record SeriesClosed (db : Db) (now series_id : ℕ) (db' : Db) (done : SeriesCancellation)
    : Type 0 where
  pub sound : IsSound db'
  pub closed : count (is_open now series_id) db'.bookings ≡ 0
  pub reported : done.cancelled_count ≡ count (is_open now series_id) db.bookings
  pub preserved :
      done.preserved_count ≡ count (in_series series_id) db.bookings - done.cancelled_count

length-filter : (p : Booking → Bool) (rows : List Booking) → length (filter p rows) ≡ count p rows
length-filter p [] = refl
length-filter p (b ∷ bs) = let ih = length-filter p bs in ground arith

pub cancel_series-SeriesClosed :
    (env : Env) (db : Db) (now series_id user_id : ℕ) {db' : Db} {done : SeriesCancellation}
    {effects : List Effect}
    → IsSound db
    → cancel_series env db now series_id user_id ≡ ok (db', done, effects)
    → SeriesClosed db now series_id db' done
      × ((owner : Booking) × (first_instance (filter (in_series series_id) db.bookings) ≡ ok owner)
          × (owner.user_id ≡ user_id))
unfolding cancel_series
cancel_series-SeriesClosed env db now series_id user_id {db'} {done} s h =
    let all_instances = filter (in_series series_id) db.bookings in
    let (owner, h0, h1) = >>=-eq-ok (first_instance all_instances) _ h in
    let (u, owns, h2) = >>=-eq-ok (throw_if (not (owner.user_id == user_id)) not_authorized) _ h1 in
    let counted = length-filter_twice now series_id db.bookings in
    let totals = length-filter (in_series series_id) db.bookings in
    (
      elim (Bool-cases (length (filter (is_future now) all_instances) == 0)) [
        | inl none_open ↦
            let out = ok-injective (rw none_open at h2) in
            subst (λ p. SeriesClosed db now series_id p.0 p.1) out
              (record {
                sound = s;
                closed = omega (arith, counted, ==→eq _ _ none_open);
                reported = counted;
                preserved = omega (arith, totals);
              })
        | inr some_open ↦
            let out = ok-injective (rw some_open at h2) in
            subst (λ p. SeriesClosed db now series_id p.0 p.1) out
              (record {
                sound = cancel_instances-IsSound env db now series_id s;
                closed = count-cancel env db now series_id db.bookings;
                reported = counted;
                preserved = omega (arith, totals);
              })
      ],
      (owner, h0, ground arith),
    )
