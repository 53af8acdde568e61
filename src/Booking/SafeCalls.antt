-- ===== src/Booking/SafeCalls.antt =====
-- Each call of backend/src/bookings/bookings.service.ts on a booking that is there, against the
-- invariant of the tables.
use hub_assist.Common.{
  ℕ, ◌≡◌, refl, not, some, List, arith, ◌==◌, ok, find?, sym, ok-injective, ap, >>=-eq-ok, throw_if,
}
use mathlib.Core.Path.{subst}
use hub_assist.Booking.Model.{Booking, Db, confirmed, not_authorized, only_pending_confirmed}
use hub_assist.Booking.Service.{Env, Effect}
use hub_assist.Booking.Lifecycle.{
  find_by_id, is_pending, verify_payment, confirm, cancelled_booking, cancel,
}
use hub_assist.Booking.Safety.{IsSound, save-IsSound, keeps_seat, find_by_id-found, found_key}

-- A confirmation that succeeds was of a pending booking whose payment was verified, and keeps the
-- tables sound.
pub confirm-IsSound :
    (env : Env) (db : Db) (id : ℕ) {db' : Db} {saved : Booking} {effects : List Effect}
    → IsSound db
    → confirm env db id ≡ ok (db', saved, effects)
    → IsSound db'
      × (saved.status ≡ confirmed)
      × (saved.id ≡ id)
      × (verify_payment env saved.stellar_tx_hash ≡ ok tt)
unfolding confirm
confirm-IsSound env db id {db'} {saved} s h =
    let (b, h0, h1) = >>=-eq-ok (find_by_id db id) _ h in
    let (u, paid, h2) = >>=-eq-ok (verify_payment env b.stellar_tx_hash) _ h1 in
    let (v, was, h3) =
      >>=-eq-ok (throw_if (not (is_pending b.status)) only_pending_confirmed) _ h2 in
    let found = find_by_id-found db id h0 in
    let key = found_key id db.bookings b found in
    let b' : Booking = record b { status = confirmed } in
    let out = ok-injective h3 in
    let sound =
      save-IsSound db _ id b b' s found key
        (λ w f t.
          let r = s.respects.within w f t in
          let k = keeps_seat w.id t b b' refl refl refl (λ _. ground (arith, was)) in
          omega (arith, r, k))
        refl refl in
    let same : b' ≡ saved = ap (λ p. p.1) out in
    (
      subst IsSound (ap (λ p. p.0) out) sound,
      subst (λ x. x.status ≡ confirmed) same refl,
      subst (λ x. x.id ≡ id) same key,
      subst (λ x. verify_payment env x.stellar_tx_hash ≡ ok tt) same paid,
    )

-- A cancellation that succeeds was asked for by the booking's owner, cancels the booking with the
-- refund that is due at that time, and keeps the tables sound.
pub cancel-IsSound :
    (env : Env) (db : Db) (now id user_id : ℕ) {db' : Db} {saved : Booking} {effects : List Effect}
    → IsSound db
    → cancel env db now id user_id ≡ ok (db', saved, effects)
    → IsSound db'
      × ((b : Booking) × (find? (λ x. x.id == id) db.bookings ≡ some b)
          × (b.user_id ≡ user_id)
          × (saved ≡ cancelled_booking env db now b))
unfolding cancel cancelled_booking
cancel-IsSound env db now id user_id {db'} {saved} s h =
    let (b, h0, h1) = >>=-eq-ok (find_by_id db id) _ h in
    let (u, owner, h2) = >>=-eq-ok (throw_if (not (b.user_id == user_id)) not_authorized) _ h1 in
    let found = find_by_id-found db id h0 in
    let key = found_key id db.bookings b found in
    let out = ok-injective h2 in
    let b' : Booking = cancelled_booking env db now b in
    let sound =
      save-IsSound db _ id b b' s found key
        (λ w f t.
          let r = s.respects.within w f t in
          let k = keeps_seat w.id t b b' refl refl refl (λ c. cc) in omega (arith, r, k))
        refl refl in
    (subst IsSound (ap (λ p. p.0) out) sound, (b, found, ground arith, sym (ap (λ p. p.1) out)))
