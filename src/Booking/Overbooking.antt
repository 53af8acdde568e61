-- ===== src/Booking/Overbooking.antt =====
-- No call of backend/src/bookings/bookings.service.ts on one booking overbooks a workspace: at every
-- moment the pending and confirmed bookings that hold it are at most the workspace's capacity.
use Prim.Native.String.{String}
use hub_assist.Common.{
  ℕ, ◌+◌, ◌≤◌, ◌<◌, ◌≡◌, ◌≢◌, refl, inl, inr, true, false, Option, none, some, List, [], ◌∷◌, ◌++◌,
  arith, ◌==◌, ok, if◌then◌else◌, Bool-cases, count-append, find?, >>=-eq-ok, sym, ◌∙◌,
}
use native.Mathlib.Decide.{ℕ_discrete}
use mathlib.Core.Path.{subst}
use hub_assist.Booking.Model.{Booking, Workspace, Db}
use hub_assist.Pricing.Engine.{calculate_price}
use hub_assist.Booking.Conflict.{has_conflict}
use hub_assist.Booking.Room.{occupies, occupancy, HasSeat, IsFree, has_conflict-none_iff}
use hub_assist.Booking.Service.{
  Env, Effect, CreateBookingDto, check_free, reject_conflict, create_single, single_booking,
  price_range,
}

-- The workspaces have a capacity, and no moment is held by more bookings than that.
pub record RespectsCapacity (db : Db) : Type 0 where
  pub capacity_pos :
      (w : Workspace) → find? (λ x. x.id == w.id) db.workspaces ≡ some w → 0 < w.capacity
  pub within :
      (w : Workspace)
      → find? (λ x. x.id == w.id) db.workspaces ≡ some w
      → (t : ℕ) → occupancy db.bookings w.id none t ≤ w.capacity

-- A check that passes found a seat at every moment of the range.
pub check_free-HasSeat :
    (db : Db) (w : Workspace) (s e : ℕ) (ex : Option ℕ)
    → find? (λ x. x.id == w.id) db.workspaces ≡ some w
    → 0 < w.capacity
    → s < e
    → check_free db w.id s e ex ≡ ok tt
    → IsFree db w s e ex
unfolding check_free reject_conflict
check_free-HasSeat db w s e ex found p h c =
    let (conflict, e1, e2) = >>=-eq-ok (has_conflict db w.id s e ex) _ c in
    let clear : conflict ≡ none = ground arith in
    (has_conflict-none_iff db w s e ex found p h).0 (rw clear at e1)

-- One more booking: it counts at the moments that it holds.
occupancy-append :
    (rows : List Booking) (b : Booking) (w t : ℕ)
    → occupancy (rows ++ b ∷ []) w none t
      ≡ occupancy rows w none t + (if occupies w none t b then 1 else 0)
occupancy-append rows b w t = omega (arith, count-append (occupies w none t) rows (b ∷ []))

occupies_off : (b : Booking) (w v t : ℕ) → b.workspace_id ≡ w → w ≢ v → occupies v none t b ≡ false
occupies_off b w v t h n = ground arith

occupies_covers :
    (b : Booking) (w t : ℕ) → occupies w none t b ≡ true → (b.start_time ≤ t) × (t < b.end_time)
occupies_covers b w t h = ground arith

-- A booking for which there is a seat takes no moment beyond the capacity.
occupancy-append_le :
    (rows : List Booking) (b : Booking) (w t capacity : ℕ)
    → occupancy rows w none t ≤ capacity
    → HasSeat rows w none capacity b.start_time b.end_time
    → occupancy (rows ++ b ∷ []) w none t ≤ capacity
occupancy-append_le rows b w t capacity h seat =
    rw (occupancy-append rows b w t) (elim (Bool-cases (occupies w none t b)) [
      | inl on ↦ let (lo, hi) = occupies_covers b w t on in rw on (seat t lo hi)
      | inr off ↦ rw off (omega arith)
    ])

occupancy-append_other :
    (rows : List Booking) (b : Booking) (w t : ℕ)
    → b.workspace_id ≢ w
    → occupancy (rows ++ b ∷ []) w none t ≡ occupancy rows w none t
occupancy-append_other rows b w t h =
    rw (occupancy-append rows b w t, occupies_off b b.workspace_id w t refl h) (omega arith)

-- A key finds one workspace.
pub same_workspace :
    (ws : List Workspace) (x w : Workspace)
    → x.id ≡ w.id
    → find? (λ y. y.id == x.id) ws ≡ some x
    → find? (λ y. y.id == w.id) ws ≡ some w
    → x ≡ w
same_workspace ws x w e fx fw = let fx' = subst (λ i. find? (λ y. y.id == i) ws ≡ some x) e fx in cc

-- Adding a booking for which there is a seat.
pub append-RespectsCapacity :
    (db db' : Db) (w : Workspace) (b : Booking)
    → RespectsCapacity db
    → find? (λ x. x.id == w.id) db.workspaces ≡ some w
    → b.workspace_id ≡ w.id
    → HasSeat db.bookings w.id none w.capacity b.start_time b.end_time
    → db'.workspaces ≡ db.workspaces
    → db'.bookings ≡ db.bookings ++ b ∷ []
    → RespectsCapacity db'
append-RespectsCapacity db db' w b r found same seat ws bs = record {
  capacity_pos = λ x f. r.capacity_pos x (rw ws at f);
  within = λ x f t.
      let f' = rw ws at f in
      rw bs (elim (ℕ_discrete x.id w.id) [
        | yes e ↦
            subst (λ y. occupancy (db.bookings ++ b ∷ []) y.id none t ≤ y.capacity)
              (sym (same_workspace db.workspaces x w e f' found))
              (occupancy-append_le db.bookings b w.id t w.capacity (r.within w found t) seat)
        | no n ↦
            rw (occupancy-append_other db.bookings b x.id t (λ q. n (sym q ∙ same)))
              (r.within x f' t)
      ]);
}

pub price_range-lt :
    (env : Env) (db : Db) (w : Workspace) (s e : ℕ) (tier : String) {total : ℕ}
    → price_range env db w s e tier ≡ ok total
    → s < e
unfolding price_range calculate_price
price_range-lt env db w s e tier h = ground arith

-- The single path adds one booking of the request, at the price of its range, for which the check
-- has found a seat, with one message for the escrow.
pub create_single-RespectsCapacity :
    (env : Env) (db : Db) (w : Workspace) (user_id : ℕ) (dto : CreateBookingDto) (tier : String)
    {db' : Db} {saved : List Booking} {effects : List Effect}
    → RespectsCapacity db
    → find? (λ x. x.id == w.id) db.workspaces ≡ some w
    → dto.workspace_id ≡ w.id
    → dto.start_time < dto.end_time
    → create_single env db w user_id dto tier ≡ ok (db', saved, effects)
    → RespectsCapacity db'
unfolding create_single single_booking
create_single-RespectsCapacity env db w user_id dto tier {db'} r found same lt h =
    let (u, free, h1) =
      >>=-eq-ok (check_free db dto.workspace_id dto.start_time dto.end_time none) _ h in
    let (total, priced, h2) =
      >>=-eq-ok (price_range env db w dto.start_time dto.end_time tier) _ h1 in
    let seat =
      check_free-HasSeat db w dto.start_time dto.end_time none found (r.capacity_pos w found) lt
        (subst (λ i. check_free db i dto.start_time dto.end_time none ≡ ok tt) same free) in
    append-RespectsCapacity db db' w (single_booking env user_id dto total) r found same
      seat.has_seat (cc) (cc)
