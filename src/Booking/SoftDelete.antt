-- ===== src/Booking/SoftDelete.antt =====
-- `softDelete` of backend/src/workspaces/workspaces.service.ts: a workspace is taken out of use, and its
-- confirmed bookings that have not started are cancelled. A deleted row is one that no query returns, so
-- it leaves the table here. The users' e-mail addresses are a parameter.
use hub_assist.Common.{
  ℕ, ◌≡◌, ◌≢◌, Bool, true, false, not, ◌&&◌, none, List, ◌==◌, if◌then◌else◌, ok, count, find?,
  filter, map, or_throw, ◌>>=◌, ltb,
}
use hub_assist.Booking.Model.{
  BookingStatus, confirmed, cancelled, Booking, Db, Bookings, workspace_not_found,
}
use hub_assist.Booking.Room.{occupancy}
use hub_assist.Booking.Safety.{IsSound}

abbrev is_confirmed : BookingStatus → Bool
is_confirmed confirmed = true
is_confirmed _ = false

-- The query for the bookings to cancel.
abbrev pub is_dropped : ℕ → ℕ → Booking → Bool
is_dropped now id b = b.workspace_id == id && is_confirmed b.status && ltb now b.start_time

-- `manager.update(Booking, ids, { status: CANCELLED })`, row by row.
unfoldable pub drop_booking : ℕ → ℕ → Booking → Booking
drop_booking now id b = if is_dropped now id b then record b { status = cancelled } else b

-- The new tables, and the bookings whose users are told by e-mail.
unfoldable pub soft_delete : (ℕ → Bool) → Db → ℕ → ℕ → Bookings (Db × List ℕ)
unfolding drop_booking
soft_delete has_email db now id = do
  workspace ← or_throw (find? (λ w. w.id == id) db.workspaces) workspace_not_found
  let future_bookings = filter (is_dropped now id) db.bookings
  ok (
    record db {
      workspaces = filter (λ w. not (w.id == id)) db.workspaces;
      bookings = map (drop_booking now id) db.bookings;
    },
    map (λ b. b.id) (filter (λ b. has_email b.user_id) future_bookings),
  )

-- What `softDelete` leaves: tables that are sound, no such workspace, no confirmed booking of it that
-- has not started, and every seat of the other workspaces held as before.
pub record WorkspaceGone (db : Db) (now id : ℕ) (db' : Db) : Type 0 where
  pub sound : IsSound db'
  pub gone : find? (λ w. w.id == id) db'.workspaces ≡ none
  pub dropped : count (is_dropped now id) db'.bookings ≡ 0
  pub kept : (w t : ℕ) → w ≢ id → occupancy db'.bookings w none t ≡ occupancy db.bookings w none t
