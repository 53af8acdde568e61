-- ===== src/Booking/Reachable.antt =====
-- Sequences of calls of backend/src/bookings/bookings.service.ts. The pessimistic lock on the workspace
-- row, which every check takes, makes the transactions on one workspace run one after the other.
use hub_assist.Common.{
  ℕ, ◌<◌, ◌≡◌, ◌≢◌, none, some, List, [], ◌∷◌, ◌++◌, arith, leb, ◌==◌, ok, All, All-append, find?,
  >>=-eq-ok, throw_if, or_throw, sym, ap, ok-injective, ==→eq, find?-holds,
}
use Prim.Native.String.{String}
use mathlib.Core.Path.{subst}
use hub_assist.Booking.Model.{Booking, Workspace, Db, workspace_not_found, end_not_after_start}
use hub_assist.Booking.Service.{
  Env, Effect, CreateBookingDto, UpdateBookingDto, create, create_on, create_single, single_booking,
  check_free, price_range,
}
use hub_assist.Booking.Lifecycle.{confirm, cancel, cancel_series, update, SeriesCancellation}
use hub_assist.Booking.Keys.{UniqueKeys}
use hub_assist.Booking.Overbooking.{create_single-RespectsCapacity}
use hub_assist.Booking.Safety.{IsSound}
use hub_assist.Booking.SafeCalls.{confirm-IsSound, cancel-IsSound}
use hub_assist.Booking.SafeUpdate.{update-IsSound, GainsNoSeat}
use hub_assist.Booking.SeriesCancel.{cancel_series-SeriesClosed}

UniqueKeys-append :
    (rows : List Booking) (b : Booking)
    → UniqueKeys rows
    → All (λ x. x.id ≢ b.id) rows
    → UniqueKeys (rows ++ b ∷ [])
UniqueKeys-append [] b u h = (tt, tt)
UniqueKeys-append (x ∷ xs) b u h = (
  All-append (λ y. y.id ≢ x.id) xs (b ∷ []) u.0 ((λ e. h.0 (sym e)), tt),
  UniqueKeys-append xs b u.1 h.1,
)

-- What a creation with no recurrence has added.
record Added (env : Env) (db : Db) (user_id : ℕ) (dto : CreateBookingDto) (db' : Db)
    (saved : List Booking) : Type 0 where
  total : ℕ
  rows : db'.bookings ≡ db.bookings ++ single_booking env user_id dto total ∷ []
  returned : saved ≡ single_booking env user_id dto total ∷ []

create_single-Added :
    (env : Env) (db : Db) (w : Workspace) (user_id : ℕ) (dto : CreateBookingDto) (tier : String)
    {db' : Db} {saved : List Booking} {effects : List Effect}
    → create_single env db w user_id dto tier ≡ ok (db', saved, effects)
    → Added env db user_id dto db' saved
unfolding create_single
create_single-Added env db w user_id dto tier h =
    let (u, free, h1) =
      >>=-eq-ok (check_free db dto.workspace_id dto.start_time dto.end_time none) _ h in
    let (total, priced, h2) =
      >>=-eq-ok (price_range env db w dto.start_time dto.end_time tier) _ h1 in
    let out = ok-injective h2 in
    record {
      total = total;
      rows = sym (ap (λ p. p.0.bookings) out);
      returned = sym (ap (λ p. p.1) out);
    }

-- A creation with no recurrence that succeeds adds one pending booking of the request for the user,
-- under a key that is new, in a range that is not empty, and keeps the tables sound.
pub create-IsSound :
    (env : Env) (db : Db) (user_id : ℕ) (dto : CreateBookingDto) (tier : String) {db' : Db}
    {saved : List Booking} {effects : List Effect}
    → IsSound db
    → dto.recurrence_rule ≡ none
    → All (λ b. b.id ≢ env.new_key 0) db.bookings
    → create env db user_id dto tier ≡ ok (db', saved, effects)
    → IsSound db'
      × (dto.start_time < dto.end_time)
      × ((total : ℕ) × (db'.bookings ≡ db.bookings ++ single_booking env user_id dto total ∷ []))
unfolding create create_on
create-IsSound env db user_id dto tier s single fresh h =
    let (w, found, h1) =
      >>=-eq-ok (or_throw (find? (λ x. x.id == dto.workspace_id) db.workspaces) workspace_not_found)
        _ h in
    let (u, order, h2) =
      >>=-eq-ok (throw_if (leb dto.end_time dto.start_time) end_not_after_start) _ h1 in
    let lt : dto.start_time < dto.end_time = ground arith in
    let h3 = rw (single, create_on) at h2 in
    let row : find? (λ x. x.id == dto.workspace_id) db.workspaces ≡ some w = ground arith in
    let key : w.id ≡ dto.workspace_id =
      ==→eq _ _ (find?-holds (λ x. x.id == dto.workspace_id) db.workspaces w row) in
    let row' = subst (λ i. find? (λ x. x.id == i) db.workspaces ≡ some w) (sym key) row in
    let added = create_single-Added env db w user_id dto tier h3 in
    (
      record {
        respects =
            create_single-RespectsCapacity env db w user_id dto tier s.respects row' (sym key) lt
              h3;
        keys = subst UniqueKeys (sym added.rows) (
            UniqueKeys-append db.bookings (single_booking env user_id dto added.total) s.keys
              (unfold single_booking in fresh));
      },
      lt,
      (added.total, added.rows),
    )

-- A call that succeeds: a creation with no recurrence, whose key is new; a confirmation; a cancellation
-- of a booking or of a series; an update that gives a time, or no seat to a booking that had none.
pub data Step : Db → Db → Type 1 where
  created :
      (env : Env) {db db' : Db} (user_id : ℕ) (dto : CreateBookingDto) (tier : String)
      {saved : List Booking} {effects : List Effect}
      → dto.recurrence_rule ≡ none
      → All (λ b. b.id ≢ env.new_key 0) db.bookings
      → create env db user_id dto tier ≡ ok (db', saved, effects)
      → Step db db'
  confirmed_one :
      (env : Env) {db db' : Db} (id : ℕ) {saved : Booking} {effects : List Effect}
      → confirm env db id ≡ ok (db', saved, effects)
      → Step db db'
  cancelled_one :
      (env : Env) {db db' : Db} (now id user_id : ℕ) {saved : Booking} {effects : List Effect}
      → cancel env db now id user_id ≡ ok (db', saved, effects)
      → Step db db'
  cancelled_series :
      (env : Env) {db db' : Db} (now series_id user_id : ℕ) {done : SeriesCancellation}
      {effects : List Effect}
      → cancel_series env db now series_id user_id ≡ ok (db', done, effects)
      → Step db db'
  updated :
      (env : Env) {db db' : Db} (id : ℕ) (dto : UpdateBookingDto) (tier : String) (b : Booking)
      {saved : Booking}
      → find? (λ x. x.id == id) db.bookings ≡ some b
      → GainsNoSeat dto b
      → update env db id dto tier ≡ ok (db', saved)
      → Step db db'

pub data Reach (db : Db) : Db → Type 1 where
  here : Reach db db
  next : {mid last : Db} → Reach db mid → Step mid last → Reach db last

Step-IsSound : {db db' : Db} → Step db db' → IsSound db → IsSound db'
Step-IsSound (created env user_id dto tier r fresh h) s =
    (create-IsSound env _ user_id dto tier s r fresh h).0
Step-IsSound (confirmed_one env id h) s = (confirm-IsSound env _ id s h).0
Step-IsSound (cancelled_one env now id user_id h) s = (cancel-IsSound env _ now id user_id s h).0
Step-IsSound (cancelled_series env now series_id user_id h) s =
    (cancel_series-SeriesClosed env _ now series_id user_id s h).0.sound
Step-IsSound (updated env id dto tier b found g h) s =
    (update-IsSound env _ id dto tier b s found g h).0

-- From sound tables, no sequence of the following calls overbooks a workspace, where each call returns:
-- creations without a recurrence rule, under a key that no row has; confirmations; cancellations of a
-- booking or of a series; and updates that give a time, or that give no seat to a booking that had none.
-- After any such sequence the pending and confirmed bookings that hold a workspace at a moment are at most
-- its capacity, and no two bookings share a key. Recurring creations, and updates that make a cancelled
-- booking pending or confirmed again without a time, are not among the calls.
pub Reach-IsSound : {db last : Db} → IsSound db → Reach db last → IsSound last
Reach-IsSound s here = s
Reach-IsSound s (next r step) = Step-IsSound step (Reach-IsSound s r)
