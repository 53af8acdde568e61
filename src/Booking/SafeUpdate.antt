-- ===== src/Booking/SafeUpdate.antt =====
-- `update` of backend/src/bookings/bookings.service.ts against the invariant of the tables.
use hub_assist.Common.{
  ℕ, ◌+◌, ◌≤◌, ◌<◌, ◌≡◌, refl, ◌⊎◌, inl, inr, true, false, none, some, get_or, arith, ◌==◌, ok,
  Bool-cases, find?, List, [], ◌∷◌, sym, ◌∙◌, ok-injective, ap, >>=-eq-ok, or_throw,
}
use Prim.Native.String.{String}
use mathlib.Core.Path.{subst}
use hub_assist.Pricing.Rules.{or_else}
use hub_assist.Booking.Model.{Booking, Workspace, Db, holds_seat, workspace_not_found}
use hub_assist.Booking.Room.{occupies, occupancy}
use hub_assist.Booking.Service.{Env, UpdateBookingDto, check_free, price_range}
use hub_assist.Booking.Lifecycle.{
  save_booking, find_by_id, assign_booking, times_given, reprice, update, workspace_of,
}
use hub_assist.Booking.Keys.{one_if, occupancy-exclude}
use hub_assist.Booking.Overbooking.{check_free-HasSeat, price_range-lt}
use hub_assist.Booking.Safety.{IsSound, save-IsSound, keeps_seat, found_key}

-- What `update` has found out when its check and its price pass.
record Repriced (db : Db) (dto : UpdateBookingDto) (b priced : Booking) : Type 0 where
  same : priced ≡ record b { total_amount = priced.total_amount }
  kept : times_given dto ≡ false → priced.total_amount ≡ b.total_amount
  free :
      times_given dto ≡ true
      → check_free db b.workspace_id
          (get_or dto.start_time b.start_time)
          (get_or dto.end_time b.end_time)
          (some b.id)
        ≡ ok tt
  in_order :
      times_given dto ≡ true → get_or dto.start_time b.start_time < get_or dto.end_time b.end_time

reprice-Repriced :
    (env : Env) (db : Db) (dto : UpdateBookingDto) (tier : String) (b priced : Booking)
    → reprice env db dto tier b ≡ ok priced
    → Repriced db dto b priced
unfolding reprice
reprice-Repriced env db dto tier b priced h = elim (Bool-cases (times_given dto)) [
  | inr none_given ↦
      let e : b ≡ priced = ok-injective (rw (none_given, reprice) at h) in
      subst (λ p. Repriced db dto b p) e
        (record { same = refl; kept = λ g. refl; free = λ g. cc; in_order = λ g. cc })
  | inl given ↦
      let h0 = rw (given, reprice) at h in
      let (u, free, h1) = >>=-eq-ok (check_free db b.workspace_id _ _ (some b.id)) _ h0 in
      let (w, found, h2) = >>=-eq-ok (or_throw (workspace_of db b) workspace_not_found) _ h1 in
      let (total, priced_range, h3) = >>=-eq-ok (price_range env db w _ _ tier) _ h2 in
      subst (λ p. Repriced db dto b p) (ok-injective h3)
        (record {
          same = refl;
          kept = λ g. cc;
          free = λ g. free;
          in_order = λ g. price_range-lt env db w _ _ tier priced_range;
        })
]

-- The update gives no seat to a booking that has none, unless it gives times, which are checked.
abbrev pub GainsNoSeat : UpdateBookingDto → Booking → Type 0
GainsNoSeat dto b =
    (times_given dto ≡ true)
    ⊎ (holds_seat (get_or dto.status b.status) ≡ true → holds_seat b.status ≡ true)

occupies_workspace : (w t : ℕ) (b : Booking) → occupies w none t b ≡ true → b.workspace_id ≡ w
occupies_workspace w t b h = ground arith

occupies_range :
    (w t : ℕ) (b : Booking) → occupies w none t b ≡ true → (b.start_time ≤ t) × (t < b.end_time)
occupies_range w t b h = ground arith

-- The seat of a booking whose new range was checked.
checked_seat :
    (db : Db) (dto : UpdateBookingDto) (id t : ℕ) (w : Workspace) (b b' priced : Booking)
    → IsSound db
    → find? (λ x. x.id == id) db.bookings ≡ some b
    → Repriced db dto b priced
    → times_given dto ≡ true
    → find? (λ x. x.id == w.id) db.workspaces ≡ some w
    → b'.workspace_id ≡ b.workspace_id
    → b'.start_time ≡ get_or dto.start_time b.start_time
    → b'.end_time ≡ get_or dto.end_time b.end_time
    → occupies w.id none t b' ≡ true
    → occupancy db.bookings w.id none t + 1 ≤ w.capacity + one_if (occupies w.id none t b)
checked_seat db dto id t w b b' priced s found r given f ew es ee on =
    let at : b.workspace_id ≡ w.id = sym ew ∙ occupies_workspace w.id t b' on in
    let key = found_key id db.bookings b found in
    let checked =
      subst
        (λ i.
          check_free db i (get_or dto.start_time b.start_time) (get_or dto.end_time b.end_time)
            (some b.id)
          ≡ ok tt)
        at (r.free given) in
    let free =
      check_free-HasSeat db w _ _ (some b.id) f (s.respects.capacity_pos w f) (r.in_order given)
        checked in
    let range = occupies_range w.id t b' on in
    let seat = free.has_seat t (omega (arith, range.0, es)) (omega (arith, range.1, ee)) in
    let own =
      subst
        (λ i.
          occupancy db.bookings w.id none t
          ≡ occupancy db.bookings w.id (some i) t + one_if (occupies w.id none t b))
        (sym key) (occupancy-exclude w.id id t db.bookings b s.keys found) in
    omega (arith, seat, own)

no_times :
    (dto : UpdateBookingDto) (b : Booking)
    → times_given dto ≡ false
    → (get_or dto.start_time b.start_time ≡ b.start_time)
      × (get_or dto.end_time b.end_time ≡ b.end_time)
unfolding times_given
no_times dto b h = ground arith

-- The updated booking takes at most the seats that are free or its own.
updated_seat :
    (db : Db) (dto : UpdateBookingDto) (id t : ℕ) (w : Workspace) (b b' priced : Booking)
    → IsSound db
    → find? (λ x. x.id == id) db.bookings ≡ some b
    → Repriced db dto b priced
    → GainsNoSeat dto b
    → find? (λ x. x.id == w.id) db.workspaces ≡ some w
    → b'.workspace_id ≡ b.workspace_id
    → b'.start_time ≡ get_or dto.start_time b.start_time
    → b'.end_time ≡ get_or dto.end_time b.end_time
    → b'.status ≡ get_or dto.status b.status
    → occupancy db.bookings w.id none t + one_if (occupies w.id none t b')
      ≤ w.capacity + one_if (occupies w.id none t b)
updated_seat db dto id t w b b' priced s found r gains f ew es ee est =
    let old = s.respects.within w f t in
    elim (Bool-cases (occupies w.id none t b')) [
      | inr off ↦ rw off (omega (arith, old))
      | inl on ↦ elim (Bool-cases (times_given dto)) [
        | inl given ↦ rw on (checked_seat db dto id t w b b' priced s found r given f ew es ee on)
        | inr same ↦
            let times = no_times dto b same in
            let gains' : holds_seat (get_or dto.status b.status) ≡ true
                → holds_seat b.status ≡ true =
              elim gains [ inl g ↦ cc | inr g ↦ g ] in
            let kept =
              keeps_seat w.id t b b' ew (es ∙ times.0) (ee ∙ times.1)
                (λ c. gains' (ap holds_seat (sym est) ∙ c)) in
            omega (arith, old, kept)
      ]
    ]

-- What an update of a booking writes: the row that is returned stands under the booking's key, each other
-- row and each other table is as it was, and the row has what the request gives and else what it had; its
-- amount is a new one only where a time is given.
pub record IsUpdated (db db' : Db) (dto : UpdateBookingDto) (b saved : Booking) : Type 0 where
  pub written : db' ≡ record db { bookings = save_booking saved db.bookings }
  pub stored : find? (λ x. x.id == b.id) db'.bookings ≡ some saved
  pub status : saved.status ≡ get_or dto.status b.status
  pub stellar_tx_hash : saved.stellar_tx_hash ≡ or_else dto.stellar_tx_hash b.stellar_tx_hash
  pub start_time : saved.start_time ≡ get_or dto.start_time b.start_time
  pub end_time : saved.end_time ≡ get_or dto.end_time b.end_time
  pub id : saved.id ≡ b.id
  pub workspace_id : saved.workspace_id ≡ b.workspace_id
  pub user_id : saved.user_id ≡ b.user_id
  pub recurrence_rule : saved.recurrence_rule ≡ b.recurrence_rule
  pub series_id : saved.series_id ≡ b.series_id
  pub instance_index : saved.instance_index ≡ b.instance_index
  pub refund_amount : saved.refund_amount ≡ b.refund_amount
  pub total_amount : times_given dto ≡ false → saved.total_amount ≡ b.total_amount

find?-save_booking :
    (rows : List Booking) (b saved : Booking)
    → find? (λ x. x.id == saved.id) rows ≡ some b
    → find? (λ x. x.id == saved.id) (save_booking saved rows) ≡ some saved
unfolding save_booking
find?-save_booking [] b saved found = cc
find?-save_booking (x ∷ xs) b saved found =
    let ih = find?-save_booking xs b saved in
    let own : (saved.id == saved.id) ≡ true = ground arith in
    elim (Bool-cases (x.id == saved.id)) [
      | inl hit ↦ rw (hit, own) refl
      | inr miss ↦ rw (miss, miss) (ih (rw miss at found))
    ]

-- An update that succeeds keeps the tables sound, if it gives times or no seat to a booking that had
-- none. It stores the booking with the status, the hash and the times that the request gives, those that
-- it leaves out as they were, and changes nothing else: no other row, no other table, no other column
-- but the amount, and the amount only where a time is given.
pub update-IsSound :
    (env : Env) (db : Db) (id : ℕ) (dto : UpdateBookingDto) (tier : String) (b : Booking) {db' : Db}
    {saved : Booking}
    → IsSound db
    → find? (λ x. x.id == id) db.bookings ≡ some b
    → GainsNoSeat dto b
    → update env db id dto tier ≡ ok (db', saved)
    → IsSound db' × IsUpdated db db' dto b saved
unfolding update find_by_id
update-IsSound env db id dto tier b {db'} {saved} s found gains h =
    let h0 = rw found at h in
    let (priced, re, h1) = >>=-eq-ok (reprice env db dto tier b) _ h0 in
    let r = reprice-Repriced env db dto tier b priced re in
    let out = ok-injective h1 in
    let b' : Booking = assign_booking (record b { total_amount = priced.total_amount }) dto in
    let same : assign_booking priced dto ≡ b' = ap (λ x. assign_booking x dto) r.same in
    let key : b'.id ≡ id = found_key id db.bookings b found in
    let room : (w : Workspace)
        → find? (λ x. x.id == w.id) db.workspaces ≡ some w
        → (t : ℕ)
        → occupancy db.bookings w.id none t + one_if (occupies w.id none t b')
          ≤ w.capacity + one_if (occupies w.id none t b) =
      λ w f t. updated_seat db dto id t w b b' priced s found r gains f refl refl refl refl in
    let sound =
      save-IsSound db (record db { bookings = save_booking b' db.bookings }) id b b' s found key
        room refl refl in
    let same_db : record db { bookings = save_booking b' db.bookings } ≡ db' =
      ap (λ x. record db { bookings = save_booking x db.bookings }) (sym same)
      ∙ ap (λ p. p.0) out in
    let same_row : b' ≡ saved = sym same ∙ ap (λ p. p.1) out in
    let writes : record db { bookings = save_booking saved db.bookings } ≡ db' =
      ap (λ x. record db { bookings = save_booking x db.bookings }) (sym same_row) ∙ same_db in
    let own : b.id ≡ id = key in
    (
      subst IsSound same_db sound,
      record {
        written = sym writes;
        stored =
            subst (λ d. find? (λ x. x.id == b.id) d.bookings ≡ some saved) writes
              (subst (λ y. find? (λ x. x.id == b.id) (save_booking y db.bookings) ≡ some y) same_row
                (find?-save_booking db.bookings b b'
                  (subst (λ i. find? (λ x. x.id == i) db.bookings ≡ some b) (sym own) found)));
        status = subst (λ x. x.status ≡ get_or dto.status b.status) same_row refl;
        stellar_tx_hash =
            subst (λ x. x.stellar_tx_hash ≡ or_else dto.stellar_tx_hash b.stellar_tx_hash) same_row
              refl;
        start_time = subst (λ x. x.start_time ≡ get_or dto.start_time b.start_time) same_row refl;
        end_time = subst (λ x. x.end_time ≡ get_or dto.end_time b.end_time) same_row refl;
        id = subst (λ x. x.id ≡ b.id) same_row refl;
        workspace_id = subst (λ x. x.workspace_id ≡ b.workspace_id) same_row refl;
        user_id = subst (λ x. x.user_id ≡ b.user_id) same_row refl;
        recurrence_rule = subst (λ x. x.recurrence_rule ≡ b.recurrence_rule) same_row refl;
        series_id = subst (λ x. x.series_id ≡ b.series_id) same_row refl;
        instance_index = subst (λ x. x.instance_index ≡ b.instance_index) same_row refl;
        refund_amount = subst (λ x. x.refund_amount ≡ b.refund_amount) same_row refl;
        total_amount =
            λ none_given. subst (λ x. x.total_amount ≡ b.total_amount) same_row (r.kept none_given);
      },
    )
