-- ===== src/Booking/Room.antt =====
-- The decision of `hasConflict` in backend/src/bookings/conflict-detection.service.ts: a range is
-- free exactly when no maintenance window meets it and no moment of it is full.
use hub_assist.Common.{
  ℕ, ◌+◌, ◌≤◌, ◌<◌, ◌≡◌, refl, ◌↔◌, inl, inr, Bool, false, ◌&&◌, Option, none, some, List, [], ◌∷◌,
  arith, ◌==◌, ok, All, filter, count, find?, Option-cases, find?-none-All, find?-holds, All-find?,
}
use hub_assist.Booking.Model.{Booking, Workspace, Db, holds_seat}
use hub_assist.Booking.Conflict.{
  is_overlapping, capacity_conflict, find_conflict, has_conflict, window_blocks, is_other,
}
use hub_assist.Booking.ConflictLaws.{covers, max_concurrent-reaches, max_concurrent-attained}

-- A booking that takes a seat of the workspace at the moment `t`, other than the excluded one.
abbrev pub occupies : ℕ → Option ℕ → ℕ → Booking → Bool
occupies workspace_id exclude_id t b =
    b.workspace_id == workspace_id
    && (holds_seat b.status && (covers t b && is_other exclude_id b.id))

abbrev pub occupancy : List Booking → ℕ → Option ℕ → ℕ → ℕ
occupancy bookings workspace_id exclude_id t = count (occupies workspace_id exclude_id t) bookings

-- The query loses no booking that holds a moment of the range.
count-filter :
    (w s e t : ℕ) (ex : Option ℕ) (bs : List Booking)
    → s ≤ t
    → t < e
    → count (covers t) (filter (is_overlapping w s e ex) bs) ≡ occupancy bs w ex t
unfolding is_overlapping
count-filter w s e t ex [] h k = refl
count-filter w s e t ex (b ∷ bs) h k = let ih = count-filter w s e t ex bs h k in ground arith

-- At every moment of the range there is a seat for one more.
abbrev pub HasSeat : List Booking → ℕ → Option ℕ → ℕ → ℕ → ℕ → Type 0
HasSeat bookings workspace_id exclude_id capacity s e =
    (t : ℕ) → s ≤ t → t < e → occupancy bookings workspace_id exclude_id t + 1 ≤ capacity

capacity_conflict-none :
    (capacity s e : ℕ) (bs : List Booking)
    → s < e
    → 0 < capacity
    → capacity_conflict capacity s e bs ≡ none
    → (t : ℕ) → s ≤ t
    → t < e
    → count (covers t) bs + 1 ≤ capacity
unfolding capacity_conflict
capacity_conflict-none capacity s e [] h p c t lo hi = omega arith
capacity_conflict-none capacity s e (b ∷ bs) h p c t lo hi =
    let r = max_concurrent-reaches s e (b ∷ bs) h t lo hi in ground arith

none-capacity_conflict :
    (capacity s e : ℕ) (bs : List Booking)
    → s < e
    → ((t : ℕ) → s ≤ t → t < e → count (covers t) bs + 1 ≤ capacity)
    → capacity_conflict capacity s e bs ≡ none
unfolding capacity_conflict
none-capacity_conflict capacity s e [] h f = refl
none-capacity_conflict capacity s e (b ∷ bs) h f =
    let (t, at) = max_concurrent-attained s e (b ∷ bs) h in let k = f t at.0 at.1 in ground arith

-- What `hasConflict` calls free.
pub record IsFree (db : Db) (w : Workspace) (s e : ℕ) (exclude_id : Option ℕ) : Type 0 where
  pub no_window : All (λ m. window_blocks w.id s e m ≡ false) db.windows
  pub has_seat : HasSeat db.bookings w.id exclude_id w.capacity s e

find_conflict-none :
    (db : Db) (w : Workspace) (s e : ℕ) (ex : Option ℕ)
    → s < e
    → 0 < w.capacity
    → find_conflict w db s e ex ≡ none
    → IsFree db w s e ex
unfolding find_conflict
find_conflict-none db w s e ex h p c =
    elim (Option-cases (find? (window_blocks w.id s e) db.windows)) [
      | inr (m, blocked) ↦ let bad = rw (blocked, find_conflict) at c in cc
      | inl clear ↦ record {
        no_window = find?-none-All (window_blocks w.id s e) db.windows clear;
        has_seat = λ t lo hi. rw (← count-filter w.id s e t ex db.bookings lo hi) (
            capacity_conflict-none w.capacity s e (filter (is_overlapping w.id s e ex) db.bookings)
              h p (rw (clear, find_conflict) at c) t lo hi);
      }
    ]

none-find_conflict :
    (db : Db) (w : Workspace) (s e : ℕ) (ex : Option ℕ)
    → s < e
    → IsFree db w s e ex
    → find_conflict w db s e ex ≡ none
unfolding find_conflict
none-find_conflict db w s e ex h free =
    elim (Option-cases (find? (window_blocks w.id s e) db.windows)) [
      | inr (m, blocked) ↦
          let yes_block = find?-holds (window_blocks w.id s e) db.windows m blocked in
          let no_block =
            All-find? (λ x. window_blocks w.id s e x ≡ false) (window_blocks w.id s e) db.windows m
              free.no_window blocked in
          cc
      | inl clear ↦
          rw (clear, find_conflict)
            (none-capacity_conflict w.capacity s e (filter (is_overlapping w.id s e ex) db.bookings)
              h
              (λ t lo hi.
                rw (count-filter w.id s e t ex db.bookings lo hi) (free.has_seat t lo hi)))
    ]

-- For a workspace with a capacity of one or more and a range that is not empty, `hasConflict` finds
-- no conflict exactly when no maintenance window of the workspace meets the range and every moment
-- of it is held by fewer pending and confirmed bookings of the workspace (the excluded one aside)
-- than the capacity.
pub has_conflict-none_iff :
    (db : Db) (workspace : Workspace) (start_time end_time : ℕ) (exclude_id : Option ℕ)
    → find? (λ w. w.id == workspace.id) db.workspaces ≡ some workspace
    → 0 < workspace.capacity
    → start_time < end_time
    → (has_conflict db workspace.id start_time end_time exclude_id ≡ ok none)
      ↔ IsFree db workspace start_time end_time exclude_id
unfolding has_conflict
has_conflict-none_iff db w s e ex found p h = (
  λ c. find_conflict-none db w s e ex h p (let c' = rw found at c in ground arith),
  λ free. rw (found, none-find_conflict db w s e ex h free),
)
