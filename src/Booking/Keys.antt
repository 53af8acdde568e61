-- ===== src/Booking/Keys.antt =====
-- Rows with distinct keys, as in the table of backend/src/bookings/booking.entity.ts: what a save of
-- one row does to a count.
use hub_assist.Common.{
  ℕ, ◌+◌, ◌≡◌, ◌≢◌, refl, inl, inr, Bool, true, false, none, some, List, [], ◌∷◌, arith, ◌==◌,
  if◌then◌else◌, All, Bool-cases, count, find?, ==→eq, sym, ◌∙◌,
}
use mathlib.Core.Path.{subst}
use hub_assist.Booking.Model.{Booking}
use hub_assist.Booking.Room.{occupies, occupancy}
use hub_assist.Booking.Lifecycle.{save_booking}

abbrev pub UniqueKeys : List Booking → Type 0
UniqueKeys [] = Unit
UniqueKeys (b ∷ bs) = All (λ x. x.id ≢ b.id) bs × UniqueKeys bs

abbrev pub one_if : Bool → ℕ
one_if c = if c then 1 else 0

save_booking-absent :
    (b : Booking) (rows : List Booking) → All (λ x. x.id ≢ b.id) rows → save_booking b rows ≡ rows
unfolding save_booking
save_booking-absent b [] h = refl
save_booking-absent b (x ∷ xs) h = let ih = save_booking-absent b xs h.1 in ground (arith, h.0)

occupancy-absent :
    (w id t : ℕ) (rows : List Booking)
    → All (λ x. x.id ≢ id) rows
    → occupancy rows w none t ≡ occupancy rows w (some id) t
occupancy-absent w id t [] h = refl
occupancy-absent w id t (x ∷ xs) h = let ih = occupancy-absent w id t xs h.1 in ground (arith, h.0)

found_head :
    (id : ℕ) (x b : Booking) (xs : List Booking)
    → find? (λ y. y.id == id) (x ∷ xs) ≡ some b
    → (x.id == id) ≡ true
    → x ≡ b
found_head id x b xs f h = ground arith

found_tail :
    (id : ℕ) (x b : Booking) (xs : List Booking)
    → find? (λ y. y.id == id) (x ∷ xs) ≡ some b
    → (x.id == id) ≡ false
    → find? (λ y. y.id == id) xs ≡ some b
found_tail id x b xs f h = ground arith

-- A save of the row with key `id` exchanges its part in a count.
pub count-save :
    (p : Booking → Bool) (id : ℕ) (rows : List Booking) (b b' : Booking)
    → UniqueKeys rows
    → find? (λ x. x.id == id) rows ≡ some b
    → b'.id ≡ id
    → count p (save_booking b' rows) + one_if (p b) ≡ count p rows + one_if (p b')
unfolding save_booking
count-save p id [] b b' u f k = cc
count-save p id (x ∷ xs) b b' u f k = elim (Bool-cases (x.id == id)) [
  | inl here ↦
      let same = found_head id x b xs f here in
      let hit : (x.id == b'.id) ≡ true = ground arith in
      let absent : All (λ y. y.id ≢ b'.id) xs =
        subst (λ i. All (λ y. y.id ≢ i) xs) (==→eq _ _ here ∙ sym k) u.0 in
      let rest : count p (save_booking b' xs) ≡ count p xs =
        rw (save_booking-absent b' xs absent) refl in
      rw hit (rw same (omega (arith, rest)))
  | inr later ↦
      let ih = count-save p id xs b b' u.1 (found_tail id x b xs f later) k in
      let miss : (x.id == b'.id) ≡ false = ground arith in rw miss (omega (arith, ih))
]

-- A row's part in an occupancy is what excluding it takes away.
pub occupancy-exclude :
    (w id t : ℕ) (rows : List Booking) (b : Booking)
    → UniqueKeys rows
    → find? (λ x. x.id == id) rows ≡ some b
    → occupancy rows w none t ≡ occupancy rows w (some id) t + one_if (occupies w none t b)
occupancy-exclude w id t [] b u f = cc
occupancy-exclude w id t (x ∷ xs) b u f = elim (Bool-cases (x.id == id)) [
  | inl here ↦
      let same = found_head id x b xs f here in
      let absent : All (λ y. y.id ≢ id) xs =
        subst (λ i. All (λ y. y.id ≢ i) xs) (==→eq _ _ here) u.0 in
      let rest = occupancy-absent w id t xs absent in ground arith
  | inr later ↦
      let ih = occupancy-exclude w id t xs b u.1 (found_tail id x b xs f later) in ground arith
]
