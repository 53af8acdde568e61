-- ===== src/Booking/ConflictLaws.antt =====
-- What the conflict check of backend/src/bookings/conflict-detection.service.ts decides, stated
-- without events: how many bookings hold a moment.
use hub_assist.Common.{
  ℕ, ◌+◌, ◌≤◌, ◌<◌, ◌≡◌, refl, ◌⊎◌, inl, inr, Bool, ◌&&◌, List, [], ◌∷◌, arith, leb, ltb, count,
}
use native.Mathlib.Decide.{dec_lt}
use mathlib.Core.Logic.{◌≢◌}
use hub_assist.Common.Int.{pos, ◌≤ℤ◌}
use hub_assist.Booking.Model.{Booking}
use hub_assist.Booking.Conflict.{
  Concurrency, sweep, sort_events, booking_events, all_events, max_concurrent,
}
use hub_assist.Booking.Sorting.{
  starts_by, ends_by, starts_by-sort, ends_by-sort, sort_events-IsSorted,
}
use hub_assist.Booking.Sweep.{Attained, sweep-reaches, sweep_attains}

-- `[start, end)` holds the moment.
abbrev pub covers : ℕ → Booking → Bool
covers t b = leb b.start_time t && ltb t b.end_time

-- At a moment of the range, the starts less the ends of the clipped bookings are the bookings that
-- hold it.
booking_events_balance :
    (s e t : ℕ) (bs : List Booking)
    → s ≤ t
    → t < e
    → starts_by t (booking_events s e bs) ≡ ends_by t (booking_events s e bs) + count (covers t) bs
unfolding booking_events starts_by ends_by
booking_events_balance s e t [] h k = refl
booking_events_balance s e t (b ∷ bs) h k =
    let ih = booking_events_balance s e t bs h k in ground arith

booking_events_before :
    (s e t : ℕ) (bs : List Booking) → t < s → starts_by t (booking_events s e bs) ≡ 0
unfolding booking_events starts_by
booking_events_before s e t [] h = refl
booking_events_before s e t (b ∷ bs) h = let ih = booking_events_before s e t bs h in ground arith

booking_events_after :
    (s e t : ℕ) (bs : List Booking)
    → e ≤ t
    → starts_by t (booking_events s e bs) ≡ ends_by t (booking_events s e bs)
unfolding booking_events starts_by ends_by
booking_events_after s e t [] h = refl
booking_events_after s e t (b ∷ bs) h = let ih = booking_events_after s e t bs h in ground arith

module _ (s e : ℕ) (bs : List Booking) (nonempty : s < e) where
  sorted_starts :
      (t : ℕ) → starts_by t (sort_events (all_events s e bs)) ≡ starts_by t (all_events s e bs)
  sorted_starts t = starts_by-sort t (all_events s e bs)

  sorted_ends :
      (t : ℕ) → ends_by t (sort_events (all_events s e bs)) ≡ ends_by t (all_events s e bs)
  sorted_ends t = ends_by-sort t (all_events s e bs)

  all_events_balance :
      (t : ℕ)
      → s ≤ t
      → t < e
      → starts_by t (all_events s e bs) ≡ ends_by t (all_events s e bs) + count (covers t) bs + 1
  unfolding all_events starts_by ends_by
  all_events_balance t h k = let b = booking_events_balance s e t bs h k in ground arith

  all_events_outside :
      (t : ℕ) → (t < s) ⊎ (e ≤ t) → starts_by t (all_events s e bs) ≤ ends_by t (all_events s e bs)
  unfolding all_events starts_by ends_by
  all_events_outside t (inl h) = let b = booking_events_before s e t bs h in ground arith
  all_events_outside t (inr h) = let b = booking_events_after s e t bs h in ground arith

  abbrev zero_count : Concurrency
  zero_count = record { current = pos 0; most = pos 0 }

  -- The request itself counts at each of its moments, with the bookings that hold it.
  pub max_concurrent-reaches :
      (t : ℕ) → s ≤ t → t < e → pos (count (covers t) bs + 1) ≤ℤ max_concurrent s e bs
  unfolding max_concurrent
  max_concurrent-reaches t h k =
      let es = sort_events (all_events s e bs) in
      let r =
        sweep-reaches t zero_count es (sort_events-IsSorted (all_events s e bs)) (omega arith) in
      omega (arith, r, sorted_starts t, sorted_ends t, all_events_balance t h k)

  max_concurrent-pos : pos 1 ≤ℤ max_concurrent s e bs
  max_concurrent-pos = let r = max_concurrent-reaches s (omega arith) nonempty in omega (arith, r)

  max_concurrent-ne : (sweep zero_count (sort_events (all_events s e bs))).most ≢ pos 0
  unfolding max_concurrent
  max_concurrent-ne h =
      let big : pos 1 ≤ℤ (sweep zero_count (sort_events (all_events s e bs))).most =
        max_concurrent-pos in
      let bad : pos 1 ≤ℤ pos 0 = rw h at big in omega arith

  abbrev pub IsReached : ℕ → Type 0
  IsReached t = (s ≤ t) × (t < e) × (max_concurrent s e bs ≤ℤ pos (count (covers t) bs + 1))

  Attained-IsReached :
      (a : Attained zero_count (sort_events (all_events s e bs))) → IsReached a.event.time
  unfolding max_concurrent
  Attained-IsReached a =
      let t = a.event.time in
      let big : pos 1 ≤ℤ (sweep zero_count (sort_events (all_events s e bs))).most =
        max_concurrent-pos in
      let lo : s ≤ t = elim (dec_lt t s) [
        | yes out ↦ absurd (
            omega (arith, a.number, sorted_starts t, sorted_ends t, all_events_outside t (inl out)))
        | no inside ↦ omega arith
      ] in
      let hi : t < e = elim (dec_lt t e) [
        | yes inside ↦ inside
        | no out ↦ absurd (
            omega (
              arith,
              a.number,
              sorted_starts t,
              sorted_ends t,
              all_events_outside t (inr (omega arith)),
            ))
      ] in
      (lo, hi, omega (arith, a.number, sorted_starts t, sorted_ends t, all_events_balance t lo hi))

  -- Some moment of the range has as many.
  pub max_concurrent-attained : (t : ℕ) × IsReached t
  max_concurrent-attained =
      elim (sweep_attains zero_count (sort_events (all_events s e bs))
        (sort_events-IsSorted (all_events s e bs))) [
          | inl zero_most ↦ absurd (max_concurrent-ne zero_most)
          | inr a ↦ (a.event.time, Attained-IsReached a)
        ]
