-- ===== src/Booking/Sweep.antt =====
-- The sweep of backend/src/bookings/conflict-detection.service.ts finds the largest number of ranges
-- that hold one moment: a moment's number is the starts up to it less the ends up to it, the sweep
-- reaches that number, and reaches no number that is not one.
use hub_assist.Common.{
  ℕ, ◌+◌, ◌≤◌, ◌<◌, ◌≡◌, refl, ◌⊎◌, inl, inr, true, List, [], ◌∷◌, arith, All, All-Memᴰ, ◌∙◌,
}
use mathlib.Core.List.{Memᴰ}
use native.Mathlib.Decide.{dec_le}
use hub_assist.Common.Int.{pos, ◌+ℤ◌, ◌≤ℤ◌, pos_part, neg_part, +ℤ_parts, -ℤ_parts}
use hub_assist.Booking.Conflict.{
  EventType, start, end, Event, not_after, Concurrency, count_event, sweep,
}
use hub_assist.Booking.Sorting.{starts_by, ends_by, IsSorted}

count_event-most : (c : Concurrency) (k : EventType) → c.most ≤ℤ (count_event c k).most
unfolding count_event
count_event-most c start = ground (arith, +ℤ_parts c.current (pos 1))
count_event-most c end = omega arith

count_event-current :
    (c : Concurrency) (k : EventType)
    → c.current ≤ℤ c.most
    → (count_event c k).current ≤ℤ (count_event c k).most
unfolding count_event
count_event-current c start h = ground (arith, +ℤ_parts c.current (pos 1))
count_event-current c end h = omega (arith, -ℤ_parts c.current (pos 1))

pub sweep-most : (c : Concurrency) (es : List Event) → c.most ≤ℤ (sweep c es).most
unfolding sweep
sweep-most c [] = omega arith
sweep-most c (e ∷ es) =
    omega (arith, count_event-most c e.kind, sweep-most (count_event c e.kind) es)

-- No event behind a later one has come by an earlier moment.
none_by :
    (t : ℕ) (e : Event) (es : List Event)
    → t < e.time
    → All (λ x. not_after e x ≡ true) es
    → (starts_by t es ≡ 0) × (ends_by t es ≡ 0)
unfolding starts_by ends_by not_after
none_by t e [] h k = (refl, refl)
none_by t e (x ∷ xs) h k = let ih = none_by t e xs h k.1 in ground arith

-- Behind a start no end of the same moment comes.
ends_by_start :
    (e : Event) (es : List Event)
    → e.kind ≡ start
    → All (λ x. not_after e x ≡ true) es
    → ends_by e.time es ≡ 0
unfolding ends_by not_after
ends_by_start e [] h k = refl
ends_by_start e (x ∷ xs) h k = let ih = ends_by_start e xs h k.1 in ground arith

-- One event, in the numbers that `omega` reads.
count_event_balance :
    (t : ℕ) (c : Concurrency) (e : Event) (es : List Event)
    → e.time ≤ t
    → pos_part (count_event c e.kind).current
        + neg_part c.current
        + starts_by t es
        + ends_by t (e ∷ es)
      ≡ neg_part (count_event c e.kind).current
        + pos_part c.current
        + starts_by t (e ∷ es)
        + ends_by t es
unfolding starts_by ends_by count_event
count_event_balance t c e es h =
    ground (arith, +ℤ_parts c.current (pos 1), -ℤ_parts c.current (pos 1))

-- The sweep reaches the number of every moment.
pub sweep-reaches :
    (t : ℕ) (c : Concurrency) (es : List Event)
    → IsSorted es
    → c.current ≤ℤ c.most
    → pos_part c.current + starts_by t es + neg_part (sweep c es).most
      ≤ pos_part (sweep c es).most + neg_part c.current + ends_by t es
unfolding sweep
sweep-reaches t c [] s h = unfold starts_by ends_by in omega arith
sweep-reaches t c (e ∷ es) s h =
    let c' = count_event c e.kind in
    let ih = sweep-reaches t c' es s.1 (count_event-current c e.kind h) in
    elim (dec_le e.time t) [
      | yes by ↦ omega (arith, ih, count_event_balance t c e es by)
      | no later ↦
          let none_come = none_by t e es (omega arith) s.0 in
          let zero_starts : starts_by t (e ∷ es) ≡ 0 =
            unfold starts_by in ground (arith, none_come) in
          omega (arith, zero_starts, count_event-most c e.kind, sweep-most c' es)
    ]

-- What a sweep that ends above its first maximum has reached: the number at the time of an event.
pub record Attained (c : Concurrency) (es : List Event) : Type 0 where
  pub event : Event
  pub listed : Memᴰ event es
  pub number :
      pos_part (sweep c es).most + neg_part c.current + ends_by event.time es
      ≤ neg_part (sweep c es).most + pos_part c.current + starts_by event.time es

time-le : (e x : Event) → not_after e x ≡ true → e.time ≤ x.time
unfolding not_after
time-le e x h = ground arith

Attained-cons :
    (c : Concurrency) (e : Event) (es : List Event)
    → All (λ x. not_after e x ≡ true) es
    → Attained (count_event c e.kind) es
    → Attained c (e ∷ es)
unfolding sweep
Attained-cons c e es s a =
    let le = time-le e a.event (All-Memᴰ (λ x. not_after e x ≡ true) a.event es s a.listed) in
    record {
      event = a.event;
      listed = Memᴰ.tail a.listed;
      number = omega (arith, a.number, count_event_balance a.event.time c e es le);
    }

-- A start that raises the maximum.
count_event-raises :
    (c : Concurrency) (k : EventType)
    → ((count_event c k).most ≡ c.most)
      ⊎ ((k ≡ start) × ((count_event c k).most ≡ c.current +ℤ pos 1))
unfolding count_event
count_event-raises c start = ground arith
count_event-raises c end = inl refl

ends_by-cons_start :
    (e : Event) (es : List Event) → e.kind ≡ start → ends_by e.time (e ∷ es) ≡ ends_by e.time es
unfolding ends_by
ends_by-cons_start e es k = ground arith

Attained-raise :
    (c : Concurrency) (e : Event) (es : List Event)
    → IsSorted (e ∷ es)
    → e.kind ≡ start
    → (sweep c (e ∷ es)).most ≡ c.current +ℤ pos 1
    → Attained c (e ∷ es)
Attained-raise c e es s k m =
    let no_end : ends_by e.time (e ∷ es) ≡ 0 =
      ends_by-cons_start e es k ∙ ends_by_start e es k s.0 in
    let one_start : 1 ≤ starts_by e.time (e ∷ es) = unfold starts_by in ground arith in
    record {
      event = e;
      listed = Memᴰ.head refl;
      number = rw m (omega (arith, no_end, one_start, +ℤ_parts c.current (pos 1)));
    }

pub sweep_attains :
    (c : Concurrency) (es : List Event) → IsSorted es → ((sweep c es).most ≡ c.most) ⊎ Attained c es
unfolding sweep
sweep_attains c [] s = inl refl
sweep_attains c (e ∷ es) s = elim (sweep_attains (count_event c e.kind) es s.1) [
  | inr a ↦ inr (Attained-cons c e es s.0 a)
  | inl same ↦ elim (count_event-raises c e.kind) [
    | inl kept ↦ inl (same ∙ kept)
    | inr (k, raised) ↦ inr (Attained-raise c e es s k (unfold sweep in same ∙ raised))
  ]
]
