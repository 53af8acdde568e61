-- ===== src/Booking/Sorting.antt =====
-- The sort of the events in backend/src/bookings/conflict-detection.service.ts, and how many ranges
-- have started and ended by a moment.
use hub_assist.Common.{
  ℕ, ◌+◌, ◌≡◌, refl, inl, inr, Bool, true, false, List, [], ◌∷◌, arith, leb, if◌then◌else◌, All,
  Bool-cases,
}
use hub_assist.Booking.Conflict.{start, end, Event, not_after, insert_event, sort_events}

-- How many starts, and how many ends, have come by the moment `t`.
abbrev is_start_by : ℕ → Event → Bool
is_start_by t e = elim e.kind [ start ↦ leb e.time t | end ↦ false ]

abbrev is_end_by : ℕ → Event → Bool
is_end_by t e = elim e.kind [ start ↦ false | end ↦ leb e.time t ]

unfoldable pub starts_by : ℕ → List Event → ℕ
starts_by t [] = 0
starts_by t (e ∷ es) = (if is_start_by t e then 1 else 0) + starts_by t es

unfoldable pub ends_by : ℕ → List Event → ℕ
ends_by t [] = 0
ends_by t (e ∷ es) = (if is_end_by t e then 1 else 0) + ends_by t es

starts_by-insert :
    (t : ℕ) (e : Event) (es : List Event) → starts_by t (insert_event e es) ≡ starts_by t (e ∷ es)
unfolding starts_by insert_event
starts_by-insert t e [] = refl
starts_by-insert t e (x ∷ xs) = elim (Bool-cases (not_after e x)) [
  | inl b ↦ rw b
  | inr a ↦ rw (a, starts_by-insert t e xs) (omega arith)
]

ends_by-insert :
    (t : ℕ) (e : Event) (es : List Event) → ends_by t (insert_event e es) ≡ ends_by t (e ∷ es)
unfolding ends_by insert_event
ends_by-insert t e [] = refl
ends_by-insert t e (x ∷ xs) = elim (Bool-cases (not_after e x)) [
  | inl b ↦ rw b
  | inr a ↦ rw (a, ends_by-insert t e xs) (omega arith)
]

pub starts_by-sort : (t : ℕ) (es : List Event) → starts_by t (sort_events es) ≡ starts_by t es
unfolding starts_by sort_events
starts_by-sort t [] = refl
starts_by-sort t (e ∷ es) = rw (starts_by-insert t e (sort_events es)) (rw (starts_by-sort t es))

pub ends_by-sort : (t : ℕ) (es : List Event) → ends_by t (sort_events es) ≡ ends_by t es
unfolding ends_by sort_events
ends_by-sort t [] = refl
ends_by-sort t (e ∷ es) = rw (ends_by-insert t e (sort_events es)) (rw (ends_by-sort t es))

-- Every event stands after none of those behind it.
abbrev pub IsSorted : List Event → Type 0
IsSorted [] = Unit
IsSorted (e ∷ es) = All (λ x. not_after e x ≡ true) es × IsSorted es

not_after_total : (a b : Event) → not_after a b ≡ false → not_after b a ≡ true
unfolding not_after
not_after_total a b h = ground arith

not_after_trans :
    (a b c : Event) → not_after a b ≡ true → not_after b c ≡ true → not_after a c ≡ true
unfolding not_after
not_after_trans a b c h k = ground arith

All-not_after_trans :
    (a b : Event) (es : List Event)
    → not_after a b ≡ true
    → All (λ x. not_after b x ≡ true) es
    → All (λ x. not_after a x ≡ true) es
All-not_after_trans a b [] h k = tt
All-not_after_trans a b (x ∷ xs) h k =
    (not_after_trans a b x h k.0, All-not_after_trans a b xs h k.1)

All-insert :
    (a e : Event) (es : List Event)
    → not_after a e ≡ true
    → All (λ x. not_after a x ≡ true) es
    → All (λ x. not_after a x ≡ true) (insert_event e es)
unfolding insert_event
All-insert a e [] h k = (h, tt)
All-insert a e (x ∷ xs) h k = elim (Bool-cases (not_after e x)) [
  | inl b ↦ rw b (h, k)
  | inr b ↦ rw b (k.0, All-insert a e xs h k.1)
]

insert_event-IsSorted : (e : Event) (es : List Event) → IsSorted es → IsSorted (insert_event e es)
unfolding insert_event
insert_event-IsSorted e [] h = (tt, tt)
insert_event-IsSorted e (x ∷ xs) h = elim (Bool-cases (not_after e x)) [
  | inl b ↦ rw b ((b, All-not_after_trans e x xs b h.0), h)
  | inr a ↦ rw a (All-insert x e xs (not_after_total e x a) h.0, insert_event-IsSorted e xs h.1)
]

pub sort_events-IsSorted : (es : List Event) → IsSorted (sort_events es)
unfolding sort_events
sort_events-IsSorted [] = tt
sort_events-IsSorted (e ∷ es) = insert_event-IsSorted e (sort_events es) (sort_events-IsSorted es)
