-- ===== src/Pricing/RuleLaws.antt =====
-- The invariant that backend/src/pricing/price-rule.entity.ts states for the table of rules, under
-- the operations of backend/src/pricing/pricing-engine.service.ts.
use hub_assist.Common.{
  ℕ, ◌≤◌, ◌<◌, ◌≡◌, ◌≢◌, ◌⊎◌, inl, inr, true, false, Option, none, List, [], ◌∷◌, ◌++◌, ok, arith,
  filter, All, All-append, Bool-cases, find?-none-All,
}
use hub_assist.Pricing.Rules.{PriceRule, present, overlaps, is_active_on, assert_no_overlap}

-- Two rows have different ids, and if both are active for one workspace and day, their hours do
-- not overlap.
pub record Apart (r s : PriceRule) : Type 0 where
  pub ids : r.id ≢ s.id
  pub hours :
      r.workspace_id ≡ s.workspace_id
      → r.day_of_week ≡ s.day_of_week
      → r.is_active ≡ true
      → s.is_active ≡ true
      → (r.end_hour ≤ s.start_hour) ⊎ (s.end_hour ≤ r.start_hour)

abbrev pub NoOverlap : List PriceRule → Type 0
NoOverlap [] = Unit
NoOverlap (r ∷ rs) = All (Apart r) rs × NoOverlap rs

abbrev pub HasHours : PriceRule → Type 0
HasHours r = r.start_hour < r.end_hour

-- The invariant of the table.
abbrev pub IsConsistent : List PriceRule → Type 0
IsConsistent rules = All HasHours rules × NoOverlap rules

pub Apart-sym : (r s : PriceRule) → Apart r s → Apart s r
Apart-sym r s h = record {
  ids = λ e. h.ids (omega arith);
  hours = λ w d a b. ground (arith, h.hours (omega arith) (omega arith) b a);
}

pub NoOverlap-append :
    (rs : List PriceRule) (new : PriceRule)
    → All (λ r. Apart r new) rs
    → NoOverlap rs
    → NoOverlap (rs ++ new ∷ [])
NoOverlap-append [] new h k = (tt, tt)
NoOverlap-append (r ∷ rs) new h k =
    (All-append (Apart r) rs (new ∷ []) k.0 (h.0, tt), NoOverlap-append rs new h.1 k.1)

-- What a check that passes has found of each row.
abbrev pub Clear : ℕ → ℕ → ℕ → ℕ → Option ℕ → PriceRule → Type 0
Clear w d s e ex r = is_active_on w d r ≡ true → overlaps s e ex r ≡ false

filter-Clear :
    (w d s e : ℕ) (ex : Option ℕ) (rs : List PriceRule)
    → All (λ r. overlaps s e ex r ≡ false) (filter (is_active_on w d) rs)
    → All (Clear w d s e ex) rs
filter-Clear w d s e ex [] h = tt
filter-Clear w d s e ex (r ∷ rs) h = elim (Bool-cases (is_active_on w d r)) [
  | inl on ↦ let (x, xs) = rw on at h in ((λ _. x), filter-Clear w d s e ex rs xs)
  | inr off ↦ ((λ on. cc), filter-Clear w d s e ex rs (rw off at h))
]

present-none {ℓ} : {A : Type ℓ} (o : Option A) → present o ≡ false → o ≡ none
present-none o h = ground arith

pub assert_no_overlap-Clear :
    (rs : List PriceRule) (w d s e : ℕ) (ex : Option ℕ)
    → assert_no_overlap rs w d s e ex ≡ ok tt
    → All (Clear w d s e ex) rs
unfolding assert_no_overlap
assert_no_overlap-Clear rs w d s e ex h =
    filter-Clear w d s e ex rs
      (find?-none-All (overlaps s e ex) (filter (is_active_on w d) rs) (ground arith))

pub Clear-Apart :
    (r new : PriceRule)
    → r.id ≢ new.id
    → Clear new.workspace_id new.day_of_week new.start_hour new.end_hour none r
    → Apart r new
unfolding is_active_on overlaps
Clear-Apart r new ne h = record { ids = ne; hours = λ w d a b. ground (arith, h) }

pub All-Apart_of_Clear :
    (rs : List PriceRule) (new : PriceRule)
    → All (λ r. r.id ≢ new.id) rs
    → All (Clear new.workspace_id new.day_of_week new.start_hour new.end_hour none) rs
    → All (λ r. Apart r new) rs
All-Apart_of_Clear [] new h k = tt
All-Apart_of_Clear (r ∷ rs) new h k = (Clear-Apart r new h.0 k.0, All-Apart_of_Clear rs new h.1 k.1)
