-- ===== src/Pricing/Slices.antt =====
-- The walk of `buildSegments` in backend/src/pricing/pricing-engine.service.ts: it covers the range,
-- and prices every moment by the rule of that moment.
use hub_assist.Common.{
  ℕ, zero, suc, ◌+◌, ◌/◌, ◌≤◌, ◌<◌, ◌≡◌, refl, true, false, some, List, [], ◌∷◌, arith, ltb,
  Bool-cases, ap, All, inl, inr, ltb→lt, sym, ◌∙◌, All-Memᴰ,
}
use mathlib.Core.List.{Memᴰ}
use hub_assist.Pricing.Rules.{PriceRule}
use hub_assist.Pricing.RuleLaws.{NoOverlap, Apart}
use hub_assist.Pricing.Engine.{
  Slice, slices_from, slices, slice_end, next_hour, hours_entered, rule_matches, find_matching_rule,
  slice_at,
}

-- Consecutive slices from `a` to `b`: each is not empty, stays in one clock hour, and has the rule
-- that `findMatchingRule` finds at every one of its moments.
pub record FitsSlice (rules : List PriceRule) (a b : ℕ) (s : Slice) : Type 0 where
  pub starts : s.start_time ≡ a
  pub not_empty : a < s.end_time
  pub in_hour : s.end_time ≤ next_hour a
  pub in_range : s.end_time ≤ b
  pub priced : (t : ℕ) → s.start_time ≤ t → t < s.end_time → find_matching_rule rules t ≡ s.rule

abbrev pub Tiles : List PriceRule → ℕ → ℕ → List Slice → Type 0
Tiles rules a b [] = a ≡ b
Tiles rules a b (s ∷ ss) = FitsSlice rules a b s × Tiles rules s.end_time b ss

same_hour : (c t : ℕ) → c ≤ t → t < next_hour c → t / 3600000 ≡ c / 3600000
same_hour c t p q = omega arith

div_day : (t : ℕ) → t / 86400000 ≡ t / 3600000 / 24
div_day t = omega arith

-- The rules are matched by the clock hour alone.
rule_matches_of_hour :
    (c t : ℕ) (r : PriceRule) → t / 3600000 ≡ c / 3600000 → rule_matches t r ≡ rule_matches c r
unfolding rule_matches
rule_matches_of_hour c t r h =
    let d : t / 86400000 ≡ c / 86400000 = omega (arith, div_day t, div_day c) in rw (h, d)

find_matching_rule_of_hour :
    (c t : ℕ) (rules : List PriceRule)
    → t / 3600000 ≡ c / 3600000
    → find_matching_rule rules t ≡ find_matching_rule rules c
unfolding find_matching_rule
find_matching_rule_of_hour c t [] h = refl
find_matching_rule_of_hour c t (r ∷ rs) h =
    rw (rule_matches_of_hour c t r h, find_matching_rule_of_hour c t rs h)

slice_end_bounds :
    (c b : ℕ) → c < b → (c < slice_end c b) × (slice_end c b ≤ b) × (slice_end c b ≤ next_hour c)
slice_end_bounds c b h = ground arith

-- A round that does not end the walk enters the next clock hour.
slice_end_hour : (c b : ℕ) → c < b → slice_end c b < b → slice_end c b / 3600000 ≡ c / 3600000 + 1
slice_end_hour c b h k = ground arith

slices_from_done : (fuel b : ℕ) (rules : List PriceRule) → slices_from fuel b b rules ≡ []
unfolding slices_from
slices_from_done zero b rules = refl
slices_from_done (suc fuel) b rules = ground arith

slice_at-FitsSlice :
    (c b : ℕ) (rules : List PriceRule) → c < b → FitsSlice rules c b (slice_at rules c b)
slice_at-FitsSlice c b rules h =
    let bounds = slice_end_bounds c b h in
    record {
      starts = refl;
      not_empty = bounds.0;
      in_hour = bounds.2;
      in_range = bounds.1;
      priced = λ t p q. find_matching_rule_of_hour c t rules (same_hour c t p (omega arith));
    }

slices_from-Tiles :
    (fuel c b : ℕ) (rules : List PriceRule)
    → c ≤ b
    → b / 3600000 < fuel + c / 3600000
    → Tiles rules c b (slices_from fuel c b rules)
unfolding slices_from
slices_from-Tiles zero c b rules h f = absurd (omega arith)
slices_from-Tiles (suc fuel) c b rules h f = elim (Bool-cases (ltb c b)) [
  | inr done ↦ rw done (ground arith)
  | inl more ↦
      let lt : c < b = ground arith in
      let bounds = slice_end_bounds c b lt in
      rw more (
        slice_at-FitsSlice c b rules lt,
        elim (Bool-cases (ltb (slice_end c b) b)) [
          | inl on ↦
              slices_from-Tiles fuel (slice_end c b) b rules bounds.1
                (omega (arith, slice_end_hour c b lt (ltb→lt _ _ on)))
          | inr last ↦
              let e : slice_end c b ≡ b = ground arith in rw (e, slices_from_done fuel b rules) refl
        ],
      )
]

-- The slices of a range follow one another from its start to its end with no gap and no overlap,
-- none of them is empty or leaves its clock hour, and each has the rule that applies at every one
-- of its moments.
pub slices-Tiles :
    (start_time end_time : ℕ) (rules : List PriceRule)
    → start_time ≤ end_time
    → Tiles rules start_time end_time (slices start_time end_time rules)
unfolding slices
slices-Tiles a b rules h = slices_from-Tiles (hours_entered a b) a b rules h (omega arith)

-- Two rules that apply at one moment are not apart.
match_once :
    (moment : ℕ) (r s : PriceRule)
    → r.workspace_id ≡ s.workspace_id
    → Apart r s
    → rule_matches moment r ≡ true
    → rule_matches moment s ≡ false
unfolding rule_matches
match_once moment r s w h p = ground (arith, h.hours)

-- In a consistent table of one workspace at most one rule applies at a moment: `findMatchingRule`
-- finds each rule that applies, wherever it stands among the rows.
find_matching_rule_unique :
    (workspace_id moment : ℕ) (rule : PriceRule) (rules : List PriceRule)
    → NoOverlap rules
    → All (λ r. r.workspace_id ≡ workspace_id) rules
    → Memᴰ rule rules
    → rule_matches moment rule ≡ true
    → find_matching_rule rules moment ≡ some rule
unfolding find_matching_rule
find_matching_rule_unique w t rule [] h k m p = elim m [ ]
find_matching_rule_unique w t rule (x ∷ rs) h k (Memᴰ.head e) p =
    let q = rw e at p in rw q (ap some (sym e))
find_matching_rule_unique w t rule (x ∷ rs) h k (Memᴰ.tail m) p =
    elim (Bool-cases (rule_matches t x)) [
      | inl both ↦
          let off =
            match_once t x rule (k.0 ∙ sym (All-Memᴰ _ rule rs k.1 m))
              (All-Memᴰ (Apart x) rule rs h.0 m) both in
          cc
      | inr other ↦ rw other (find_matching_rule_unique w t rule rs h.1 k.1 m p)
    ]
