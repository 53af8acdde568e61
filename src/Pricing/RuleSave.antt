-- ===== src/Pricing/RuleSave.antt =====
-- A save of a row in the table of backend/src/pricing/pricing-engine.service.ts, against the
-- invariant of the table.
use hub_assist.Common.{
  ◌≡◌, ◌≢◌, inl, inr, false, List, [], ◌∷◌, arith, ◌==◌, All, Bool-cases, ==→eq,
}
use hub_assist.Pricing.Rules.{PriceRule, save_rule}
use hub_assist.Pricing.RuleLaws.{Apart, Apart-sym, NoOverlap, HasHours}

-- A row is replaced by its new version among rows that are apart from it.
save_rule-All :
    (r m : PriceRule) (rs : List PriceRule)
    → Apart r m
    → All (Apart r) rs
    → All (Apart r) (save_rule m rs)
unfolding save_rule
save_rule-All r m [] h k = tt
save_rule-All r m (s ∷ rs) h k = elim (Bool-cases (s.id == m.id)) [
  | inl same ↦ rw same (h, save_rule-All r m rs h k.1)
  | inr other ↦ rw other (k.0, save_rule-All r m rs h k.1)
]

abbrev pub ApartUnlessSelf : PriceRule → PriceRule → Type 0
ApartUnlessSelf m r = r.id ≢ m.id → Apart r m

save_rule-All_self :
    (r m : PriceRule) (rs : List PriceRule)
    → r.id ≡ m.id
    → All (Apart r) rs
    → All (ApartUnlessSelf m) rs
    → All (Apart m) (save_rule m rs)
unfolding save_rule
save_rule-All_self r m [] e h k = tt
save_rule-All_self r m (s ∷ rs) e h k =
    let ne : s.id ≢ m.id = λ q. h.0.ids (omega arith) in
    let off : (s.id == m.id) ≡ false = ground arith in
    rw off (Apart-sym s m (k.0 ne), save_rule-All_self r m rs e h.1 k.1)

pub save_rule-NoOverlap :
    (m : PriceRule) (rs : List PriceRule)
    → All (ApartUnlessSelf m) rs
    → NoOverlap rs
    → NoOverlap (save_rule m rs)
unfolding save_rule
save_rule-NoOverlap m [] h k = tt
save_rule-NoOverlap m (r ∷ rs) h k = elim (Bool-cases (r.id == m.id)) [
  | inl same ↦
      rw same (save_rule-All_self r m rs (==→eq _ _ same) k.0 h.1, save_rule-NoOverlap m rs h.1 k.1)
  | inr other ↦
      rw other (save_rule-All r m rs (h.0 (ground arith)) k.0, save_rule-NoOverlap m rs h.1 k.1)
]

pub save_rule-HasHours :
    (m : PriceRule) (rs : List PriceRule)
    → HasHours m
    → All HasHours rs
    → All HasHours (save_rule m rs)
unfolding save_rule
save_rule-HasHours m [] h k = tt
save_rule-HasHours m (r ∷ rs) h k = ground (arith, save_rule-HasHours m rs h k.1)
