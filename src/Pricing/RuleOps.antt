-- ===== src/Pricing/RuleOps.antt =====
-- Every rule operation of backend/src/pricing/pricing-engine.service.ts against the invariant of
-- the table.
use hub_assist.Common.{
  ℕ, ◌<◌, ◌≡◌, ◌≢◌, ◌⊎◌, inl, inr, true, false, none, some, get_or, List, [], ◌∷◌, ◌++◌, ok, arith,
  ◌==◌, find?, All, All-append, All-find?, Bool-cases, find?-holds, >>=-eq-ok, ==→eq, sym, refl,
}
use mathlib.Core.Path.{subst}
use hub_assist.Pricing.Rules.{
  PriceRule, CreatePriceRuleDto, UpdatePriceRuleDto, overlaps, is_active_on, assert_no_overlap,
  create_rule, new_rule, recheck, merge_rule, find_rule_by_id, time_changed, save_rule, update_rule,
  validate_rule_hours,
}
use hub_assist.Pricing.RuleSave.{save_rule-NoOverlap, save_rule-HasHours, ApartUnlessSelf}
use hub_assist.Pricing.RuleLaws.{
  Apart, Apart-sym, NoOverlap, HasHours, IsConsistent, NoOverlap-append, Clear,
  assert_no_overlap-Clear, All-Apart_of_Clear,
}

validate-lt : (s e : ℕ) → validate_rule_hours s e ≡ ok tt → s < e
unfolding validate_rule_hours
validate-lt s e h = ground arith

-- A rule that `createRule` accepts keeps the table consistent: it is added behind the rows, its
-- hours are in order and clear of the active rules of its workspace and day. The row's key is new.
pub create_rule-IsConsistent :
    (id : ℕ) (dto : CreatePriceRuleDto) (rules : List PriceRule) {rules' : List PriceRule}
    {rule : PriceRule}
    → IsConsistent rules
    → All (λ r. r.id ≢ id) rules
    → create_rule id dto rules ≡ ok (rules', rule)
    → IsConsistent rules' × (rules' ≡ rules ++ rule ∷ []) × (rule ≡ new_rule id dto)
unfolding create_rule new_rule
create_rule-IsConsistent id dto rules {rules'} {rule} h fresh e =
    let (u, valid, e1) = >>=-eq-ok (validate_rule_hours dto.start_hour dto.end_hour) _ e in
    let (v, clear, e2) = >>=-eq-ok (assert_no_overlap rules _ _ _ _ none) _ e1 in
    let new = new_rule id dto in
    let kept : IsConsistent (rules ++ new ∷ []) = (
      All-append HasHours rules (new ∷ []) h.0 (validate-lt _ _ valid, tt),
      NoOverlap-append rules new
          (All-Apart_of_Clear rules new fresh (assert_no_overlap-Clear rules _ _ _ _ none clear))
          h.1,
    ) in
    let same : rules ++ new ∷ [] ≡ rules' = cc in (subst IsConsistent same kept, cc, cc)

-- The new version of a row is apart from a row that the check has cleared.
Apart-merged_of_Clear :
    (r m : PriceRule)
    → Clear m.workspace_id m.day_of_week m.start_hour m.end_hour (some m.id) r
    → ApartUnlessSelf m r
unfolding is_active_on overlaps
Apart-merged_of_Clear r m h ne = record { ids = ne; hours = λ w d a b. ground (arith, h) }

All-merged_of_Clear :
    (m : PriceRule) (rs : List PriceRule)
    → All (Clear m.workspace_id m.day_of_week m.start_hour m.end_hour (some m.id)) rs
    → All (ApartUnlessSelf m) rs
All-merged_of_Clear m [] h = tt
All-merged_of_Clear m (r ∷ rs) h = (Apart-merged_of_Clear r m h.0, All-merged_of_Clear m rs h.1)

-- The request leaves the place of the rule alone, and does not switch an inactive rule on.
pub record KeepsPlace (rule : PriceRule) (dto : UpdatePriceRuleDto) : Type 0 where
  pub same_workspace : dto.workspace_id ≡ none
  pub not_reactivated : get_or dto.is_active rule.is_active ≡ true → rule.is_active ≡ true

Apart-merge :
    (s r : PriceRule) (dto : UpdatePriceRuleDto)
    → time_changed dto ≡ false
    → KeepsPlace r dto
    → Apart s r
    → Apart s (merge_rule r dto)
unfolding merge_rule time_changed
Apart-merge s r dto t k h = record {
  ids = h.ids;
  hours = λ w d a b. ground (arith, h.hours, k.same_workspace, k.not_reactivated);
}

All-map_Apart :
    (r : PriceRule) (rs : List PriceRule) → All (Apart r) rs → All (λ s. s.id ≢ r.id → Apart s r) rs
All-map_Apart r [] h = tt
All-map_Apart r (s ∷ rs) h = ((λ _. Apart-sym r s h.0), All-map_Apart r rs h.1)

-- A row of a consistent table is apart from every other row.
find?-Apart :
    (id : ℕ) (rules : List PriceRule) (rule : PriceRule)
    → NoOverlap rules
    → find? (λ r. r.id == id) rules ≡ some rule
    → All (λ s. s.id ≢ rule.id → Apart s rule) rules
find?-Apart id [] rule h e = tt
find?-Apart id (x ∷ rs) rule h e = elim (Bool-cases (x.id == id)) [
  | inl same ↦
      let here : x ≡ rule = ground arith in
      subst (λ r. All (λ s. s.id ≢ r.id → Apart s r) (x ∷ rs)) here
        ((λ ne. absurd (ne refl)), All-map_Apart x rs h.0)
  | inr other ↦
      let later : find? (λ r. r.id == id) rs ≡ some rule = ground arith in
      (
        (λ _. All-find? (Apart x) (λ r. r.id == id) rs rule h.0 later),
        find?-Apart id rs rule h.1 later,
      )
]

All-merge :
    (r : PriceRule) (dto : UpdatePriceRuleDto) (rs : List PriceRule)
    → time_changed dto ≡ false
    → KeepsPlace r dto
    → All (λ s. s.id ≢ r.id → Apart s r) rs
    → All (ApartUnlessSelf (merge_rule r dto)) rs
unfolding merge_rule
All-merge r dto [] t k h = tt
All-merge r dto (s ∷ rs) t k h =
    ((λ ne. unfold merge_rule in Apart-merge s r dto t k (h.0 ne)), All-merge r dto rs t k h.1)

recheck-Apart :
    (id : ℕ) (dto : UpdatePriceRuleDto) (rule : PriceRule) (rules : List PriceRule)
    → NoOverlap rules
    → find? (λ r. r.id == id) rules ≡ some rule
    → recheck id dto (merge_rule rule dto) rules ≡ ok tt
    → (time_changed dto ≡ true) ⊎ KeepsPlace rule dto
    → All (ApartUnlessSelf (merge_rule rule dto)) rules
unfolding recheck
recheck-Apart id dto rule rules h found e k = elim (Bool-cases (time_changed dto)) [
  | inl changed ↦
      let m = merge_rule rule dto in
      let key : m.id ≡ id =
        unfold merge_rule in ==→eq _ _ (find?-holds (λ r. r.id == id) rules rule found) in
      let clear =
        assert_no_overlap-Clear rules m.workspace_id m.day_of_week m.start_hour m.end_hour (some id)
          (rw (changed, recheck) at e) in
      All-merged_of_Clear m rules (
        subst (λ i. All (Clear m.workspace_id m.day_of_week m.start_hour m.end_hour (some i)) rules)
          (sym key) clear)
  | inr same ↦
      All-merge rule dto rules same (elim k [ inl c ↦ cc | inr p ↦ p ])
        (find?-Apart id rules rule h found)
]

-- An update that `updateRule` accepts keeps the table consistent, if it changes a time field or
-- leaves the rule's workspace alone and does not switch an inactive rule on.
pub update_rule-IsConsistent :
    (id : ℕ) (dto : UpdatePriceRuleDto) (rules : List PriceRule) (rule : PriceRule)
    {rules' : List PriceRule} {rule' : PriceRule}
    → IsConsistent rules
    → find? (λ r. r.id == id) rules ≡ some rule
    → (time_changed dto ≡ true) ⊎ KeepsPlace rule dto
    → update_rule id dto rules ≡ ok (rules', rule')
    → IsConsistent rules' × (rule' ≡ merge_rule rule dto)
unfolding update_rule find_rule_by_id
update_rule-IsConsistent id dto rules rule {rules'} {rule'} h found k e =
    let m = merge_rule rule dto in
    let e0 = rw found at e in
    let (u, valid, e1) = >>=-eq-ok (validate_rule_hours m.start_hour m.end_hour) _ e0 in
    let (v, clear, e2) = >>=-eq-ok (recheck id dto m rules) _ e1 in
    let kept : IsConsistent (save_rule m rules) = (
      save_rule-HasHours m rules (validate-lt _ _ valid) h.0,
      save_rule-NoOverlap m rules (recheck-Apart id dto rule rules h.1 found clear k) h.1,
    ) in
    let same : save_rule m rules ≡ rules' = cc in (subst IsConsistent same kept, cc)

-- Switching a rule on is not checked: an inactive rule whose hours overlap those of an active rule
-- of its workspace and day is switched on by an update that sets nothing else, and the table is
-- then inconsistent.
update_rule_reactivates :
    (id : ℕ) (dto : UpdatePriceRuleDto) (rule other : PriceRule) (rules : List PriceRule)
    → dto.is_active ≡ some true
    → time_changed dto ≡ false
    → dto.workspace_id ≡ none
    → rule.id ≡ id
    → HasHours rule
    → other.id ≢ id
    → other.workspace_id ≡ rule.workspace_id
    → other.day_of_week ≡ rule.day_of_week
    → other.is_active ≡ true
    → other.start_hour < rule.end_hour
    → rule.start_hour < other.end_hour
    → (update_rule id dto (rule ∷ other ∷ rules)
        ≡ ok (save_rule (merge_rule rule dto) (rule ∷ other ∷ rules), merge_rule rule dto))
      × (¬ (NoOverlap (save_rule (merge_rule rule dto) (rule ∷ other ∷ rules))))
unfolding update_rule find_rule_by_id merge_rule time_changed save_rule recheck validate_rule_hours
update_rule_reactivates id dto rule other rules on t w key hours ne ws dow act a b =
    (ground arith, λ bad. ground (arith, bad))
