-- ===== src/Pricing/RuleRun.antt =====
-- Any sequence of the calls of backend/src/pricing/pricing-engine.service.ts that change the rules.
use hub_assist.Common.{
  ℕ, ◌≡◌, ◌≢◌, ◌⊎◌, true, false, Bool, not, some, List, [], ◌∷◌, ok, ◌==◌, if◌then◌else◌, filter,
  find?, All, All-filter, ok-injective, >>=-eq-ok,
}
use mathlib.Core.Path.{subst}
use hub_assist.Pricing.Rules.{
  PriceRule, CreatePriceRuleDto, UpdatePriceRuleDto, create_rule, update_rule, delete_rule,
  find_rule_by_id, time_changed,
}
use hub_assist.Pricing.RuleLaws.{Apart, NoOverlap, HasHours, IsConsistent}
use hub_assist.Pricing.RuleOps.{KeepsPlace, create_rule-IsConsistent, update_rule-IsConsistent}

-- The tables that calls which return reach from the empty one: a new rule has a new id, and an update that
-- sets no time leaves the rule's workspace alone and does not switch an inactive rule on.
pub data RuleRun : List PriceRule → Type 0 where
  start : RuleRun []
  creates :
      (id : ℕ) (dto : CreatePriceRuleDto) (rules rules' : List PriceRule) (rule : PriceRule)
      → RuleRun rules
      → All (λ r. r.id ≢ id) rules
      → create_rule id dto rules ≡ ok (rules', rule)
      → RuleRun rules'
  updates :
      (id : ℕ) (dto : UpdatePriceRuleDto) (rules rules' : List PriceRule) (rule rule' : PriceRule)
      → RuleRun rules
      → find? (λ r. r.id == id) rules ≡ some rule
      → (time_changed dto ≡ true) ⊎ KeepsPlace rule dto
      → update_rule id dto rules ≡ ok (rules', rule')
      → RuleRun rules'
  deletes :
      (id : ℕ) (rules rules' : List PriceRule)
      → RuleRun rules
      → delete_rule id rules ≡ ok rules'
      → RuleRun rules'

NoOverlap-filter :
    (p : PriceRule → Bool) (rules : List PriceRule) → NoOverlap rules → NoOverlap (filter p rules)
NoOverlap-filter p [] h = tt
NoOverlap-filter p (r ∷ rs) h = keep (p r) (NoOverlap-filter p rs h.1)
  where
    keep :
        (b : Bool)
        → NoOverlap (filter p rs)
        → NoOverlap (if b then r ∷ filter p rs else filter p rs)
    keep true rest = (All-filter (Apart r) p rs h.0, rest)
    keep false rest = rest

delete_rule-IsConsistent :
    (id : ℕ) (rules rules' : List PriceRule)
    → IsConsistent rules
    → delete_rule id rules ≡ ok rules'
    → IsConsistent rules'
unfolding delete_rule
delete_rule-IsConsistent id rules rules' h e =
    let (rule, found, e1) = >>=-eq-ok (find_rule_by_id id rules) _ e in
    subst IsConsistent (ok-injective e1) (
      All-filter HasHours (λ r. not (r.id == rule.id)) rules h.0,
      NoOverlap-filter (λ r. not (r.id == rule.id)) rules h.1,
    )

-- In every table that calls of the service reach from the empty one, where each new rule has an id that no
-- row has, and each update either sets a time or leaves the rule's workspace alone and does not switch an
-- inactive rule on: every rule's hours are in order, and no two active rules of a workspace and day
-- overlap. An update of any other kind is not among the calls; the service makes no check for it.
pub RuleRun-IsConsistent : (rules : List PriceRule) → RuleRun rules → IsConsistent rules
RuleRun-IsConsistent rules start = (tt, tt)
RuleRun-IsConsistent rules (creates id dto before after rule r fresh e) =
    (create_rule-IsConsistent id dto before (RuleRun-IsConsistent before r) fresh e).0
RuleRun-IsConsistent rules (updates id dto before after rule rule' r found k e) =
    (update_rule-IsConsistent id dto before rule (RuleRun-IsConsistent before r) found k e).0
RuleRun-IsConsistent rules (deletes id before after r e) =
    delete_rule-IsConsistent id before after (RuleRun-IsConsistent before r) e
