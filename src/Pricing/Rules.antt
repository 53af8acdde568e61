-- ===== src/Pricing/Rules.antt =====
-- backend/src/pricing/price-rule.entity.ts and the rule operations of
-- backend/src/pricing/pricing-engine.service.ts. The table is the list of its rows; ids and
-- workspace ids are only compared, so they are numbers; a rate is kept in cents.
use Prim.Native.String.{String}
use hub_assist.Common.{
  ℕ, Bool, true, false, not, ◌&&◌, ◌||◌, Option, none, some, get_or, List, [], ◌∷◌, ◌++◌, Result,
  ok, ◌>>=◌, ◌>>◌, throw_if, or_throw, ltb, leb, ◌==◌, if◌then◌else◌, find?, filter, update_where,
}

pub record PriceRule : Type 0 where
  pub id : ℕ
  pub workspace_id : ℕ
  pub day_of_week : ℕ
  pub start_hour : ℕ
  pub end_hour : ℕ
  pub rate_per_hour : ℕ
  pub label : Option String
  pub is_active : Bool

-- `CreatePriceRuleDto`, and `UpdatePriceRuleDto` with every field optional.
pub record CreatePriceRuleDto : Type 0 where
  pub workspace_id : ℕ
  pub day_of_week : ℕ
  pub start_hour : ℕ
  pub end_hour : ℕ
  pub rate_per_hour : ℕ
  pub label : Option String
  pub is_active : Option Bool

pub record UpdatePriceRuleDto : Type 0 where
  pub workspace_id : Option ℕ
  pub day_of_week : Option ℕ
  pub start_hour : Option ℕ
  pub end_hour : Option ℕ
  pub rate_per_hour : Option ℕ
  pub label : Option String
  pub is_active : Option Bool

pub data RuleError : Type 0 where
  start_not_before_end rule_overlaps rule_not_found : RuleError

abbrev pub Rules : Type 0 → Type 0
Rules A = Result RuleError A

-- `validateRuleHours`.
unfoldable pub validate_rule_hours : ℕ → ℕ → Rules (Unit {0})
validate_rule_hours start_hour end_hour = throw_if (leb end_hour start_hour) start_not_before_end

abbrev pub present {ℓ} : {A : Type ℓ} → Option A → Bool
present none = false
present (some a) = true

-- The test of `existing.find` in `assertNoOverlap`; `excludeId` may be absent.
abbrev is_excluded : Option ℕ → ℕ → Bool
is_excluded none id = false
is_excluded (some excluded) id = id == excluded

unfoldable pub overlaps : ℕ → ℕ → Option ℕ → PriceRule → Bool
overlaps start_hour end_hour exclude_id r =
    if is_excluded exclude_id r.id
    then false
    else ltb r.start_hour end_hour && ltb start_hour r.end_hour

-- The `where` of the query in `assertNoOverlap`.
unfoldable pub is_active_on : ℕ → ℕ → PriceRule → Bool
is_active_on workspace_id day_of_week r =
    r.workspace_id == workspace_id && (r.day_of_week == day_of_week && r.is_active)

unfoldable pub assert_no_overlap : List PriceRule → ℕ → ℕ → ℕ → ℕ → Option ℕ → Rules (Unit {0})
unfolding overlaps is_active_on
assert_no_overlap rules workspace_id day_of_week start_hour end_hour exclude_id =
    let existing = filter (is_active_on workspace_id day_of_week) rules in
    throw_if (present (find? (overlaps start_hour end_hour exclude_id) existing)) rule_overlaps

-- The row that `createRule` builds; `id` is the key that the database gives to it.
unfoldable pub new_rule : ℕ → CreatePriceRuleDto → PriceRule
new_rule id dto = record {
  id = id;
  workspace_id = dto.workspace_id;
  day_of_week = dto.day_of_week;
  start_hour = dto.start_hour;
  end_hour = dto.end_hour;
  rate_per_hour = dto.rate_per_hour;
  label = dto.label;
  is_active = get_or dto.is_active true;
}

-- `createRule`.
unfoldable pub create_rule :
    ℕ → CreatePriceRuleDto → List PriceRule → Rules (List PriceRule × PriceRule)
create_rule id dto rules = do
  validate_rule_hours dto.start_hour dto.end_hour
  assert_no_overlap rules dto.workspace_id dto.day_of_week dto.start_hour dto.end_hour none
  ok (rules ++ new_rule id dto ∷ [], new_rule id dto)

abbrev pub or_else {ℓ} : {A : Type ℓ} → Option A → Option A → Option A
or_else none b = b
or_else (some a) b = some a

-- `{ ...rule, ...dto }`, and `Object.assign(rule, dto)`.
unfoldable pub merge_rule : PriceRule → UpdatePriceRuleDto → PriceRule
merge_rule rule dto = record {
  id = rule.id;
  workspace_id = get_or dto.workspace_id rule.workspace_id;
  day_of_week = get_or dto.day_of_week rule.day_of_week;
  start_hour = get_or dto.start_hour rule.start_hour;
  end_hour = get_or dto.end_hour rule.end_hour;
  rate_per_hour = get_or dto.rate_per_hour rule.rate_per_hour;
  label = or_else dto.label rule.label;
  is_active = get_or dto.is_active rule.is_active;
}

unfoldable pub find_rule_by_id : ℕ → List PriceRule → Rules PriceRule
find_rule_by_id id rules = or_throw (find? (λ r. r.id == id) rules) rule_not_found

unfoldable pub time_changed : UpdatePriceRuleDto → Bool
time_changed dto = present dto.day_of_week || (present dto.start_hour || present dto.end_hour)

-- `save` of a row that is there already.
unfoldable pub save_rule : PriceRule → List PriceRule → List PriceRule
save_rule rule rules = update_where (λ r. r.id == rule.id) (λ _. rule) rules

-- The overlap check of `updateRule`, made only if a time field changes.
unfoldable pub recheck : ℕ → UpdatePriceRuleDto → PriceRule → List PriceRule → Rules (Unit {0})
unfolding time_changed
recheck id dto merged rules =
    if time_changed dto
    then assert_no_overlap rules merged.workspace_id merged.day_of_week merged.start_hour
        merged.end_hour (some id)
    else ok tt

unfoldable pub update_rule :
    ℕ → UpdatePriceRuleDto → List PriceRule → Rules (List PriceRule × PriceRule)
update_rule id dto rules = do
  rule ← find_rule_by_id id rules
  let merged = merge_rule rule dto
  validate_rule_hours merged.start_hour merged.end_hour
  recheck id dto merged rules
  ok (save_rule merged rules, merged)

unfoldable pub delete_rule : ℕ → List PriceRule → Rules (List PriceRule)
unfolding find_rule_by_id
delete_rule id rules = do
  rule ← find_rule_by_id id rules
  ok (filter (λ r. not (r.id == rule.id)) rules)
