-- ===== src/Pricing/Tests.antt =====
-- The price rules and prices of backend/src/pricing on two rules of a desk.
use hub_assist.Common.{ℕ, ◌*◌, ◌≡◌, refl, inl, true, none, some, [], ◌∷◌, arith, ok}
use hub_assist.Pricing.Rules.{
  PriceRule, CreatePriceRuleDto, UpdatePriceRuleDto, create_rule, new_rule, update_rule, merge_rule,
  save_rule, time_changed, find_rule_by_id, recheck, validate_rule_hours, assert_no_overlap,
}
use hub_assist.Pricing.RuleLaws.{IsConsistent}
use hub_assist.Pricing.RuleRun.{start, creates, updates, RuleRun-IsConsistent}
use hub_assist.Pricing.Engine.{slices}
use hub_assist.Pricing.Slices.{Tiles, slices-Tiles}

-- Thursdays, the day of the start of 1970, from nine to twelve.
abbrev morning : PriceRule
morning = record {
  id = 1;
  workspace_id = 1;
  day_of_week = 4;
  start_hour = 9;
  end_hour = 12;
  rate_per_hour = 1500;
  label = none;
  is_active = true;
}

abbrev afternoon_dto : CreatePriceRuleDto
afternoon_dto = record {
  workspace_id = 1;
  day_of_week = 4;
  start_hour = 12;
  end_hour = 18;
  rate_per_hour = 900;
  label = none;
  is_active = none;
}

abbrev afternoon : PriceRule
afternoon = record {
  id = 2;
  workspace_id = 1;
  day_of_week = 4;
  start_hour = 12;
  end_hour = 18;
  rate_per_hour = 900;
  label = none;
  is_active = true;
}

creates_rule : create_rule 2 afternoon_dto (morning ∷ []) ≡ ok (morning ∷ afternoon ∷ [], afternoon)
unfolding create_rule new_rule validate_rule_hours assert_no_overlap
creates_rule = refl

-- The rule starts at ten.
abbrev later_dto : UpdatePriceRuleDto
later_dto = record {
  workspace_id = none;
  day_of_week = none;
  start_hour = some 10;
  end_hour = none;
  rate_per_hour = none;
  label = none;
  is_active = none;
}

abbrev later_morning : PriceRule
later_morning = record morning { start_hour = 10 }

updates_rule : update_rule 1 later_dto (morning ∷ []) ≡ ok (later_morning ∷ [], later_morning)
unfolding update_rule find_rule_by_id merge_rule time_changed save_rule recheck validate_rule_hours
    assert_no_overlap
updates_rule = refl

abbrev morning_dto : CreatePriceRuleDto
morning_dto = record afternoon_dto { start_hour = 9; end_hour = 12; rate_per_hour = 1500 }

creates_morning : create_rule 1 morning_dto [] ≡ ok (morning ∷ [], morning)
unfolding create_rule new_rule validate_rule_hours assert_no_overlap
creates_morning = refl

timed : time_changed later_dto ≡ true
unfolding time_changed
timed = refl

RuleRun-IsConsistent_example : IsConsistent (later_morning ∷ [])
RuleRun-IsConsistent_example = RuleRun-IsConsistent (later_morning ∷ []) (
    updates 1 later_dto (morning ∷ []) (later_morning ∷ []) morning later_morning
      (creates 1 morning_dto [] (morning ∷ []) morning start tt creates_morning) refl (inl timed)
      updates_rule)

abbrev at_hour : ℕ → ℕ
at_hour n = n * 3600000

slices-Tiles_example :
    Tiles (morning ∷ []) (at_hour 8) (at_hour 13) (slices (at_hour 8) (at_hour 13) (morning ∷ []))
slices-Tiles_example = slices-Tiles (at_hour 8) (at_hour 13) (morning ∷ []) (omega arith)
