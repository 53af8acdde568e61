-- ===== src/Pricing/Engine.antt =====
-- `calculatePrice` of backend/src/pricing/pricing-engine.service.ts. A moment is its number of
-- milliseconds since 1970 in UTC, where an hour and a day have no leap seconds; 1970-01-01 was a
-- Thursday. The walk in `buildSegments` takes one round for each clock hour that it enters, which
-- is the fuel.
use Prim.Native.String.{String}
use text.Mathlib.Text.{◌==◌ as str_eq}
use hub_assist.Common.{
  ℕ, zero, suc, ◌+◌, ◌-◌, ◌*◌, ◌/◌, ◌%◌, Bool, ◌&&◌, Option, none, some, get_or, List, [], ◌∷◌,
  Result, ok, ◌>>◌, throw_if, ltb, leb, ◌==◌, if◌then◌else◌, find?,
}
use hub_assist.Numbers.{Numbers}
use hub_assist.Pricing.Rules.{PriceRule}

abbrev pub hour_ms : ℕ
hour_ms = 3600000

-- `getUTCHours` and `getUTCDay`.
abbrev pub utc_hours : ℕ → ℕ
utc_hours t = t / 3600000 % 24

abbrev pub utc_day : ℕ → ℕ
utc_day t = (t / 86400000 + 4) % 7

-- `setUTCMinutes(0, 0, 0)` and `setUTCHours(getUTCHours() + 1)`.
abbrev pub next_hour : ℕ → ℕ
next_hour t = (t / 3600000 + 1) * 3600000

-- The test of `findMatchingRule`.
unfoldable pub rule_matches : ℕ → PriceRule → Bool
rule_matches moment r =
    r.is_active
    && (r.day_of_week == utc_day moment
        && (leb r.start_hour (utc_hours moment) && ltb (utc_hours moment) r.end_hour))

unfoldable pub find_matching_rule : List PriceRule → ℕ → Option PriceRule
find_matching_rule rules moment = find? (rule_matches moment) rules

-- A slice of the walk, with the rule that prices it.
pub record Slice : Type 0 where
  pub start_time : ℕ
  pub end_time : ℕ
  pub rule : Option PriceRule

-- `nextHour < endTime ? nextHour : endTime`.
abbrev pub slice_end : ℕ → ℕ → ℕ
slice_end cursor end_time = if ltb (next_hour cursor) end_time then next_hour cursor else end_time

-- The slice that a round at `cursor` pushes.
abbrev pub slice_at : List PriceRule → ℕ → ℕ → Slice
slice_at rules cursor end_time = record {
  start_time = cursor;
  end_time = slice_end cursor end_time;
  rule = find_matching_rule rules cursor;
}

-- The loop of `buildSegments`.
unfoldable pub slices_from : ℕ → ℕ → ℕ → List PriceRule → List Slice
slices_from zero cursor end_time rules = []
slices_from (suc fuel) cursor end_time rules =
    let rest = slices_from fuel (slice_end cursor end_time) end_time rules in
    if ltb cursor end_time then slice_at rules cursor end_time ∷ rest else []

abbrev pub hours_entered : ℕ → ℕ → ℕ
hours_entered start_time end_time = end_time / 3600000 + 1 - start_time / 3600000

unfoldable pub slices : ℕ → ℕ → List PriceRule → List Slice
unfolding slices_from find_matching_rule rule_matches
slices start_time end_time rules =
    slices_from (hours_entered start_time end_time) start_time end_time rules

pub data PriceError : Type 0 where
  end_not_after_start : PriceError

module _ (N : Numbers) where
  open N use {Num, number, decimal, of_cents, add, sub, mul, div, to_fixed_6, to_cents}

  -- `rule` is none for the id "fallback".
  pub record RateSegment : Type 0 where
    pub rule_id : Option ℕ
    pub label : String
    pub start_time : ℕ
    pub end_time : ℕ
    pub hours : Num
    pub rate_per_hour : Num
    pub segment_cost : Num

  pub record RateSnapshot : Type 0 where
    pub segments : List RateSegment
    pub total_amount : ℕ
    pub user_tier : String
    pub tier_discount : Num

  abbrev pub hours_between : ℕ → ℕ → Num
  hours_between a b = div (number (b - a)) (number hour_ms)

  -- `rule ? Number(rule.ratePerHour) : fallbackRate`.
  unfoldable pub rate_of : ℕ → Option PriceRule → Num
  rate_of fallback none = of_cents fallback
  rate_of fallback (some r) = of_cents r.rate_per_hour

  abbrev label_of : Option PriceRule → String
  label_of none = "Standard Rate"
  label_of (some r) = get_or r.label "Standard Rate"

  abbrev id_of : Option PriceRule → Option ℕ
  id_of none = none
  id_of (some r) = some r.id

  unfoldable pub to_segment : ℕ → Slice → RateSegment
  unfolding rate_of
  to_segment fallback s = record {
    rule_id = id_of s.rule;
    label = label_of s.rule;
    start_time = s.start_time;
    end_time = s.end_time;
    hours = to_fixed_6 (hours_between s.start_time s.end_time);
    rate_per_hour = rate_of fallback s.rule;
    segment_cost =
        to_fixed_6 (mul (hours_between s.start_time s.end_time) (rate_of fallback s.rule));
  }

  unfoldable pub map_segments : ℕ → List Slice → List RateSegment
  unfolding to_segment
  map_segments fallback [] = []
  map_segments fallback (s ∷ ss) = to_segment fallback s ∷ map_segments fallback ss

  unfoldable pub build_segments : ℕ → ℕ → List PriceRule → ℕ → List RateSegment
  unfolding slices map_segments
  build_segments start_time end_time rules fallback =
      map_segments fallback (slices start_time end_time rules)

  -- `segments.reduce((sum, s) => sum + s.segmentCost, 0)`.
  unfoldable pub sum_costs : Num → List RateSegment → Num
  sum_costs acc [] = acc
  sum_costs acc (s ∷ ss) = sum_costs (add acc s.segment_cost) ss

  -- `TIER_DISCOUNTS[userTier] ?? 0`.
  unfoldable pub tier_discount_of : String → Num
  tier_discount_of tier =
      if str_eq tier "staff"
      then decimal 15 2
      else if str_eq tier "member"
      then decimal 1 1
      else number 0

  -- The value that `calculatePrice` returns; `calculatedAt` is left out.
  unfoldable pub price_snapshot : ℕ → ℕ → String → ℕ → List PriceRule → RateSnapshot
  unfolding build_segments sum_costs tier_discount_of
  price_snapshot start_time end_time user_tier fallback rules =
      let segments = build_segments start_time end_time rules fallback in
      let gross = sum_costs (number 0) segments in
      record {
        segments = segments;
        total_amount = to_cents (mul gross (sub (number 1) (tier_discount_of user_tier)));
        user_tier = user_tier;
        tier_discount = tier_discount_of user_tier;
      }

  unfoldable pub calculate_price :
      ℕ → ℕ → String → ℕ → List PriceRule → Result PriceError RateSnapshot
  unfolding price_snapshot
  calculate_price start_time end_time user_tier fallback rules =
      throw_if (leb end_time start_time) end_not_after_start
      >> ok (price_snapshot start_time end_time user_tier fallback rules)
