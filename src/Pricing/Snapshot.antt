-- ===== src/Pricing/Snapshot.antt =====
-- What `calculatePrice` of backend/src/pricing/pricing-engine.service.ts returns and throws.
use hub_assist.Common.{ℕ, ◌≤◌, ◌<◌, ◌≡◌, refl, List, [], ◌∷◌, ok, arith}
use Prim.Native.String.{String}
use hub_assist.Numbers.{Numbers}
use hub_assist.Pricing.Rules.{PriceRule}
use hub_assist.Pricing.Engine.{
  Slice, slices, RateSegment, RateSnapshot, rate_of, to_segment, hours_between, sum_costs,
  tier_discount_of, map_segments, build_segments, calculate_price, price_snapshot,
  find_matching_rule, next_hour,
}
use hub_assist.Pricing.Slices.{Tiles, slices-Tiles}

module _ (N : Numbers) where
  -- A segment from `a`, not empty, within one clock hour and before `b`.
  pub record FitsSegment (a b : ℕ) (s : RateSegment N) : Type 0 where
    pub starts : s.start_time ≡ a
    pub not_empty : a < s.end_time
    pub in_hour : s.end_time ≤ next_hour a
    pub in_range : s.end_time ≤ b

  -- At every moment the rate is that of the rule that applies then, or the fallback if none does.
  abbrev pub IsPriced : List PriceRule → ℕ → RateSegment N → Type 0
  IsPriced rules fallback s =
      (t : ℕ)
      → s.start_time ≤ t
      → t < s.end_time
      → s.rate_per_hour ≡ rate_of N fallback (find_matching_rule rules t)

  -- The cost is that of the segment's own length at the rate that it shows.
  abbrev pub IsCharged : RateSegment N → Type 0
  IsCharged s =
      s.segment_cost
      ≡ N.to_fixed_6 (N.mul (hours_between N s.start_time s.end_time) s.rate_per_hour)

  -- Consecutive priced and charged segments from `a` to `b`.
  abbrev pub Covers : List PriceRule → ℕ → ℕ → ℕ → List (RateSegment N) → Type 0
  Covers rules fallback a b [] = a ≡ b
  Covers rules fallback a b (s ∷ ss) =
      FitsSegment a b s
      × IsPriced rules fallback s
      × IsCharged s
      × Covers rules fallback s.end_time b ss

  -- The costs in the order of the segments, added to what is there.
  abbrev pub added_costs : N.Num → List (RateSegment N) → N.Num
  added_costs sum [] = sum
  added_costs sum (s ∷ ss) = added_costs (N.add sum s.segment_cost) ss

  -- The total is that of the segments' costs, less the discount of the tier.
  abbrev pub IsTotal : String → RateSnapshot N → Type 0
  IsTotal tier snapshot =
      (snapshot.tier_discount ≡ tier_discount_of N tier)
      × (snapshot.total_amount
          ≡ N.to_cents (
              N.mul (added_costs (N.number 0) snapshot.segments)
                (N.sub (N.number 1) snapshot.tier_discount)))

  added_costs-sum_costs :
      (sum : N.Num) (ss : List (RateSegment N)) → sum_costs N sum ss ≡ added_costs sum ss
  unfolding sum_costs
  added_costs-sum_costs sum [] = refl
  added_costs-sum_costs sum (s ∷ ss) = added_costs-sum_costs (N.add sum s.segment_cost) ss

  map_segments-Covers :
      (rules : List PriceRule) (fallback a b : ℕ) (ss : List Slice)
      → Tiles rules a b ss
      → Covers rules fallback a b (map_segments N fallback ss)
  unfolding map_segments to_segment
  map_segments-Covers rules fallback a b [] h = h
  map_segments-Covers rules fallback a b (s ∷ ss) h = (
    record {
      starts = h.0.starts;
      not_empty = h.0.not_empty;
      in_hour = h.0.in_hour;
      in_range = h.0.in_range;
    },
    (λ t p q. rw (h.0.priced t p q)),
    refl,
    map_segments-Covers rules fallback s.end_time b ss h.1,
  )

  pub calculate_price-Covers :
      (start_time end_time : ℕ) (tier : String) (fallback : ℕ) (rules : List PriceRule)
      → start_time < end_time
      → (calculate_price N start_time end_time tier fallback rules
          ≡ ok (price_snapshot N start_time end_time tier fallback rules))
        × Covers rules fallback start_time end_time
            (price_snapshot N start_time end_time tier fallback rules).segments
        × IsTotal tier (price_snapshot N start_time end_time tier fallback rules)
  unfolding calculate_price build_segments price_snapshot tier_discount_of sum_costs
  calculate_price-Covers a b tier fallback rules h = (
    ground arith,
    map_segments-Covers rules fallback a b (slices a b rules)
        (slices-Tiles a b rules (omega arith)),
    (
      refl,
      rw (added_costs-sum_costs (N.number 0) (map_segments N fallback (slices a b rules))) refl,
    ),
  )

  pub calculate_price_ok :
      (a b : ℕ) (tier : String) (fallback : ℕ) (rules : List PriceRule)
      → a < b
      → calculate_price N a b tier fallback rules ≡ ok (price_snapshot N a b tier fallback rules)
  calculate_price_ok a b tier fallback rules h =
      (calculate_price-Covers a b tier fallback rules h).0
