-- ===== src/Booking/Refund.antt =====
-- backend/src/bookings/cancellation-policy.service.ts: the refund of a cancelled booking, and the
-- table of policies. The thresholds are `int` columns, so `hoursBeforeStart >= h` is a comparison of
-- whole milliseconds. The text of the reason is left out.
use hub_assist.Common.{
  ℕ, ◌+◌, ◌*◌, ◌≤◌, ◌<◌, ◌^◌, Bool, ◌&&◌, Option, none, some, List, arith, leb, ltb, if◌then◌else◌,
  find?,
}
use hub_assist.Numbers.{Numbers, Rounding}
use hub_assist.Booking.Model.{
  WorkspaceType, hot_desk, dedicated_desk, private_office, meeting_room, virtual, hybrid,
  CancellationPolicy, Booking,
}

pub record RefundEvaluation : Type 0 where
  pub refund_amount : ℕ
  pub refund_percent : ℕ

-- The three numbers of a policy that `evaluateRefund` reads, and `DEFAULT_POLICY`.
pub record Brackets : Type 0 where
  pub full_refund_hours_before : ℕ
  pub partial_refund_percent : ℕ
  pub partial_refund_hours_before : ℕ

abbrev pub default_policy : Brackets
default_policy = record {
  full_refund_hours_before = 24;
  partial_refund_percent = 0;
  partial_refund_hours_before = 0;
}

abbrev pub brackets_of : CancellationPolicy → Brackets
brackets_of p = record {
  full_refund_hours_before = p.full_refund_hours_before;
  partial_refund_percent = p.partial_refund_percent;
  partial_refund_hours_before = p.partial_refund_hours_before;
}

-- Equality of workspace types, by their places in the declaration.
abbrev rank : WorkspaceType → ℕ
rank hot_desk = 0
rank dedicated_desk = 1
rank private_office = 2
rank meeting_room = 3
rank virtual = 4
rank hybrid = 5

abbrev pub same_type : WorkspaceType → WorkspaceType → Bool
same_type a b = leb (rank a) (rank b) && leb (rank b) (rank a)

unfoldable pub find_policy : List CancellationPolicy → WorkspaceType → Option CancellationPolicy
find_policy policies kind = find? (λ p. same_type p.workspace_type kind) policies

-- `policy ?? DEFAULT_POLICY`; the booking's workspace may not be loaded.
abbrev or_default : Option CancellationPolicy → Brackets
or_default none = default_policy
or_default (some p) = brackets_of p

unfoldable pub effective_policy : List CancellationPolicy → Option WorkspaceType → Brackets
unfolding find_policy
effective_policy policies none = default_policy
effective_policy policies (some kind) = or_default (find_policy policies kind)

-- `hoursBeforeStart >= hours`.
abbrev pub hours_ahead : ℕ → ℕ → ℕ → Bool
hours_ahead start_time cancelled_at hours = leb (cancelled_at + hours * 3600000) start_time

module _ (N : Numbers) where
  -- `Number(((totalAmount * percent) / 100).toFixed(2))`.
  unfoldable pub percent_of : ℕ → ℕ → ℕ
  percent_of total percent =
      N.to_cents (N.div (N.mul (N.of_cents total) (N.number percent)) (N.number 100))

  unfoldable pub refund_for : Brackets → ℕ → ℕ → ℕ → RefundEvaluation
  refund_for policy start_time cancelled_at total =
      if hours_ahead start_time cancelled_at policy.full_refund_hours_before
      then record { refund_amount = total; refund_percent = 100 }
      else if ltb 0 policy.partial_refund_percent
          && hours_ahead start_time cancelled_at policy.partial_refund_hours_before
      then record {
        refund_amount = percent_of total policy.partial_refund_percent;
        refund_percent = policy.partial_refund_percent;
      }
      else record { refund_amount = 0; refund_percent = 0 }

  -- `evaluateRefund`.
  unfoldable pub evaluate_refund :
      List CancellationPolicy → Option WorkspaceType → Booking → ℕ → RefundEvaluation
  evaluate_refund policies kind booking cancelled_at =
      refund_for (effective_policy policies kind) booking.start_time cancelled_at
        booking.total_amount

  -- A percentage of up to 100 of an amount is no more than the amount.
  percent_of-le :
      (R : Rounding N) (total percent : ℕ)
      → total < 10 ^ 10
      → percent ≤ 100
      → percent_of total percent ≤ total
  unfolding percent_of
  percent_of-le R total percent h p =
      let whole = R.hundredths total h in
      omega (
        arith,
        whole,
        R.to_cents_mono _ _
            (R.div_mono _ _ 100 (omega arith) (R.mul_mono total _ _ (R.number_mono percent 100 p))),
      )

  -- If the percentage of the policy in force is at most 100, the refund is at most the amount that
  -- was charged (a `decimal(10, 2)`), and the reported percentage at most 100.
  evaluate_refund-bounds :
      (R : Rounding N) (policies : List CancellationPolicy) (kind : Option WorkspaceType)
      (booking : Booking) (cancelled_at : ℕ)
      → booking.total_amount < 10 ^ 10
      → (effective_policy policies kind).partial_refund_percent ≤ 100
      → let r = evaluate_refund policies kind booking cancelled_at in
        (r.refund_amount ≤ booking.total_amount) × (r.refund_percent ≤ 100)
  unfolding evaluate_refund refund_for
  evaluate_refund-bounds R policies kind booking at h p = ground (
    arith,
    percent_of-le R booking.total_amount (effective_policy policies kind).partial_refund_percent h
        p,
  )

  -- If the percentage of the policy in force is at most 100, a later cancellation never refunds
  -- more than an earlier one.
  evaluate_refund_mono :
      (R : Rounding N) (policies : List CancellationPolicy) (kind : Option WorkspaceType)
      (booking : Booking) (earlier later : ℕ)
      → booking.total_amount < 10 ^ 10
      → (effective_policy policies kind).partial_refund_percent ≤ 100
      → earlier ≤ later
      → (evaluate_refund policies kind booking later).refund_amount
        ≤ (evaluate_refund policies kind booking earlier).refund_amount
  unfolding evaluate_refund refund_for
  evaluate_refund_mono R policies kind booking earlier later h p le = ground (
    arith,
    percent_of-le R booking.total_amount (effective_policy policies kind).partial_refund_percent h
        p,
  )
