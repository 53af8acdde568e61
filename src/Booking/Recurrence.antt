-- ===== src/Booking/Recurrence.antt =====
-- backend/src/bookings/recurrence.service.ts. The expansion of an RRULE is the rrule package's: a
-- function that gives the occurrences at which `rule.all` stops, or none where it throws.
use Prim.Native.String.{String, slice, len}
use text.Mathlib.Text.{starts_with}
use hub_assist.Common.{
  ℕ, ◌+◌, ◌≤◌, ◌≡◌, refl, Bool, Option, List, [], ◌∷◌, arith, ok, ltb, ◌==◌, if◌then◌else◌, length,
  or_throw, throw_if, ◌>>=◌, ◌>>◌, All, leb, >>=-eq-ok,
}
use hub_assist.Booking.Model.{Bookings, invalid_rrule, no_occurrences, too_many_instances}

abbrev pub max_recurrence_instances : ℕ
max_recurrence_instances = 52

pub record RecurrenceInstance : Type 0 where
  pub start_time : ℕ
  pub end_time : ℕ

-- `rule.all((_, len) => len <= MAX_RECURRENCE_INSTANCES)` of the rule with that text and start: it
-- goes on while the test holds of the number of occurrences that it has.
pub record RRule : Type 0 where
  pub all : String → ℕ → (ℕ → Bool) → Option (List ℕ)

-- Both `expandInstances` and `validateRule` cut the prefix off.
unfoldable pub rule_text : String → String
rule_text s = if starts_with s "RRULE:" then slice s 6 (len s) else s

abbrev instance_at : ℕ → ℕ → RecurrenceInstance
instance_at duration_ms start_time = record {
  start_time = start_time;
  end_time = start_time + duration_ms;
}

unfoldable pub instances_at : ℕ → List ℕ → List RecurrenceInstance
instances_at duration_ms [] = []
instances_at duration_ms (s ∷ ss) = instance_at duration_ms s ∷ instances_at duration_ms ss

unfoldable pub expand_instances : RRule → String → ℕ → ℕ → Bookings (List RecurrenceInstance)
expand_instances rrule text dtstart duration_ms = do
  occurrences ←
      or_throw (rrule.all (rule_text text) dtstart (λ n. leb n max_recurrence_instances))
        invalid_rrule
  throw_if (length occurrences == 0) no_occurrences
  throw_if (ltb max_recurrence_instances (length occurrences)) too_many_instances
  ok (instances_at duration_ms occurrences)

length-instances_at : (d : ℕ) (ss : List ℕ) → length (instances_at d ss) ≡ length ss
unfolding instances_at
length-instances_at d [] = refl
length-instances_at d (s ∷ ss) = omega (arith, length-instances_at d ss)

abbrev pub HasDuration : ℕ → RecurrenceInstance → Type 0
HasDuration d i = i.end_time ≡ i.start_time + d

instances_at-HasDuration : (d : ℕ) (ss : List ℕ) → All (HasDuration d) (instances_at d ss)
unfolding instances_at
instances_at-HasDuration d [] = tt
instances_at-HasDuration d (s ∷ ss) = (refl, instances_at-HasDuration d ss)

instances_at-checked :
    (d : ℕ) (found : List ℕ) {is : List RecurrenceInstance}
    → (throw_if (length found == 0) no_occurrences
        >> (throw_if (ltb max_recurrence_instances (length found)) too_many_instances
            >> ok (instances_at d found)))
      ≡ ok is
    → (is ≡ instances_at d found) × (1 ≤ length found) × (length found ≤ 52)
instances_at-checked d found e = ground arith

-- An expansion that succeeds has between 1 and 52 instances, each as long as the request, one for
-- each occurrence of the rule.
expand_instances_bounds :
    (rrule : RRule) (text : String) (dtstart duration_ms : ℕ) {is : List RecurrenceInstance}
    → expand_instances rrule text dtstart duration_ms ≡ ok is
    → (1 ≤ length is) × (length is ≤ 52) × All (HasDuration duration_ms) is
unfolding expand_instances
expand_instances_bounds rrule text from d {is} e =
    let (found, all, e1) =
      >>=-eq-ok (or_throw (rrule.all (rule_text text) from _) invalid_rrule) _ e in
    let (same, lo, hi) = instances_at-checked d found e1 in
    rw same (
      omega (arith, length-instances_at d found),
      omega (arith, length-instances_at d found),
      instances_at-HasDuration d found,
    )
