-- ===== src/Frontend/Wizard.antt =====
-- The state of frontend/src/lib/store/bookingWizardStore.ts and its actions. A step is 1 to 4; ids are
-- numbers, other than the empty string, or none; a text of a time is the list of its UTF-16 code units. The
-- section's parameter is `new Date(text)`, none where it gives no valid date. What `persist` writes to the
-- session storage is the state as it is.
use hub_assist.Common.{
  ℕ, ◌+◌, ◌-◌, Bool, true, false, not, ◌&&◌, Option, none, some, [], ◌∷◌, leb, ltb, ◌==◌,
  if◌then◌else◌, Text, get_or,
}

pub record TimeSlot : Type 0 where
  pub start_time : Text
  pub end_time : Text

pub record BookingWizardState : Type 0 where
  pub current_step : ℕ
  pub workspace_id : Option Text
  pub time_slot : Option TimeSlot
  pub confirmed : Bool
  pub last_booking_id : Option Text

abbrev pub initial_state : BookingWizardState
initial_state = record {
  current_step = 1;
  workspace_id = none;
  time_slot = none;
  confirmed = false;
  last_booking_id = none;
}

-- `!!text`.
abbrev pub is_text : Option Text → Bool
is_text none = false
is_text (some []) = false
is_text (some (c ∷ cs)) = true

-- `later > earlier` of two dates, which is false of one that is not valid.
abbrev pub is_later : Option ℕ → Option ℕ → Bool
is_later (some later) (some earlier) = ltb earlier later
is_later none earlier = false
is_later (some later) none = false

abbrev pub set_workspace_id : Text → BookingWizardState → BookingWizardState
set_workspace_id id s = record s { workspace_id = some id }

abbrev pub set_time_slot : TimeSlot → BookingWizardState → BookingWizardState
set_time_slot slot s = record s { time_slot = some slot }

-- The details are partial: none where `confirmed` is left out.
abbrev pub set_payment_details : Option Bool → BookingWizardState → BookingWizardState
set_payment_details details s = record s { confirmed = get_or details s.confirmed }

unfoldable pub prev_step : BookingWizardState → BookingWizardState
prev_step s = if leb s.current_step 1 then s else record s { current_step = s.current_step - 1 }

unfoldable pub go_to_step : ℕ → BookingWizardState → BookingWizardState
go_to_step step s = if leb s.current_step step then s else record s { current_step = step }

abbrev pub complete_booking : Text → BookingWizardState → BookingWizardState
complete_booking id s = record s { last_booking_id = some id; current_step = 4 }

module _ (new_date : Text → Option ℕ) where
  abbrev pub is_valid_time_range : Option TimeSlot → Bool
  is_valid_time_range none = false
  is_valid_time_range (some slot) =
      is_text (some slot.start_time)
      && is_text (some slot.end_time)
      && is_later (new_date slot.end_time) (new_date slot.start_time)

  unfoldable pub can_advance : ℕ → BookingWizardState → Bool
  can_advance step s =
      if step == 1
      then is_text s.workspace_id
      else if step == 2
      then is_valid_time_range s.time_slot
      else if step == 3
      then s.confirmed
      else false

  unfoldable pub next_step : BookingWizardState → Bool × BookingWizardState
  unfolding can_advance
  next_step s =
      if not (can_advance s.current_step s)
      then (false, s)
      else if leb 4 s.current_step
      then (false, s)
      else (true, record s { current_step = s.current_step + 1 })
