-- ===== src/Frontend/WizardTests.antt =====
-- A booking that is made through the pages of frontend/src/app/dashboard/bookings/new.
use hub_assist.Common.{ℕ, ◌≡◌, refl, true, some, none, Option, [], ◌∷◌, Text}
use hub_assist.Frontend.Wizard.{initial_state, next_step, can_advance}
use hub_assist.Frontend.WizardPages.{
  review, confirmation, selects, types, checks, advances, confirms, WizardView, BookingRequest,
  open_page, on_page, after_event, asked_on, handle_confirm,
}
use hub_assist.Frontend.WizardLaws.{WizardRun, then_event, IsBookable, WizardRun-IsBookable, start}

-- A time of one digit is its hour.
abbrev new_date : Text → Option ℕ
new_date [] = none
new_date (c ∷ cs) = some c

abbrev entered : WizardView
entered = open_page new_date review initial_state

abbrev selected : WizardView
selected = after_event new_date (selects 119 []) entered

abbrev at_times : WizardView
at_times = after_event new_date advances selected

abbrev typed : WizardView
typed = after_event new_date (types (49 ∷ []) (50 ∷ [])) at_times

abbrev at_review : WizardView
at_review = after_event new_date advances typed

abbrev agreed : WizardView
agreed = after_event new_date (checks true) at_review

abbrev wanted : BookingRequest
wanted = record {
  workspace_id = 119 ∷ [];
  time_slot = record { start_time = 49 ∷ []; end_time = 50 ∷ [] };
}

agreed_run : WizardRun new_date agreed
agreed_run = then_event (checks true) at_review (
    then_event advances typed (
      then_event (types (49 ∷ []) (50 ∷ [])) at_times (
        then_event advances selected
          (then_event (selects 119 []) entered (start review initial_state)))))

agreed_asks : asked_on agreed.page (confirms none) agreed.store ≡ some wanted
unfolding open_page on_page handle_confirm next_step can_advance
agreed_asks = refl

booked_page : (after_event new_date (confirms (some (98, []))) agreed).page ≡ confirmation
unfolding open_page on_page handle_confirm next_step can_advance
booked_page = refl

WizardRun-IsBookable_example : (agreed.store.confirmed ≡ true) × IsBookable new_date wanted
WizardRun-IsBookable_example =
    WizardRun-IsBookable new_date agreed (confirms none) wanted agreed_run agreed_asks
