-- ===== src/Frontend/WizardPages.antt =====
-- The four pages of frontend/src/app/dashboard/bookings/new, their components in
-- frontend/src/components/bookings/wizard, and what is asked of the server. A page that opens runs its
-- effect and follows its redirect at once; the answer to a booking comes before the next event.
use hub_assist.Common.{ℕ, Bool, not, Option, none, some, [], ◌∷◌, leb, if◌then◌else◌, Text}
use hub_assist.Frontend.Wizard.{
  TimeSlot, BookingWizardState, initial_state, is_text, set_workspace_id, set_time_slot,
  set_payment_details, prev_step, go_to_step, complete_booking, can_advance, next_step,
}

pub data Page : Type 0 where
  select_workspace choose_time review confirmation : Page

abbrev pub number : Page → ℕ
number select_workspace = 1
number choose_time = 2
number review = 3
number confirmation = 4

pub record WizardView : Type 0 where
  pub page : Page
  pub store : BookingWizardState

-- What `createBooking` is called with.
pub record BookingRequest : Type 0 where
  pub workspace_id : Text
  pub time_slot : TimeSlot

-- What a person does: enter the address of a page, click its buttons, or type. A workspace's id is not
-- empty; a confirmation carries the id of the booking that the server answers, none where it fails.
pub data WizardEvent : Type 0 where
  enters : Page → WizardEvent
  selects : ℕ → Text → WizardEvent
  types : Text → Text → WizardEvent
  checks : Bool → WizardEvent
  advances goes_back books_another : WizardEvent
  confirms : Option (ℕ × Text) → WizardEvent
  clicks_step : Page → WizardEvent

-- `useBookingWizardStore.setState({ currentStep })`, on the page that is shown.
abbrev pub shown : Page → BookingWizardState → WizardView
shown page s = record { page = page; store = record s { current_step = number page } }

-- The request of `handleConfirm`, which the button allows only with the box checked.
abbrev pub request_of : Option Text → Option TimeSlot → Option BookingRequest
request_of (some (c ∷ cs)) (some slot) = some (record { workspace_id = c ∷ cs; time_slot = slot })
request_of (some []) slot = none
request_of (some (c ∷ cs)) none = none
request_of none slot = none

unfoldable pub handle_confirm : BookingWizardState → Option BookingRequest
handle_confirm s =
    let request = request_of s.workspace_id s.time_slot in if s.confirmed then request else none

module _ (new_date : Text → Option ℕ) where
  unfoldable pub open_page : Page → BookingWizardState → WizardView
  open_page select_workspace s = shown select_workspace s
  open_page choose_time s =
      if can_advance new_date 1 s then shown choose_time s else shown select_workspace s
  open_page review s =
      if not (can_advance new_date 1 s)
      then shown select_workspace s
      else if can_advance new_date 2 s
      then shown review s
      else shown choose_time s
  open_page confirmation s =
      if is_text s.last_booking_id then shown confirmation s else shown select_workspace s

  abbrev pub after_confirm :
      BookingWizardState → Option BookingRequest → Option (ℕ × Text) → WizardView
  after_confirm s none answer = record { page = review; store = s }
  after_confirm s (some request) none = record { page = review; store = s }
  after_confirm s (some request) (some (c, cs)) =
      open_page confirmation (complete_booking (c ∷ cs) s)

  -- The buttons and fields of each page; the others are not there.
  unfoldable pub on_page : Page → WizardEvent → BookingWizardState → WizardView
  unfolding open_page handle_confirm
  on_page page (enters other) s = open_page other s
  on_page page (clicks_step other) s =
      if leb s.current_step (number other)
      then record { page = page; store = s }
      else open_page other (go_to_step (number other) s)
  on_page select_workspace (selects c cs) s = record {
    page = select_workspace;
    store = set_workspace_id (c ∷ cs) s;
  }
  on_page select_workspace advances s =
      if can_advance new_date 1 s
      then open_page choose_time (next_step new_date s).1
      else record { page = select_workspace; store = s }
  on_page choose_time (types start end) s = record {
    page = choose_time;
    store = set_time_slot (record { start_time = start; end_time = end }) s;
  }
  on_page choose_time advances s =
      if can_advance new_date 2 s
      then open_page review (next_step new_date s).1
      else record { page = choose_time; store = s }
  on_page choose_time goes_back s = open_page select_workspace (prev_step s)
  on_page review (checks box) s = record { page = review; store = set_payment_details (some box) s }
  on_page review goes_back s = open_page choose_time (prev_step s)
  on_page review (confirms answer) s = after_confirm s (handle_confirm s) answer
  on_page confirmation books_another s = open_page select_workspace initial_state
  on_page page event s = record { page = page; store = s }

  abbrev pub after_event : WizardEvent → WizardView → WizardView
  after_event event view = on_page view.page event view.store

-- What an event asks of the server.
abbrev pub asked_on : Page → WizardEvent → BookingWizardState → Option BookingRequest
asked_on review (confirms answer) s = handle_confirm s
asked_on page event s = none
