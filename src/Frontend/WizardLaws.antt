-- ===== src/Frontend/WizardLaws.antt =====
-- What the booking wizard of frontend/src/app/dashboard/bookings/new may ask of the server.
use hub_assist.Common.{
  ℕ, ◌<◌, ◌≡◌, refl, Bool, true, false, ◌&&◌, Option, none, some, [], ◌∷◌, leb, if◌then◌else◌, Text,
  Bool-cases, inl, inr, &&-both, ltb→lt,
}
use mathlib.Core.Path.{subst}
use hub_assist.Frontend.Wizard.{
  TimeSlot, BookingWizardState, initial_state, is_text, is_later, is_valid_time_range, prev_step,
  go_to_step, complete_booking, can_advance, next_step,
}
use hub_assist.Frontend.WizardPages.{
  Page, select_workspace, choose_time, review, confirmation, number, WizardView, BookingRequest,
  WizardEvent, enters, selects, types, checks, advances, goes_back, books_another, confirms,
  clicks_step, request_of, handle_confirm, open_page, after_confirm, on_page, after_event, asked_on,
}

module _ (new_date : Text → Option ℕ) where
  -- What has been chosen where a page is shown.
  abbrev Chosen : Page → BookingWizardState → Type 0
  Chosen select_workspace s = Unit
  Chosen choose_time s = can_advance new_date 1 s ≡ true
  Chosen review s = (can_advance new_date 1 s ≡ true) × (can_advance new_date 2 s ≡ true)
  Chosen confirmation s = is_text s.last_booking_id ≡ true

  abbrev pub IsShown : WizardView → Type 0
  IsShown view = (view.store.current_step ≡ number view.page) × Chosen view.page view.store

  open_page-IsShown : (page : Page) (s : BookingWizardState) → IsShown (open_page new_date page s)
  unfolding open_page can_advance
  open_page-IsShown select_workspace s = (refl, tt)
  open_page-IsShown choose_time s = elim (Bool-cases (can_advance new_date 1 s)) [
    | inl e ↦ rw e (refl, e)
    | inr e ↦ rw e (refl, tt)
  ]
  open_page-IsShown review s = elim (Bool-cases (can_advance new_date 1 s)) [
    | inl e ↦ elim (Bool-cases (can_advance new_date 2 s)) [
      | inl f ↦ rw (e, f) (refl, (e, f))
      | inr f ↦ rw (e, f) (refl, e)
    ]
    | inr e ↦ rw e (refl, tt)
  ]
  open_page-IsShown confirmation s = elim (Bool-cases (is_text s.last_booking_id)) [
    | inl e ↦ rw e (refl, e)
    | inr e ↦ rw e (refl, tt)
  ]

  IsShown-if : (b : Bool) (v w : WizardView) → IsShown v → IsShown w → IsShown (if b then v else w)
  IsShown-if true v w h k = h
  IsShown-if false v w h k = k

  after_confirm-IsShown :
      (s : BookingWizardState) (request : Option BookingRequest) (answer : Option (ℕ × Text))
      → IsShown (record { page = review; store = s })
      → IsShown (after_confirm new_date s request answer)
  after_confirm-IsShown s none answer h = h
  after_confirm-IsShown s (some request) none h = h
  after_confirm-IsShown s (some request) (some (c, cs)) h =
      open_page-IsShown confirmation (complete_booking (c ∷ cs) s)

  on_page-IsShown :
      (page : Page) (event : WizardEvent) (s : BookingWizardState)
      → IsShown (record { page = page; store = s })
      → IsShown (on_page new_date page event s)
  unfolding on_page can_advance
  on_page-IsShown page (enters other) s h = open_page-IsShown other s
  on_page-IsShown page (clicks_step other) s h =
      IsShown-if (leb s.current_step (number other)) _ _ h
        (open_page-IsShown other (go_to_step (number other) s))
  on_page-IsShown select_workspace (selects c cs) s h = h
  on_page-IsShown select_workspace advances s h =
      IsShown-if (can_advance new_date 1 s) _ _
        (open_page-IsShown choose_time (next_step new_date s).1) h
  on_page-IsShown choose_time (types start end) s h = h
  on_page-IsShown choose_time advances s h =
      IsShown-if (can_advance new_date 2 s) _ _ (open_page-IsShown review (next_step new_date s).1)
        h
  on_page-IsShown choose_time goes_back s h = open_page-IsShown select_workspace (prev_step s)
  on_page-IsShown review (checks box) s h = h
  on_page-IsShown review goes_back s h = open_page-IsShown choose_time (prev_step s)
  on_page-IsShown review (confirms answer) s h = after_confirm-IsShown s (handle_confirm s) answer h
  on_page-IsShown confirmation books_another s h = open_page-IsShown select_workspace initial_state
  on_page-IsShown page event s h = h

  -- The pages that a person reaches from one that was entered, in any state that the tab had stored.
  pub data WizardRun : WizardView → Type 0 where
    start : (page : Page) (s : BookingWizardState) → WizardRun (open_page new_date page s)
    then_event :
        (event : WizardEvent) (view : WizardView)
        → WizardRun view
        → WizardRun (after_event new_date event view)

  WizardRun-IsShown : (view : WizardView) → WizardRun view → IsShown view
  WizardRun-IsShown view (start page s) = open_page-IsShown page s
  WizardRun-IsShown view (then_event event before r) =
      on_page-IsShown before.page event before.store (WizardRun-IsShown before r)

  -- A request that is fit to be sent.
  pub record IsBookable (request : BookingRequest) : Type 0 where
    pub chosen : is_text (some request.workspace_id) ≡ true
    pub earlier : ℕ
    pub later : ℕ
    pub starts : new_date request.time_slot.start_time ≡ some earlier
    pub ends : new_date request.time_slot.end_time ≡ some later
    pub in_order : earlier < later

  is_later-lt :
      (second first : Option ℕ)
      → is_later second first ≡ true
      → (early : ℕ) × (late : ℕ) × (first ≡ some early) × (second ≡ some late) × (early < late)
  is_later-lt (some late) (some early) h = (early, late, refl, refl, ltb→lt early late h)
  is_later-lt none first h = cc
  is_later-lt (some late) none h = cc

  some-injective :
      {a b : BookingRequest} → ◌≡◌ {A = Option BookingRequest} (some a) (some b) → a ≡ b
  some-injective e = cc

  request_of-IsBookable :
      (workspace : Option Text) (slot : Option TimeSlot) (request : BookingRequest)
      → is_valid_time_range new_date slot ≡ true
      → request_of workspace slot ≡ some request
      → IsBookable request
  request_of-IsBookable none slot request v h = cc
  request_of-IsBookable (some []) slot request v h = cc
  request_of-IsBookable (some (c ∷ cs)) none request v h = cc
  request_of-IsBookable (some (c ∷ cs)) (some slot) request v h =
      let late =
        (&&-both (is_text (some slot.start_time) && is_text (some slot.end_time))
          (is_later (new_date slot.end_time) (new_date slot.start_time)) v).1 in
      let times = is_later-lt (new_date slot.end_time) (new_date slot.start_time) late in
      subst IsBookable (some-injective h) (record {
        chosen = refl;
        earlier = times.0;
        later = times.1;
        starts = times.2;
        ends = times.3;
        in_order = times.4;
      })

  asked_on-IsBookable :
      (page : Page) (event : WizardEvent) (s : BookingWizardState) (request : BookingRequest)
      → IsShown (record { page = page; store = s })
      → asked_on page event s ≡ some request
      → (s.confirmed ≡ true) × IsBookable request
  unfolding handle_confirm can_advance
  asked_on-IsBookable review (confirms answer) s request h e = of_box s.confirmed refl e
    where
      of_box :
          (b : Bool)
          → s.confirmed ≡ b
          → (if b then request_of s.workspace_id s.time_slot else none) ≡ some request
          → (s.confirmed ≡ true) × IsBookable request
      of_box true c k = (c, request_of-IsBookable s.workspace_id s.time_slot request h.1.1 k)
      of_box false c k = cc
  asked_on-IsBookable page event s request h e = cc

  -- Whatever addresses are entered and buttons pressed, a booking is only asked for with the box of the
  -- payment checked, for a workspace, and with two valid times of which the second is later.
  pub WizardRun-IsBookable :
      (view : WizardView) (event : WizardEvent) (request : BookingRequest)
      → WizardRun view
      → asked_on view.page event view.store ≡ some request
      → (view.store.confirmed ≡ true) × IsBookable request
  WizardRun-IsBookable view event request r h =
      asked_on-IsBookable view.page event view.store request (WizardRun-IsShown view r) h
