-- ===== src/Delivery/OutboxLaws.antt =====
-- Passes of backend/src/outbox/outbox.service.ts: how the state of an event accounts for its attempts.
use hub_assist.Common.{
  ℕ, ◌+◌, ◌<◌, ◌≡◌, ◌≢◌, refl, Bool, true, false, ◌&&◌, Option, none, List, [], ◌∷◌, arith, leb,
  ◌==◌, filter, All, All-append, Bool-cases, inl, inr,
}
use hub_assist.Delivery.Backoff.{is_dead_letter, All-take, All-replace_where}
use hub_assist.Delivery.Outbox.{
  Publisher, OutboxEvent, OutboxEventStatus, is_pending, is_due, pending_events, published, publish,
  publish_all, process_pending, create, pending, sent, failed,
}

-- A pending event has had fewer attempts than five and is not processed; a sent one failed fewer times
-- than five, and a failed one five times; both carry the time of the last attempt.
abbrev pub Accounts : OutboxEventStatus → ℕ → Option ℕ → Type 0
Accounts pending tries processed_at = (tries < 5) × (processed_at ≡ none)
Accounts sent tries processed_at = (tries < 5) × (processed_at ≢ none)
Accounts failed tries processed_at = (tries ≡ 5) × (processed_at ≢ none)

abbrev pub IsAccounted : OutboxEvent → Type 0
IsAccounted event = Accounts event.status event.retry_count event.processed_at

abbrev IsWaiting : OutboxEvent → Type 0
IsWaiting event = event.retry_count < 5

published-IsAccounted :
    (now : ℕ) (done : Bool) (event : OutboxEvent)
    → IsWaiting event
    → IsAccounted (published now done event)
unfolding published is_dead_letter
published-IsAccounted now true event h = (h, ground arith)
published-IsAccounted now false event h = elim (Bool-cases (leb 5 (event.retry_count + 1))) [
  | inl dead ↦ rw dead (ground arith, ground arith)
  | inr alive ↦ rw alive (ground arith, refl)
]

pub Accounts-waiting :
    (status : OutboxEventStatus) (tries : ℕ) (processed_at : Option ℕ) (due : Bool)
    → Accounts status tries processed_at
    → ((elim status [ pending ↦ true | sent ↦ false | failed ↦ false ]) && due) ≡ true
    → tries < 5
Accounts-waiting pending tries p due h d = h.0
Accounts-waiting sent tries p due h d = h.0
Accounts-waiting failed tries p due h d = ground arith

IsAccounted-IsWaiting :
    (now : ℕ) (events : List OutboxEvent)
    → All IsAccounted events
    → All IsWaiting (filter (λ e. is_pending e && is_due now e) events)
IsAccounted-IsWaiting now [] h = tt
IsAccounted-IsWaiting now (e ∷ es) h =
    let ih = IsAccounted-IsWaiting now es h.1 in
    elim (Bool-cases (is_pending e && is_due now e)) [
      | inl due ↦
          rw due (Accounts-waiting e.status e.retry_count e.processed_at (is_due now e) h.0 due, ih)
      | inr later ↦ rw later ih
    ]

publish_all-IsAccounted :
    (publishes : Publisher) (selected events : List OutboxEvent)
    → All IsWaiting selected
    → All IsAccounted events
    → All IsAccounted (publish_all publishes selected events)
unfolding publish_all publish
publish_all-IsAccounted publishes [] events w h = h
publish_all-IsAccounted publishes (e ∷ es) events w h = publish_all-IsAccounted publishes es _ w.1 (
    All-replace_where IsAccounted (λ r. r.id == e.id) (published (publishes e).1 (publishes e).0 e)
      events (published-IsAccounted (publishes e).1 (publishes e).0 e w.0) h)

pub process_pending-IsAccounted :
    (publishes : Publisher) (limit now : ℕ) (events : List OutboxEvent)
    → All IsAccounted events
    → All IsAccounted (process_pending publishes limit now events)
unfolding process_pending pending_events
process_pending-IsAccounted publishes limit now events h =
    publish_all-IsAccounted publishes _ events
      (All-take IsWaiting limit _ (IsAccounted-IsWaiting now events h)) h

-- A run of the service: the calls that add an event and the passes of the processor, the last one last.
pub data OutboxRun : List OutboxEvent → Type 0 where
  started : OutboxRun []
  created :
      {events : List OutboxEvent} (id now : ℕ) → OutboxRun events → OutboxRun (create id now events)
  processed :
      {events : List OutboxEvent} (publishes : Publisher) (limit now : ℕ)
      → OutboxRun events
      → OutboxRun (process_pending publishes limit now events)

-- Whatever the service for payments answers, and at whatever times the processor runs: in every table
-- that a run reaches, each event has failed at most five times; it is failed exactly when it has failed
-- five times, and it has a time of processing exactly when it is sent or failed.
pub OutboxRun-IsAccounted : {events : List OutboxEvent} → OutboxRun events → All IsAccounted events
unfolding create
OutboxRun-IsAccounted started = tt
OutboxRun-IsAccounted (created {events} id now run) =
    All-append IsAccounted events _ (OutboxRun-IsAccounted run) ((omega arith, refl), tt)
OutboxRun-IsAccounted (processed {events} publishes limit now run) =
    process_pending-IsAccounted publishes limit now events (OutboxRun-IsAccounted run)
