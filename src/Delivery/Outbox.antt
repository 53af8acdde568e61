-- ===== src/Delivery/Outbox.antt =====
-- backend/src/outbox/outbox.service.ts and outbox-event.entity.ts. The type and the payload of an event
-- only go on to the Stellar service, whose answer to an event is the parameter `publishes`: whether
-- `publishPaymentEvent` and the save after it return, and the moment at which `publish` then reads the clock. The table is the list of its rows in the order of `createdAt`, and one
-- processor runs (`waitForCompletion`, with the rows of others locked and skipped).
use hub_assist.Common.{
  take, ℕ, ◌+◌, Bool, true, false, ◌&&◌, Option, none, some, List, [], ◌∷◌, ◌++◌, leb, ◌==◌,
  if◌then◌else◌, filter,
}
use hub_assist.Delivery.Backoff.{calculate_next_retry_at, is_dead_letter, replace_where}

abbrev pub max_outbox_attempts : ℕ
max_outbox_attempts = 5

pub data OutboxEventStatus : Type 0 where
  pending sent failed : OutboxEventStatus

pub record OutboxEvent : Type 0 where
  pub id : ℕ
  pub status : OutboxEventStatus
  pub retry_count : ℕ
  pub created_at : ℕ
  pub next_retry_at : Option ℕ
  pub processed_at : Option ℕ

-- `create`: the columns that the call leaves out have their defaults.
unfoldable pub create : ℕ → ℕ → List OutboxEvent → List OutboxEvent
create id now events =
    events
    ++ record {
      id = id;
      status = pending;
      retry_count = 0;
      created_at = now;
      next_retry_at = none;
      processed_at = none;
    }
      ∷ []

abbrev pub is_pending : OutboxEvent → Bool
is_pending event = elim event.status [ pending ↦ true | sent ↦ false | failed ↦ false ]

abbrev pub is_due : ℕ → OutboxEvent → Bool
is_due now event = elim event.next_retry_at [ none ↦ true | some t ↦ leb t now ]

-- The query of `processPending`.
unfoldable pub pending_events : ℕ → ℕ → List OutboxEvent → List OutboxEvent
pending_events limit now events = take limit (filter (λ e. is_pending e && is_due now e) events)

-- The row that `publish` writes.
unfoldable pub published : ℕ → Bool → OutboxEvent → OutboxEvent
published now true event = record event { status = sent; processed_at = some now }
published now false event =
    let attempts = event.retry_count + 1 in
    if is_dead_letter attempts max_outbox_attempts
    then record event { retry_count = attempts; status = failed; processed_at = some now }
    else record event {
      retry_count = attempts;
      status = pending;
      next_retry_at = some (calculate_next_retry_at attempts now);
      processed_at = none;
    }

-- What comes of the call for an event, and when.
abbrev pub Publisher : Type 0
Publisher = OutboxEvent → Bool × ℕ

unfoldable pub publish : Publisher → OutboxEvent → List OutboxEvent → List OutboxEvent
publish publishes event events =
    let (done, now) = publishes event in
    replace_where (λ r. r.id == event.id) (published now done event) events

-- `for (const event of events) await this.publish(event)`.
unfoldable pub publish_all : Publisher → List OutboxEvent → List OutboxEvent → List OutboxEvent
publish_all publishes [] events = events
publish_all publishes (event ∷ rest) events =
    publish_all publishes rest (publish publishes event events)

-- `processPending`, whose query is made at `now`.
unfoldable pub process_pending : Publisher → ℕ → ℕ → List OutboxEvent → List OutboxEvent
process_pending publishes limit now events =
    publish_all publishes (pending_events limit now events) events
