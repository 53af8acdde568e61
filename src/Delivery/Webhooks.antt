-- ===== src/Delivery/Webhooks.antt =====
-- backend/src/webhooks/webhook.service.ts, webhook-subscription.entity.ts and webhook-delivery.entity.ts.
-- The cipher and the HTTP client are parameters: `decrypts` says of an encrypted secret whether
-- `decryptSecret` returns, and `post` gives the status of the answer to a delivery, or none when the
-- request throws. Signatures and payloads only go into the request. One processor runs.
use hub_assist.Common.{
  take, ℕ, ◌+◌, Bool, true, false, ◌&&◌, Option, none, some, List, [], ◌∷◌, ◌++◌, map, find?, leb,
  ltb, ◌==◌, if◌then◌else◌, filter,
}
use hub_assist.Delivery.Backoff.{calculate_next_retry_at, is_dead_letter, replace_where}

abbrev pub max_webhook_attempts : ℕ
max_webhook_attempts = 8

pub data WebhookDeliveryStatus : Type 0 where
  pending delivered failed dead : WebhookDeliveryStatus

pub record WebhookSubscription : Type 0 where
  pub id : ℕ
  pub url : ℕ
  pub encrypted_secret : ℕ
  pub event_types : List ℕ
  pub is_active : Bool

pub record WebhookDelivery : Type 0 where
  pub id : ℕ
  pub subscription : WebhookSubscription
  pub event_type : ℕ
  pub status : WebhookDeliveryStatus
  pub attempts : ℕ
  pub next_retry_at : ℕ
  pub response_code : Option ℕ

-- `:eventType = ANY(subscription.eventTypes)`.
abbrev pub is_any : ℕ → List ℕ → Bool
is_any event_type types = elim (find? (λ t. t == event_type) types) [ none ↦ false | some t ↦ true ]

unfoldable pub enqueued : (ℕ → ℕ) → ℕ → ℕ → WebhookSubscription → WebhookDelivery
enqueued new_key event_type now subscription = record {
  id = new_key subscription.id;
  subscription = subscription;
  event_type = event_type;
  status = pending;
  attempts = 0;
  next_retry_at = now;
  response_code = none;
}

-- `enqueue`: a delivery for each active subscription to the event; `new_key` gives their keys.
unfoldable pub enqueue :
    (ℕ → ℕ) → ℕ → ℕ → List WebhookSubscription → List WebhookDelivery → List WebhookDelivery
enqueue new_key event_type now subscriptions deliveries =
    deliveries
    ++ map (enqueued new_key event_type now)
        (filter (λ s. s.is_active && is_any event_type s.event_types) subscriptions)

-- `orderBy('delivery.nextRetryAt', 'ASC')`.
unfoldable pub insert_delivery : WebhookDelivery → List WebhookDelivery → List WebhookDelivery
insert_delivery d [] = d ∷ []
insert_delivery d (x ∷ xs) =
    let rest = insert_delivery d xs in
    if leb d.next_retry_at x.next_retry_at then d ∷ x ∷ xs else x ∷ rest

unfoldable pub sort_deliveries : List WebhookDelivery → List WebhookDelivery
sort_deliveries [] = []
sort_deliveries (d ∷ ds) = insert_delivery d (sort_deliveries ds)

abbrev pub is_waiting : WebhookDelivery → Bool
is_waiting d = elim d.status [ pending ↦ true | delivered ↦ false | failed ↦ true | dead ↦ false ]

-- The query of `processReady`.
unfoldable pub ready_deliveries : ℕ → ℕ → List WebhookDelivery → List WebhookDelivery
ready_deliveries limit now deliveries =
    take limit (sort_deliveries (filter (λ d. is_waiting d && leb d.next_retry_at now) deliveries))

-- The row that `markForRetry` writes. `update` leaves a column alone whose value is `undefined`: with no
-- response, `responseCode` stays.
unfoldable pub marked_for_retry : ℕ → ℕ → Option ℕ → WebhookDelivery → WebhookDelivery
marked_for_retry now attempts response_code d =
    let code : Option ℕ = elim response_code [ none ↦ d.response_code | some c ↦ some c ] in
    if is_dead_letter attempts max_webhook_attempts
    then record d { attempts = attempts; response_code = code; status = dead }
    else record d {
      attempts = attempts;
      response_code = code;
      status = failed;
      next_retry_at = calculate_next_retry_at attempts now;
    }

-- The row that `deliver` writes on the answer to its request.
unfoldable pub answered : ℕ → Option ℕ → WebhookDelivery → WebhookDelivery
answered now none d = marked_for_retry now (d.attempts + 1) none d
answered now (some code) d =
    if leb 200 code && ltb code 300
    then record d { attempts = d.attempts + 1; status = delivered; response_code = some code }
    else marked_for_retry now (d.attempts + 1) (some code) d

-- The loop of `processReady`; `deliver` reads the secret outside its `try`, so one that does not decrypt
-- ends the loop.
unfoldable pub deliver_all :
    (ℕ → Bool)
    → (WebhookDelivery → Option ℕ)
    → ℕ
    → List WebhookDelivery
    → List WebhookDelivery
    → List WebhookDelivery
deliver_all decrypts post now [] deliveries = deliveries
deliver_all decrypts post now (d ∷ rest) deliveries =
    let after =
      deliver_all decrypts post now rest
        (replace_where (λ r. r.id == d.id) (answered now (post d) d) deliveries) in
    if decrypts d.subscription.encrypted_secret then after else deliveries

unfoldable pub process_ready :
    (ℕ → Bool) → (WebhookDelivery → Option ℕ) → ℕ → ℕ → List WebhookDelivery → List WebhookDelivery
process_ready decrypts post limit now deliveries =
    deliver_all decrypts post now (ready_deliveries limit now deliveries) deliveries
