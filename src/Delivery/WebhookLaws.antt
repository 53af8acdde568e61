-- ===== src/Delivery/WebhookLaws.antt =====
-- Passes of backend/src/webhooks/webhook.service.ts: how the state of a delivery accounts for its
-- attempts, and the delivery that holds up all the others.
use hub_assist.Common.{
  ℕ, ◌+◌, ◌<◌, ◌≤◌, ◌≡◌, refl, Bool, true, false, ◌&&◌, Option, none, some, List, [], ◌∷◌, arith,
  map, leb, ltb, ◌==◌, filter, All, All-append, Bool-cases, inl, inr,
}
use hub_assist.Delivery.Backoff.{is_dead_letter, All-take, All-replace_where}
use hub_assist.Delivery.Webhooks.{
  WebhookSubscription, WebhookDelivery, WebhookDeliveryStatus, is_waiting, pending, delivered,
  failed, dead, enqueued, enqueue, insert_delivery, sort_deliveries, ready_deliveries,
  marked_for_retry, answered, deliver_all, process_ready,
}

-- What the status of a delivery says of its attempts and of the last answer.
abbrev pub Accounts : WebhookDeliveryStatus → ℕ → Option ℕ → Type 0
Accounts pending attempts code = (attempts ≡ 0) × (code ≡ none)
Accounts delivered attempts code =
    (1 ≤ attempts) × (attempts ≤ 8) × (c : ℕ) × (code ≡ some c) × (200 ≤ c) × (c < 300)
Accounts failed attempts code = (1 ≤ attempts) × (attempts < 8)
Accounts dead attempts code = attempts ≡ 8

abbrev pub IsAccounted : WebhookDelivery → Type 0
IsAccounted d = Accounts d.status d.attempts d.response_code

abbrev IsRetriable : WebhookDelivery → Type 0
IsRetriable d = d.attempts < 8

marked_for_retry-IsAccounted :
    (now : ℕ) (code : Option ℕ) (d : WebhookDelivery)
    → IsRetriable d
    → IsAccounted (marked_for_retry now (d.attempts + 1) code d)
unfolding marked_for_retry is_dead_letter
marked_for_retry-IsAccounted now code d h = elim (Bool-cases (leb 8 (d.attempts + 1))) [
  | inl last ↦ rw last (ground arith)
  | inr more ↦ rw more (omega arith, ground arith)
]

answered-IsAccounted :
    (now : ℕ) (code : Option ℕ) (d : WebhookDelivery)
    → IsRetriable d
    → IsAccounted (answered now code d)
unfolding answered
answered-IsAccounted now none d h = marked_for_retry-IsAccounted now none d h
answered-IsAccounted now (some code) d h = elim (Bool-cases (leb 200 code && ltb code 300)) [
  | inl good ↦ rw good (omega arith, omega arith, code, refl, ground arith, ground arith)
  | inr bad ↦ rw bad (marked_for_retry-IsAccounted now (some code) d h)
]

Accounts-retriable :
    (status : WebhookDeliveryStatus) (attempts : ℕ) (code : Option ℕ) (due : Bool)
    → Accounts status attempts code
    → ((elim status [ pending ↦ true | delivered ↦ false | failed ↦ true | dead ↦ false ]) && due)
      ≡ true
    → attempts < 8
Accounts-retriable pending attempts code due h d = omega (arith, h.0)
Accounts-retriable delivered attempts code due h d = ground arith
Accounts-retriable failed attempts code due h d = h.1
Accounts-retriable dead attempts code due h d = ground arith

filter-IsRetriable :
    (now : ℕ) (ds : List WebhookDelivery)
    → All IsAccounted ds
    → All IsRetriable (filter (λ d. is_waiting d && leb d.next_retry_at now) ds)
filter-IsRetriable now [] h = tt
filter-IsRetriable now (d ∷ ds) h =
    let ih = filter-IsRetriable now ds h.1 in
    elim (Bool-cases (is_waiting d && leb d.next_retry_at now)) [
      | inl due ↦ rw due (
        Accounts-retriable d.status d.attempts d.response_code (leb d.next_retry_at now) h.0 due,
        ih,
      )
      | inr later ↦ rw later ih
    ]

insert_delivery-All :
    (P : WebhookDelivery → Type 0) (d : WebhookDelivery) (ds : List WebhookDelivery)
    → P d
    → All P ds
    → All P (insert_delivery d ds)
unfolding insert_delivery
insert_delivery-All P d [] p h = (p, tt)
insert_delivery-All P d (x ∷ xs) p h =
    let ih = insert_delivery-All P d xs p h.1 in
    elim (Bool-cases (leb d.next_retry_at x.next_retry_at)) [
      | inl first ↦ rw first (p, h)
      | inr later ↦ rw later (h.0, ih)
    ]

sort_deliveries-All :
    (P : WebhookDelivery → Type 0) (ds : List WebhookDelivery)
    → All P ds
    → All P (sort_deliveries ds)
unfolding sort_deliveries
sort_deliveries-All P [] h = tt
sort_deliveries-All P (d ∷ ds) h =
    insert_delivery-All P d (sort_deliveries ds) h.0 (sort_deliveries-All P ds h.1)

deliver_all-IsAccounted :
    (decrypts : ℕ → Bool) (post : WebhookDelivery → Option ℕ) (now : ℕ)
    (selected ds : List WebhookDelivery)
    → All IsRetriable selected
    → All IsAccounted ds
    → All IsAccounted (deliver_all decrypts post now selected ds)
unfolding deliver_all
deliver_all-IsAccounted decrypts post now [] ds w h = h
deliver_all-IsAccounted decrypts post now (d ∷ rest) ds w h =
    elim (Bool-cases (decrypts d.subscription.encrypted_secret)) [
      | inl good ↦ rw good (
          deliver_all-IsAccounted decrypts post now rest _ w.1 (
            All-replace_where IsAccounted (λ r. r.id == d.id) (answered now (post d) d) ds
              (answered-IsAccounted now (post d) d w.0) h))
      | inr bad ↦ rw bad h
    ]

process_ready-IsAccounted :
    (decrypts : ℕ → Bool) (post : WebhookDelivery → Option ℕ) (limit now : ℕ)
    (ds : List WebhookDelivery)
    → All IsAccounted ds
    → All IsAccounted (process_ready decrypts post limit now ds)
unfolding process_ready ready_deliveries
process_ready-IsAccounted decrypts post limit now ds h =
    deliver_all-IsAccounted decrypts post now _ ds
      (All-take IsRetriable limit _
        (sort_deliveries-All IsRetriable _ (filter-IsRetriable now ds h)))
      h

map-enqueued :
    (new_key : ℕ → ℕ) (event_type now : ℕ) (ss : List WebhookSubscription)
    → All IsAccounted (map (enqueued new_key event_type now) ss)
unfolding enqueued
map-enqueued new_key event_type now [] = tt
map-enqueued new_key event_type now (s ∷ ss) =
    ((refl, refl), map-enqueued new_key event_type now ss)

-- A run of the service: the events that are published and the passes of the processor.
pub data WebhookRun : List WebhookDelivery → Type 0 where
  started : WebhookRun []
  published :
      {ds : List WebhookDelivery} (new_key : ℕ → ℕ) (event_type now : ℕ)
      (subscriptions : List WebhookSubscription)
      → WebhookRun ds
      → WebhookRun (enqueue new_key event_type now subscriptions ds)
  processed :
      {ds : List WebhookDelivery} (decrypts : ℕ → Bool) (post : WebhookDelivery → Option ℕ)
      (limit now : ℕ)
      → WebhookRun ds
      → WebhookRun (process_ready decrypts post limit now ds)

-- Whatever the receivers answer, and at whatever times the processor runs, in every table that a run
-- reaches: a delivery is pending only if it was never tried; it is delivered only by an answer from 200 to
-- 299, within eight attempts; it is failed after one to seven attempts, and dead after exactly eight.
pub WebhookRun-IsAccounted : {ds : List WebhookDelivery} → WebhookRun ds → All IsAccounted ds
unfolding enqueue
WebhookRun-IsAccounted started = tt
WebhookRun-IsAccounted (published {ds} new_key event_type now subscriptions run) =
    All-append IsAccounted ds _ (WebhookRun-IsAccounted run) (map-enqueued new_key event_type now _)
WebhookRun-IsAccounted (processed {ds} decrypts post limit now run) =
    process_ready-IsAccounted decrypts post limit now ds (WebhookRun-IsAccounted run)
