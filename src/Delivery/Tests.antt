-- ===== src/Delivery/Tests.antt =====
-- The outbox and the webhooks of backend/src on one event and one subscription.
use hub_assist.Common.{◌+◌, true, false, some, [], ◌∷◌, All}
use hub_assist.Delivery.Outbox.{create, process_pending}
use hub_assist.Delivery.Webhooks.{WebhookSubscription, enqueue, process_ready}
use hub_assist.Delivery.OutboxLaws
use hub_assist.Delivery.WebhookLaws
use hub_assist.Common.{ℕ, List, ◌==◌}
use hub_assist.Delivery.Outbox.{OutboxEvent}
use hub_assist.Delivery.OutboxTaken.{Pass}

OutboxRun-IsAccounted_example :
    All OutboxLaws.IsAccounted (process_pending (λ e. (false, 2010)) 25 2000 (create 1 1000 []))
OutboxRun-IsAccounted_example = OutboxLaws.OutboxRun-IsAccounted (
    OutboxLaws.OutboxRun.processed (λ e. (false, 2010)) 25 2000
      (OutboxLaws.OutboxRun.created 1 1000 OutboxLaws.OutboxRun.started))

abbrev subscription : WebhookSubscription
subscription = record {
  id = 1;
  url = 1;
  encrypted_secret = 1;
  event_types = 4 ∷ [];
  is_active = true;
}

WebhookRun-IsAccounted_example : All WebhookLaws.IsAccounted (
    process_ready
      (λ s. true)
      (λ d. some 500)
      25
      2000
      (enqueue (λ n. n + 10) 4 1000 (subscription ∷ []) []))
WebhookRun-IsAccounted_example = WebhookLaws.WebhookRun-IsAccounted (
    WebhookLaws.WebhookRun.processed (λ s. true) (λ d. some 500) 25 2000
      (WebhookLaws.WebhookRun.published (λ n. n + 10) 4 1000 (subscription ∷ [])
        WebhookLaws.WebhookRun.started))

-- Two events, of which the payment service takes the second only.
abbrev two_events : List OutboxEvent
two_events = create 2 1000 (create 1 1000 [])

-- A pass that takes two seconds.
abbrev pass_at : ℕ → Pass
pass_at now = record { publishes = λ e. (e.id == 2, now + 2000); starts = now; ends = now + 2000 }

abbrev five_passes : List Pass
five_passes = pass_at 30000 ∷ pass_at 60000 ∷ pass_at 90000 ∷ pass_at 120000 ∷ pass_at 150000 ∷ []
