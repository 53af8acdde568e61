-- ===== src/Newsletter/Tests.antt =====
-- backend/src/newsletter with two subscribers, one of them confirmed.
use hub_assist.Common.{◌≡◌, refl, [], ◌∷◌, err}
use hub_assist.Newsletter.Service.{
  NewsletterSubscriber, Table, new_subscriber, confirmed, subscribe, confirm, unsubscribe,
  already_subscribed,
}
use hub_assist.Newsletter.RollLaws.{
  IsRoll, NewsletterRun, start, subscribes, confirms, unsubscribes, NewsletterRun-IsRoll,
}

abbrev ann : NewsletterSubscriber
ann = new_subscriber 1 10 11 12

abbrev bea : NewsletterSubscriber
bea = new_subscriber 2 20 21 22

abbrev two : Table
two = bea ∷ confirmed 5 ann ∷ []

ann_only : NewsletterRun (ann ∷ [])
unfolding subscribe
ann_only = subscribes 1 11 12 10 [] (ann ∷ []) start refl

ann_confirmed : NewsletterRun (confirmed 5 ann ∷ [])
unfolding confirm
ann_confirmed = confirms 5 11 (ann ∷ []) (confirmed 5 ann ∷ []) ann_only refl

both_there : NewsletterRun two
unfolding subscribe
both_there = subscribes 2 21 22 20 (confirmed 5 ann ∷ []) two ann_confirmed refl

one_left : NewsletterRun (bea ∷ [])
unfolding unsubscribe
one_left = unsubscribes 12 two (bea ∷ []) both_there refl

again_refused : subscribe 3 31 32 20 two ≡ err already_subscribed
unfolding subscribe
again_refused = refl

NewsletterRun-IsRoll_example : IsRoll two
NewsletterRun-IsRoll_example = NewsletterRun-IsRoll two both_there
