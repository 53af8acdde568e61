-- ===== src/Delivery/OutboxTaken.antt =====
-- The passes of backend/src/outbox/outbox-processor.service.ts, and which events they mark as sent.
use hub_assist.Common.{
  ℕ, ◌≡◌, ◌⊎◌, ◌&&◌, ◌||◌, Bool, true, false, List, [], ◌∷◌, arith, ◌==◌, Bool-cases, inl, inr,
}
use hub_assist.Delivery.Backoff.{is_dead_letter, replace_where}
use hub_assist.Delivery.Outbox.{
  OutboxEvent, pending, sent, failed, Publisher, pending_events, published, publish, publish_all,
  process_pending,
}

-- A pass of the processor: what comes of its calls, when its query is made, and when it has ended.
pub record Pass : Type 0 where
  pub publishes : Publisher
  pub starts : ℕ
  pub ends : ℕ

unfoldable pub run_passes : ℕ → List Pass → List OutboxEvent → List OutboxEvent
run_passes limit [] events = events
run_passes limit (p ∷ later) events =
    run_passes limit later (process_pending p.publishes limit p.starts events)

abbrev is_sent : OutboxEvent → Bool
is_sent e = elim e.status [ pending ↦ false | sent ↦ true | failed ↦ false ]

-- Whether a row with the id is sent.
abbrev pub was_sent : ℕ → List OutboxEvent → Bool
was_sent id [] = false
was_sent id (e ∷ es) = is_sent e && e.id == id || was_sent id es

-- The payment service took an event with the id.
abbrev pub IsTakenBy : ℕ → Publisher → Type 0
IsTakenBy id publishes = (e : OutboxEvent) × ((e.id == id) ≡ true) × ((publishes e).0 ≡ true)

-- It did so in one of the passes.
abbrev pub IsTaken : ℕ → List Pass → Type 0
IsTaken id [] = ⊥
IsTaken id (p ∷ ps) = IsTakenBy id p.publishes ⊎ IsTaken id ps

published-sent :
    (now id : ℕ) (done : Bool) (e : OutboxEvent)
    → (is_sent (published now done e) && (published now done e).id == id) ≡ true
    → ((e.id == id) ≡ true) × (done ≡ true)
unfolding published is_dead_letter
published-sent now id true e h = ground arith
published-sent now id false e h = absurd (ground arith)

replace_where-was_sent :
    (id : ℕ) (p : OutboxEvent → Bool) (row : OutboxEvent) (es : List OutboxEvent)
    → was_sent id (replace_where p row es) ≡ true
    → (was_sent id es ≡ true) ⊎ ((is_sent row && row.id == id) ≡ true)
replace_where-was_sent id p row [] h = cc
replace_where-was_sent id p row (x ∷ xs) h =
    let ih = replace_where-was_sent id p row xs in
    elim (Bool-cases (was_sent id (replace_where p row xs))) [
      | inl later ↦ elim (ih later) [ inl old ↦ inl (ground arith) | inr new ↦ inr new ]
      | inr no_more ↦ elim (Bool-cases (p x)) [
        | inl hit ↦ inr (ground arith)
        | inr miss ↦ inl (ground arith)
      ]
    ]

publish_all-was_sent :
    (id : ℕ) (publishes : Publisher) (selected es : List OutboxEvent)
    → was_sent id (publish_all publishes selected es) ≡ true
    → (was_sent id es ≡ true) ⊎ IsTakenBy id publishes
unfolding publish_all publish
publish_all-was_sent id publishes [] es h = inl h
publish_all-was_sent id publishes (e ∷ rest) es h =
    let row : OutboxEvent = published (publishes e).1 (publishes e).0 e in
    elim (publish_all-was_sent id publishes rest (replace_where (λ r. r.id == e.id) row es) h) [
      | inr taken ↦ inr taken
      | inl now_sent ↦ elim (replace_where-was_sent id (λ r. r.id == e.id) row es now_sent) [
        | inl old ↦ inl old
        | inr new ↦
            let by = published-sent (publishes e).1 id (publishes e).0 e new in inr (e, by.0, by.1)
      ]
    ]

pub run_passes-was_sent :
    (id limit : ℕ) (passes : List Pass) (es : List OutboxEvent)
    → was_sent id (run_passes limit passes es) ≡ true
    → (was_sent id es ≡ true) ⊎ IsTaken id passes
unfolding run_passes process_pending
run_passes-was_sent id limit [] es h = inl h
run_passes-was_sent id limit (p ∷ later) es h =
    elim (run_passes-was_sent id limit later
      (publish_all p.publishes (pending_events limit p.starts es) es) h) [
        | inr taken ↦ inr (inr taken)
        | inl before ↦
            elim (publish_all-was_sent id p.publishes (pending_events limit p.starts es) es
              before) [ inl old ↦ inl old | inr taken ↦ inr (inl taken) ]
      ]
