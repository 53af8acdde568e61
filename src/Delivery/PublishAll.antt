-- ===== src/Delivery/PublishAll.antt =====
-- What a loop over selected events of backend/src/outbox/outbox.service.ts leaves: the row of
-- each is the one that its attempt writes, and the other rows are as they were.
use hub_assist.Common.{
  ℕ, suc, ◌≡◌, refl, ap, Bool, true, false, ◌||◌, List, [], ◌∷◌, arith, ◌==◌, ◌⊎◌, length, All,
  Bool-cases, inl, inr,
}
use hub_assist.Delivery.Backoff.{replace_where}
use hub_assist.Delivery.Outbox.{Publisher, OutboxEvent, published, publish, publish_all}

abbrev pub has_id : ℕ → List OutboxEvent → Bool
has_id id [] = false
has_id id (e ∷ es) = e.id == id || has_id id es

replace_where-length :
    (p : OutboxEvent → Bool) (row : OutboxEvent) (es : List OutboxEvent)
    → length (replace_where p row es) ≡ length es
replace_where-length p row [] = refl
replace_where-length p row (e ∷ es) = ap suc (replace_where-length p row es)

pub publish_all-length :
    (publishes : Publisher) (selected events : List OutboxEvent)
    → length (publish_all publishes selected events) ≡ length events
unfolding publish_all publish
publish_all-length publishes [] events = refl
publish_all-length publishes (e ∷ es) events =
    let ih = publish_all-length publishes es (publish publishes e events) in
    let one =
      replace_where-length (λ r. r.id == e.id) (published (publishes e).1 (publishes e).0 e)
        events in
    omega (arith, ih, one)

-- A row with the property, or one that is still to be published.
abbrev pub DoneOr : (OutboxEvent → Type 0) → List OutboxEvent → OutboxEvent → Type 0
DoneOr P selected x = P x ⊎ (has_id x.id selected ≡ true)

replace_where-DoneOr :
    (P : OutboxEvent → Type 0) (row e : OutboxEvent) (es events : List OutboxEvent)
    → P row
    → All (DoneOr P (e ∷ es)) events
    → All (DoneOr P es) (replace_where (λ r. r.id == e.id) row events)
replace_where-DoneOr P row e es [] r h = tt
replace_where-DoneOr P row e es (x ∷ xs) r h =
    let ih = replace_where-DoneOr P row e es xs r h.1 in
    elim (Bool-cases (x.id == e.id)) [
      | inl hit ↦ rw hit (inl r, ih)
      | inr miss ↦ rw miss (still x miss h.0, ih)
    ]
  where
    still : (x : OutboxEvent) → (x.id == e.id) ≡ false → DoneOr P (e ∷ es) x → DoneOr P es x
    still x miss (inl done) = inl done
    still x miss (inr waits) = inr (ground arith)

All-DoneOr :
    (P : OutboxEvent → Type 0) (events : List OutboxEvent) → All (DoneOr P []) events → All P events
All-DoneOr P [] h = tt
All-DoneOr P (x ∷ xs) (here, later) = (settled here, All-DoneOr P xs later)
  where
    settled : DoneOr P [] x → P x
    settled (inl done) = done
    settled (inr waits) = cc

pub publish_all-All :
    (P : OutboxEvent → Type 0) (publishes : Publisher) (selected events : List OutboxEvent)
    → All (λ e. P (published (publishes e).1 (publishes e).0 e)) selected
    → All (DoneOr P selected) events
    → All P (publish_all publishes selected events)
unfolding publish_all publish
publish_all-All P publishes [] events s h = All-DoneOr P events h
publish_all-All P publishes (e ∷ es) events s h =
    publish_all-All P publishes es _ s.1
      (replace_where-DoneOr P (published (publishes e).1 (publishes e).0 e) e es events s.0 h)
