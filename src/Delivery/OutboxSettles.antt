-- ===== src/Delivery/OutboxSettles.antt =====
-- The passes of backend/src/outbox/outbox-processor.service.ts and what becomes of the events in five of
-- them.
use hub_assist.Common.{ℕ, ◌+◌, ◌≤◌, ◌<◌, ◌≡◌, ◌⊎◌, Bool, true, ◌&&◌, List, [], ◌∷◌}
use hub_assist.Delivery.Outbox.{OutboxEvent, sent, failed, is_pending, is_due}
use hub_assist.Delivery.OutboxTaken.{Pass}

-- Each call of a pass has come back by the end of the pass, and the next pass starts eight seconds after
-- that at least; the processor runs every thirty.
abbrev pub IsSpaced : ℕ → List Pass → Type 0
IsSpaced from [] = Unit
IsSpaced from (p ∷ ps) =
    (from ≤ p.starts)
    × ((e : OutboxEvent) → (p.publishes e).1 ≤ p.ends)
    × IsSpaced (p.ends + 8000) ps

-- A pending event has had so many attempts, and is due from then on.
abbrev Tried : ℕ → ℕ → OutboxEvent → Type 0
Tried tries from e =
    is_pending e ≡ true → (tries ≤ e.retry_count) × ((now : ℕ) → from ≤ now → is_due now e ≡ true)

-- What a pass selects, with no limit in its way.
abbrev ready : ℕ → OutboxEvent → Bool
ready now e = is_pending e && is_due now e

-- A pending row has been tried as often.
abbrev HasTried : ℕ → OutboxEvent → Type 0
HasTried tries e = is_pending e ≡ true → tries ≤ e.retry_count

-- An event is done with: sent after fewer than five refusals, or failed for good after five attempts.
abbrev pub IsSettled : OutboxEvent → Type 0
IsSettled e =
    ((e.status ≡ sent) × (e.retry_count < 5)) ⊎ ((e.status ≡ failed) × (e.retry_count ≡ 5))
