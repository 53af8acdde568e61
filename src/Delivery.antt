-- ===== src/Delivery.antt =====
-- What the backend sends until it arrives: the Stellar events of backend/src/outbox and the deliveries of
-- backend/src/webhooks, with the back-off that they share.
pub mod Backoff
pub mod Outbox
pub mod OutboxLaws
pub mod Webhooks
pub mod WebhookLaws
pub mod PublishAll
pub mod OutboxTaken
pub mod OutboxSettles
mod Tests
