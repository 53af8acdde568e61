-- ===== src/Contact.antt =====
-- Messages to the operator: backend/src/contact.
pub mod Spam
pub mod SpamLaws
pub mod KeywordLaws
pub mod Service
pub mod ServiceLaws
mod Tests
