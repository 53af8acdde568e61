-- ===== src/Pricing.antt =====
-- backend/src/pricing: price rules, and the price of a time range.
pub mod Rules
pub mod RuleLaws
pub mod RuleSave
pub mod RuleOps
pub mod Engine
pub mod Slices
pub mod Snapshot
pub mod RuleRun
mod Tests
