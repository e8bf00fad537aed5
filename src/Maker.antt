-- ===== src/Maker.antt =====
-- The market maker's decision core (marketmaker/src/policy.ts).
pub mod Order
pub mod Credits
pub mod Intents
pub mod Decide
pub mod Attempts
pub mod Quote
pub mod Refill
pub mod Feed
