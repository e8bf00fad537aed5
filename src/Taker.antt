-- ===== src/Taker.antt =====
-- The scripted taker's decision core (marketmaker/src/taker-policy.ts).
pub mod Plan
pub mod Checks
pub mod Bounds
pub mod Decide
