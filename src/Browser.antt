-- ===== src/Browser.antt =====
-- The browser's swap (frontend/src/lib).
pub mod Machine
pub mod Steps
pub mod Derive
pub mod Commit
pub mod Payout
pub mod Offer
pub mod Agreement
pub mod Ownership
pub mod Entry
