-- ===== src/Examples.antt =====
-- Tests of the models, and each property applied to concrete data.
pub mod Data
mod Makers
mod Takers
mod Browsers
mod Listings
mod Services
pub mod Stores
mod Commits
mod Leases
mod Books
mod Proposals
