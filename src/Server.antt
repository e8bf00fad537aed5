-- ===== src/Server.antt =====
-- The order book's service (server/src): the admission of writes and the event stream's writers.
pub mod Admission
pub mod Stream
pub mod Wire
pub mod Store
pub mod Tokens
pub mod Takes
pub mod Release
pub mod Progress
pub mod Proposals
pub mod Book
pub mod Commits
pub mod Lease
