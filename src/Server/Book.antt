-- ===== src/Server/Book.antt =====
-- Six requests that move an order of the order book, as one step (the methods `accept`, `take`,
-- `announceHashlock`, `release`, `cancel` and `heartbeat` of server/src/store.ts).
pub mod Moves
pub mod Guards
pub mod Taken
pub mod Released
pub mod Effects
pub mod Refusals
pub mod Changes
pub mod Lifecycle
pub mod Authority
pub mod Counts
pub mod Caps
use quanta_swap.Prelude.{ℕ, ◌≤◌, ◌≡◌, Text, List}
use quanta_swap.Server.Wire.{Json}
use quanta_swap.Server.Store.{OrderStore, sweep}
use quanta_swap.Server.Tokens.{Hashes}
use quanta_swap.Server.Takes.{Answer, TakeBody, accept}
use quanta_swap.Server.Takes.Match.{take}
use quanta_swap.Server.Release.{ReleaseBody}
use quanta_swap.Server.Progress.{AnnounceBody, announce_hashlock, release, cancel, heartbeat}

-- A request with what the caller draws for it: the address of the peer, and a taker's token.
pub data BookRequest : Type 0 where
  accepts : (id ip token : Text) → TakeBody → BookRequest
  takes : (ip token : Text) → TakeBody → BookRequest
  announces : (id : Text) → AnnounceBody → BookRequest
  releases : (id : Text) → ReleaseBody → BookRequest
  cancels : (id : Text) → Json → BookRequest
  beats : (id : Text) → Json → BookRequest

unfoldable pub handle : Hashes → ℕ → BookRequest → OrderStore → Answer
unfolding accept take announce_hashlock release cancel heartbeat
handle hashes now (accepts id ip token body) s = accept hashes now ip token body id s
handle hashes now (takes ip token body) s = take hashes now ip token body s
handle hashes now (announces id body) s = announce_hashlock hashes now id body s
handle hashes now (releases id body) s = release hashes now id body s
handle hashes now (cancels id token) s = cancel hashes now id token s
handle hashes now (beats id token) s = (heartbeat hashes now id token s).0
