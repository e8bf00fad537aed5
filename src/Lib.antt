-- ===== src/Lib.antt =====
-- QuantaSwap: atomic swaps between Ethereum and QRL over hash time-locked escrows, with an order
-- book that only coordinates.
--
-- The parts and their models. A maker posts an order on the book (server), a taker proposes to fill
-- it, the maker funds the initiator leg, the taker the responder leg; the maker claims the
-- responder leg, which publishes the secret, and the taker claims the initiator leg with it. Either
-- takes its escrow back at its timeout. Three programs decide when to do so, each from a snapshot
-- of the two chains, the book and its own stored marks:
--
--   Maker/Decide      decide, the market maker's next action (marketmaker/src/policy.ts). A gate is
--                     one `if` of the source; settle, collect and retire are its tail.
--   Taker/Decide      decideTaker, the scripted taker's next action (marketmaker/src/taker-policy.ts),
--                     over the plans of Taker/Plan and the escrow checks of Taker/Checks.
--   Browser/Derive    deriveSwapMachine, the four steps that the browser offers to a person
--                     (frontend/src/lib/swapMachine.ts), over Browser/Machine and Browser/Steps.
--
-- They share the escrow record and the clock tests (Chain, of marketmaker/src/htlc.ts), addresses
-- (Address, of marketmaker/src/qip55.ts and htlc.ts) and the asset registry (Assets, of
-- marketmaker/src/assets.ts). Around the maker's decision stand the choice among proposals
-- (Maker/Intents), retry spacing and parking of payout credits (Maker/Credits, and the tick's
-- bookkeeping of marketmaker/src/index.ts in Maker/Attempts), the price ladder (Maker/Quote), the
-- refill of listings (Maker/Refill) and the price feed (Maker/Feed, of marketmaker/src/price.ts).
-- Around the taker's stand the operator's limits (Taker/Bounds). Of the book's service there are
-- the admission of writes (Server/Admission, of server/src/admission.ts), the writer of the event
-- stream (Server/Stream, of server/src/stream.ts), and the store (server/src/store.ts), in parts:
--
--   Server/Store      the sweep and the open listing.
--   Server/Wire       the fields of a body and their tests (also of server/src/assets.ts and
--                     errors.ts), and Server/Tokens the bearer tokens (also of order-signing.ts).
--   Server/Takes      commitTake, accept and get, with take by terms in Takes/Match.
--   Server/Progress   heartbeat, announceHashlock, release and cancel; Server/Release the release of a
--                     signed order by a secret (releasePortable).
--   Server/Book       these methods as one step, as server/src/server.ts calls them. Book/Moves says
--                     what a step may do to an order, Book/Effects that each method does no more.
--   Server/Proposals  the signed proposals of takers: submitFillIntent, the gate before the check of
--                     the signature, and storeFillIntent with its caps and its eviction.
--   Server/Commits    the group commit: persist, publish, flush and runCommits as a state machine
--                     whose environment chooses how each write ends and what observers ask for.
--
-- The data files of the store have one writer (server/src/process-lease.ts):
--
--   Server/Lease      the liveness rules of a lease file, and ProcessLease.acquire: at most 500
--                     attempts, each under a recovery guard, among starters that may act between
--                     its steps.
--   Server/Lease/Held the methods of a lease that is held: the heartbeat with its budget of
--                     failures, assertOwned before each write, and close.
--
-- How code is read. A value that may be null or undefined is an Option. A function that may throw
-- returns an Option too, with none for the exception: in the decisions only an address that is none
-- can throw. Conjunctions keep their order, so that a test that may throw is reached exactly when
-- the source reaches it. Times and amounts are natural numbers; a comparison with a difference that
-- could be negative has its subtrahend moved to the other side. Text is the list of its code units.
-- A text that only an operator reads is a constructor, with the numbers that it shows. SHAKE256, the
-- signature check, the locale's order of texts and the division of two floating-point prices are
-- parameters, and so are SHA-256 and the tokens that a method draws. The loops are structural, over
-- lists or a count of rungs. The loop of the group commit runs over a list of what its environment
-- does in each round; that a list which ends with a quiet round is long enough is a theorem. A method
-- of the store reads the clock once, and answers with the store that it leaves and what it throws or
-- shows. The maps of the store are lists under their keys; for the group commit they are a count of
-- mutations.
--
-- Not modelled: network calls, encoding of transactions, the parsing of storage files, signatures,
-- of the order book's store the creation of orders, signed fills and cancellations and what other
-- books send, of its lease the failures of a write and the set of one lease per data file, federation, the user
-- interface and the contracts. A decision is a function of its snapshot, so a theorem on one
-- decision holds for every order of events that leads to that snapshot; the theorems that join two
-- decisions name what the chain keeps between them.
--
-- Prelude holds what the parts share: tests on numbers, lists, exceptions, sorting, text. A module
-- below a part is named for what it proves. Examples applies each theorem to concrete data.
mod Prelude
pub mod Address
pub mod Chain
pub mod Assets
pub mod Maker
pub mod Taker
pub mod Browser
pub mod Server
mod Examples
