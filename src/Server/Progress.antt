-- ===== src/Server/Progress.antt =====
-- The methods of the order book's store that move an order on after its take (`heartbeat`,
-- `announceHashlock`, `release` and `cancel` of server/src/store.ts). A signed
-- order is released by Server/Release.
pub mod Window
use quanta_swap.Prelude.{
  ℕ, ◌+◌, ◌*◌, ◌-◌, Bool, true, false, not, ◌&&◌, ◌||◌, Option, none, some, List, [], ◌∷◌, Text,
  map, codes, text_eq, ltb, leb, ◌==◌, if◌then◌else◌, is_null, on_option, all, length, lower,
}
use quanta_swap.Prelude.Int.{ℤ, pos, negsuc}
use quanta_swap.Server.Wire.{
  Json, absent, text, integer, other, ApiError, bad_maker_token, bad_taker_token, signed_needs_fill,
  signed_needs_cancel, not_awaiting, bad_hashlock, bad_timeouts, other_hashlock, other_timeout,
  responder_too_soon, initiator_too_short, Checked, fails, passes,
}
use quanta_swap.Server.Store.{
  OrderStatus, opened, accepted, locking, cancelled, Order, OrderStore, sweep,
}
use quanta_swap.Server.Tokens.{Hashes, maker_token_valid, taker_token_valid, is_lower_hex}
use quanta_swap.Server.Takes.{
  Answer, refused, shown, require, check, find_order, with_order, save,
  uses_portable_terminal_protocol, is_accepted,
}
use quanta_swap.Server.Takes.Match.{is_seen}
use quanta_swap.Server.Release.{ReleaseBody, release_portable}

-- `this.seenAt.set(id, now)`
unfoldable pub set_seen : Text → ℕ → List (Text × ℕ) → List (Text × ℕ)
unfolding text_eq
set_seen id now [] = (id, now) ∷ []
set_seen id now (e ∷ es) =
    let rest = set_seen id now es in if text_eq id e.0 then (id, now) ∷ es else e ∷ rest

-- `/^0x[0-9a-f]{64}$/`
unfoldable pub is_hashlock : Text → Bool
is_hashlock [] = false
is_hashlock (_ ∷ []) = false
is_hashlock (z ∷ x ∷ body) =
    z == b'0' && (x == b'x' && (length body == 64 && all is_lower_hex body))

unfoldable pub require_hashlock : Json → Checked Text
unfolding is_hashlock
require_hashlock (text raw) = if is_hashlock raw then passes raw else fails bad_hashlock
require_hashlock _ = fails bad_hashlock

-- Both timeouts are integers.
unfoldable pub require_timeouts : Json → Json → Checked (ℤ × ℤ)
require_timeouts (integer initiator) (integer responder) = passes (initiator, responder)
require_timeouts _ _ = fails bad_timeouts

-- `value === field` for a field that may be null.
abbrev pub equals_text : Option Text → Text → Bool
equals_text none value = false
equals_text (some field) value = text_eq field value

abbrev pub equals_number : Option ℕ → ℤ → Bool
equals_number none value = false
equals_number (some field) (pos value) = field == value
equals_number (some field) (negsuc _) = false

-- `responderTimeout > now + 600`
abbrev pub responder_in_time : ℕ → ℤ → Bool
responder_in_time now (pos t2) = ltb (now + 600) t2
responder_in_time now (negsuc _) = false

-- `initiatorTimeout - now >= 2 * (responderTimeout - now)`, with `now` on the other side.
abbrev pub covers_twice : ℕ → ℤ → ℤ → Bool
covers_twice now (pos t1) (pos t2) = leb (2 * t2) (t1 + now)
covers_twice now (pos t1) (negsuc _) = true
covers_twice now (negsuc k) (pos t2) = leb (2 * t2 + k + 1) now
covers_twice now (negsuc k) (negsuc l) = leb k (now + 2 * l + 1)

-- A timeout as the order keeps it. No timeout below zero passes the tests before it.
abbrev pub as_natural : ℤ → ℕ
as_natural (pos t) = t
as_natural (negsuc _) = 0

pub record AnnounceBody : Type 0 where
  pub token : Json
  pub hashlock : Json
  pub initiator_timeout : Json
  pub responder_timeout : Json

abbrev pub is_cancelled : OrderStatus → Bool
is_cancelled cancelled = true
is_cancelled _ = false

module _ (hashes : Hashes) (now : ℕ) where
  -- The store that `heartbeat` leaves, its answer, and whether the observers are called.
  unfoldable pub heartbeat : Text → Json → OrderStore → Answer × Bool
  unfolding maker_token_valid is_seen set_seen
  heartbeat id token s =
      let beats : Order → Answer = λ order.
        require (maker_token_valid hashes order token) bad_maker_token s
          (record s { seen_at = set_seen order.id now s.seen_at }, shown order) in
      let wakes : Order → Bool =
        λ order. maker_token_valid hashes order token && not (is_seen s order now) in
      (with_order id s beats, on_option (find_order id s.orders) false wakes)

  abbrev pub locked_order : Order → Text → ℤ → ℤ → Order
  locked_order order hashlock initiator responder = record order {
    hashlock = some (map lower hashlock);
    initiator_timeout = some (as_natural initiator);
    responder_timeout = some (as_natural responder);
    status = locking;
    updated_at = now;
  }

  -- The tests of the timeouts, and the announcement.
  unfoldable pub announce : Order → Text → ℤ → ℤ → OrderStore → Answer
  unfolding text_eq lower save
  announce order hashlock initiator responder s =
      require (not order.prelocked || equals_text order.hashlock (map lower hashlock))
        other_hashlock s
        (require (not order.prelocked || equals_number order.initiator_timeout initiator)
          other_timeout s
          (require (responder_in_time now responder) responder_too_soon s (
            require (covers_twice now initiator responder) initiator_too_short s
              (let o = locked_order order hashlock initiator responder in (save o s, shown o)))))

  -- `announceHashlock` after its sweep.
  unfoldable pub announce_swept : Text → AnnounceBody → OrderStore → Answer
  unfolding maker_token_valid require_hashlock require_timeouts announce
  announce_swept id body s = with_order id s (λ order.
      require (maker_token_valid hashes order body.token) bad_maker_token s (
        require (not (uses_portable_terminal_protocol order)) signed_needs_fill s (
          require (is_accepted order.status) not_awaiting s (
            check (require_hashlock body.hashlock) s (λ hashlock.
              check (require_timeouts body.initiator_timeout body.responder_timeout) s
                (λ times. announce order hashlock times.0 times.1 s))))))

  unfoldable pub announce_hashlock : Text → AnnounceBody → OrderStore → Answer
  unfolding sweep announce_swept
  announce_hashlock id body s = announce_swept id body (sweep now s)

  abbrev pub relisted_order : Order → Order
  relisted_order order = record order {
    status = opened;
    taker_eth_account = none;
    taker_qrl_account = none;
    taker_token_hash = none;
    acceptor_ip_hash = none;
    accepted_at = none;
    released_at = none;
    updated_at = now;
  }

  abbrev pub abandoned_order : Order → Order
  abandoned_order order = record order { released_at = some now; updated_at = now }

  -- What the taker's release does to the order, by its status.
  unfoldable pub release_as : OrderStatus → Order → OrderStore → Answer
  unfolding save
  release_as accepted order s = let o = relisted_order order in (save o s, shown o)
  release_as locking order s =
      let o = abandoned_order order in
      if is_null order.released_at then (save o s, shown o) else (s, shown order)
  release_as opened order s = (s, shown order)
  release_as cancelled order s = (s, shown order)

  -- `release` after its sweep.
  unfoldable pub release_swept : Text → ReleaseBody → OrderStore → Answer
  unfolding taker_token_valid release_as release_portable
  release_swept id body s = with_order id s (λ order.
      if uses_portable_terminal_protocol order
      then release_portable hashes now body order s
      else require (taker_token_valid hashes order body.token) bad_taker_token s
          (release_as order.status order s))

  unfoldable pub release : Text → ReleaseBody → OrderStore → Answer
  unfolding sweep release_swept
  release id body s = release_swept id body (sweep now s)

  abbrev pub cancelled_order : Order → Order
  cancelled_order order = record order { status = cancelled; updated_at = now }

  unfoldable pub cancel_order : Order → OrderStore → Answer
  unfolding save
  cancel_order order s =
      let o = cancelled_order order in
      if is_cancelled order.status then (s, shown order) else (save o s, shown o)

  -- `cancel` after its sweep.
  unfoldable pub cancel_swept : Text → Json → OrderStore → Answer
  unfolding maker_token_valid cancel_order
  cancel_swept id token s = with_order id s (λ order.
      require (maker_token_valid hashes order token) bad_maker_token s (
        require (not (uses_portable_terminal_protocol order)) signed_needs_cancel s
          (cancel_order order s)))

  unfoldable pub cancel : Text → Json → OrderStore → Answer
  unfolding sweep cancel_swept
  cancel id token s = cancel_swept id token (sweep now s)
