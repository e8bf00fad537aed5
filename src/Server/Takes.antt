-- ===== src/Server/Takes.antt =====
-- The takes of the order book's store (`commitTake`, `accept` and `get` of server/src/store.ts).
-- A method is given the time, read once, and answers with the store it leaves: what it throws, or
-- the order that it shows. The taker's token is drawn by the caller.
pub mod Match
pub mod Answers
pub mod Best
pub mod Keys
pub mod Rate
pub mod Hidden
use Prim.Native.Nat.{Ordering, compare}
use quanta_swap.Prelude.{
  ℕ, ◌+◌, ◌*◌, min, Bool, true, false, not, ◌&&◌, ◌||◌, Option, none, some, List, [], ◌∷◌, ◌++◌,
  Text, map, text_eq, ltb, leb, ◌==◌, if◌then◌else◌, is_null, or_else, on_option, filter_by, length,
  lower, sort_by,
}
use quanta_swap.Address.{is_q_hex, is_0x_hex, is_qip55_qrl_address}
use quanta_swap.Chain.{Direction, eth_to_qrl, qrl_to_eth}
use quanta_swap.Server.Wire.{
  Json, absent, text, integer, other, ApiError, order_not_found, needs_qip55, signed_needs_intent,
  not_open, short_runway, no_match, takes_in_progress, daily_limit, reserved, Checked, fails,
  passes, Asset, AmountBounds, qrl_bounds, require_asset, require_direction, require_amount,
  require_address,
}
use quanta_swap.Server.Store.{
  StoredFillIntent, OrderStatus, opened, accepted, locking, cancelled, Order, OrderStore, is_open,
  take_window, has_runway, sweep, defined_and,
}
use quanta_swap.Server.Tokens.{Hashes, share_authorized}

pub data Outcome : Type 0 where
  refused : ApiError → Outcome
  shown : Order → Outcome
  taken : Order → Text → Outcome
  proposed : StoredFillIntent → Outcome

abbrev pub Answer : Type 0
Answer = OrderStore × Outcome

-- `if (!ok) throw new ApiError(…)` before the statements that follow.
unfoldable pub require : Bool → ApiError → OrderStore → Answer → Answer
require ok e s rest = if ok then rest else (s, refused e)

-- A test that throws or has a value.
unfoldable pub check {ℓ} : {A : Type ℓ} → Checked A → OrderStore → (A → Answer) → Answer
check (fails e) s rest = (s, refused e)
check (passes a) s rest = rest a

-- `this.orders.get(id)`
unfoldable pub find_order : Text → List Order → Option Order
unfolding text_eq
find_order id [] = none
find_order id (o ∷ os) = let rest = find_order id os in if text_eq id o.id then some o else rest

-- The order of this id is changed in place.
unfoldable pub put_order : Order → List Order → List Order
unfolding text_eq
put_order order [] = []
put_order order (o ∷ os) =
    let rest = put_order order os in if text_eq order.id o.id then order ∷ os else o ∷ rest

-- `const order = this.orders.get(id); if (!order) throw …`
unfoldable pub with_order : Text → OrderStore → (Order → Answer) → Answer
unfolding find_order
with_order id s rest = on_option (find_order id s.orders) (s, refused order_not_found) rest

-- The order is changed, and the file is to be written.
unfoldable pub save : Order → OrderStore → OrderStore
unfolding put_order
save order s = record s { orders = put_order order s.orders; persists = s.persists + 1 }

abbrev pub max_concurrent_takes_per_ip : ℕ
max_concurrent_takes_per_ip = 4

abbrev pub max_takes_per_ip_per_day : ℕ
max_takes_per_ip_per_day = 24

abbrev pub locking_slot_horizon : ℕ
locking_slot_horizon = 2 * 3600

abbrev pub uses_portable_terminal_protocol : Order → Bool
uses_portable_terminal_protocol o = not (is_null o.maker_auth) && not (is_null o.fill_intents)

-- `now <= Math.min(t1, (acceptedAt ?? now) + LOCKING_SLOT_HORIZON_S)`; no T1 is no bound.
unfoldable pub locking_slot_active : ℕ → Order → Bool
locking_slot_active now o = elim o.status [
  | locking ↦
      let horizon = or_else o.accepted_at now + locking_slot_horizon in
      leb now (on_option o.initiator_timeout horizon (λ t1. min t1 horizon))
  | _ ↦ false
]

abbrev pub is_accepted : OrderStatus → Bool
is_accepted accepted = true
is_accepted _ = false

-- `o.acceptorIpHash === ipHash`
abbrev pub is_mine : Text → Order → Bool
is_mine ip o = defined_and o.acceptor_ip_hash (text_eq ip)

unfoldable pub in_progress : ℕ → Order → Bool
unfolding locking_slot_active
in_progress now o = is_null o.released_at && (is_accepted o.status || locking_slot_active now o)

-- `(o.acceptedAt ?? 0) > now - TAKE_WINDOW_S`
abbrev pub is_recent : ℕ → Order → Bool
is_recent now o = ltb now (or_else o.accepted_at 0 + take_window)

unfoldable pub concurrent : ℕ → Text → List Order → ℕ
unfolding text_eq in_progress
concurrent now ip os = length (filter_by (in_progress now) (filter_by (is_mine ip) os))

unfoldable pub recent : ℕ → Text → List Order → ℕ
unfolding text_eq
recent now ip os = length (filter_by (is_recent now) (filter_by (is_mine ip) os))

-- A restriction that names another account, whatever the case of its letters.
unfoldable pub is_reserved : Option Text → Text → Bool
unfolding lower text_eq
is_reserved allowed account =
    defined_and allowed (λ a. not (text_eq (map lower a) (map lower account)))

pub record TakeBody : Type 0 where
  pub taker_eth_account : Json
  pub taker_qrl_account : Json
  pub share_token : Json
  pub direction : Json
  pub asset : Json
  pub max_pay : Json
  pub min_receive : Json

module _ (hashes : Hashes) (now : ℕ) (ip token : Text) where
  abbrev pub taken_order : Order → Text → Text → Order
  taken_order order eth qrl = record order {
    taker_eth_account = some eth;
    taker_qrl_account = some qrl;
    status = accepted;
    taker_token_hash = some (hashes.sha256_hex token);
    acceptor_ip_hash = some (hashes.sha256_hex ip);
    accepted_at = some now;
    updated_at = now;
    released_at = none;
  }

module _ (hashes : Hashes) (now : ℕ) (ip token : Text) (body : TakeBody) where
  unfoldable pub commit_take : Order → OrderStore → Answer
  unfolding concurrent recent require_address is_0x_hex is_q_hex is_reserved save
  commit_take order s =
      let mine = hashes.sha256_hex ip in
      require (ltb (concurrent now mine s.orders) max_concurrent_takes_per_ip) takes_in_progress s (
        require (ltb (recent now mine s.orders) max_takes_per_ip_per_day) daily_limit s (
          check (require_address body.taker_eth_account (is_0x_hex 40)) s (λ eth.
            check (require_address body.taker_qrl_account (is_q_hex 128)) s (λ qrl.
              require
                (not (
                  is_reserved order.allowed_taker_eth eth
                  || is_reserved order.allowed_taker_qrl qrl))
                reserved s
                (let o = taken_order hashes now ip token order eth qrl in
                  (save o s, taken o token))))))

  -- `assertLegacyOrderProtocolInput(body.takerQrlAccount)`
  unfoldable pub is_legacy_input : Json → Bool
  unfolding is_qip55_qrl_address
  is_legacy_input (text account) = is_qip55_qrl_address hashes.shake256 account
  is_legacy_input _ = false

  -- `accept` after its sweep.
  unfoldable pub accept_swept : Text → OrderStore → Answer
  unfolding share_authorized has_runway commit_take
  accept_swept id s = with_order id s (λ order.
      require (order.is_public || share_authorized hashes order body.share_token) order_not_found s
        (require (not (uses_portable_terminal_protocol order)) signed_needs_intent s (
          require (is_open order.status) not_open s
            (require (has_runway order now) short_runway s (commit_take order s)))))

  unfoldable pub accept : Text → OrderStore → Answer
  unfolding is_legacy_input sweep accept_swept
  accept id s =
      require (is_legacy_input body.taker_qrl_account) needs_qip55 s (accept_swept id (sweep now s))

-- `get`
unfoldable pub get : Hashes → ℕ → Text → Json → OrderStore → Answer
unfolding sweep share_authorized
get hashes now id share_token s =
    let t = sweep now s in
    with_order id t (λ order.
      require (order.is_public || share_authorized hashes order share_token) order_not_found t
        (t, shown order))
