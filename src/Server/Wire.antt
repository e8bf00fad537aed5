-- ===== src/Server/Wire.antt =====
-- The fields of a request's body, and how the order book tests them (`require…` of
-- server/src/store.ts and server/src/assets.ts, `ApiError` of server/src/errors.ts). An error is
-- named by the refusal, and `status_of` is its HTTP status.
use quanta_swap.Prelude.{
  ℕ, ◌+◌, ◌-◌, ◌*◌, ◌^◌, Bool, ◌&&◌, [], ◌∷◌, Text, codes, text_eq, ltb, leb, if◌then◌else◌, all,
  length,
}
use quanta_swap.Prelude.Int.{ℤ}
use quanta_swap.Chain.{Direction, eth_to_qrl, qrl_to_eth}

-- A field of a body: it is not there, a string, a number that is an integer, or something else.
pub data Json : Type 0 where
  absent : Json
  text : Text → Json
  integer : ℤ → Json
  other : Json

pub data ApiError : Type 0 where
  order_not_found needs_qip55 signed_needs_intent signed_needs_fill signed_needs_cancel : ApiError
  not_open short_runway no_match takes_in_progress daily_limit reserved : ApiError
  bad_address bad_direction bad_asset bad_amount below_minimum above_maximum : ApiError
  bad_maker_token bad_taker_token : ApiError
  not_awaiting bad_hashlock bad_timeouts other_hashlock other_timeout : ApiError
  responder_too_soon initiator_too_short : ApiError
  legacy_order nonce_conflict already_pending from_future : ApiError
  ambiguous_release unexpected_fields bad_release_secret bad_intent_digest : ApiError
  not_portable no_fill no_intent fill_secret_mismatch intent_secret_mismatch : ApiError
  too_many_pending requests_in_progress daily_intents too_many_retained : ApiError

unfoldable pub status_of : ApiError → ℕ
status_of order_not_found = 404
status_of needs_qip55 = 409
status_of signed_needs_intent = 409
status_of signed_needs_fill = 409
status_of signed_needs_cancel = 409
status_of not_open = 409
status_of short_runway = 409
status_of no_match = 409
status_of not_awaiting = 409
status_of legacy_order = 409
status_of nonce_conflict = 409
status_of already_pending = 409
status_of not_portable = 409
status_of no_fill = 409
status_of no_intent = 409
status_of fill_secret_mismatch = 403
status_of intent_secret_mismatch = 403
status_of too_many_pending = 429
status_of requests_in_progress = 429
status_of daily_intents = 429
status_of too_many_retained = 429
status_of takes_in_progress = 429
status_of daily_limit = 429
status_of reserved = 403
status_of bad_maker_token = 403
status_of bad_taker_token = 403
status_of _ = 400

-- The value of a test that may throw.
pub data Checked {ℓ} (A : Type ℓ) : Type ℓ where
  fails : ApiError → Checked A
  passes : A → Checked A

pub record AmountBounds : Type 0 where
  pub min_base_units : ℕ
  pub max_base_units : ℕ

pub record Asset : Type 0 where
  pub symbol : Text
  pub decimals : ℕ
  pub bounds : AmountBounds

abbrev pub qrl_bounds : AmountBounds
qrl_bounds = record { min_base_units = 10 ^ 15; max_base_units = 10 ^ 24 }

abbrev pub eth : Asset
eth = record {
  symbol = codes "ETH";
  decimals = 18;
  bounds = record { min_base_units = 10 ^ 15; max_base_units = 10 ^ 24 };
}

abbrev pub usdc : Asset
usdc = record {
  symbol = codes "USDC";
  decimals = 6;
  bounds = record { min_base_units = 10 ^ 6; max_base_units = 10 ^ 13 };
}

abbrev pub tusdt : Asset
tusdt = record {
  symbol = codes "tUSDT";
  decimals = 6;
  bounds = record { min_base_units = 10 ^ 6; max_base_units = 10 ^ 13 };
}

unfoldable pub require_asset : Json → Checked Asset
unfolding text_eq
require_asset absent = passes eth
require_asset (text raw) =
    if text_eq raw (codes "ETH")
    then passes eth
    else if text_eq raw (codes "USDC")
    then passes usdc
    else if text_eq raw (codes "tUSDT")
    then passes tusdt
    else fails bad_asset
require_asset (integer _) = fails bad_asset
require_asset other = fails bad_asset

unfoldable pub require_direction : Json → Checked Direction
unfolding text_eq
require_direction (text raw) =
    if text_eq raw (codes "eth->qrl")
    then passes eth_to_qrl
    else if text_eq raw (codes "qrl->eth")
    then passes qrl_to_eth
    else fails bad_direction
require_direction _ = fails bad_direction

abbrev pub is_digit : ℕ → Bool
is_digit c = leb b'0' c && leb c b'9'

-- `/^[0-9]{1,30}$/`
unfoldable pub is_amount : Text → Bool
is_amount raw = leb 1 (length raw) && (leb (length raw) 30 && all is_digit raw)

-- `BigInt` of a string of digits, after the digits that were read.
unfoldable pub big_int : ℕ → Text → ℕ
big_int read [] = read
big_int read (c ∷ cs) = big_int (read * 10 + (c - b'0')) cs

-- The number that the amount's string stands for.
unfoldable pub require_amount : Json → AmountBounds → Checked ℕ
unfolding is_amount big_int
require_amount (text raw) bounds =
    if is_amount raw
    then (if ltb (big_int 0 raw) bounds.min_base_units
        then fails below_minimum
        else if ltb bounds.max_base_units (big_int 0 raw)
        then fails above_maximum
        else passes (big_int 0 raw))
    else fails bad_amount
require_amount _ bounds = fails bad_amount

unfoldable pub require_address : Json → (Text → Bool) → Checked Text
require_address (text raw) re = if re raw then passes raw else fails bad_address
require_address _ re = fails bad_address
