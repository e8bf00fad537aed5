-- ===== src/Examples/Listings.antt =====
-- Quotes, listings, intents, credits, addresses and prices on concrete data.
use Prim.Native.Nat.{Ordering, compare}
use quanta_swap.Prelude.{
  ℕ, ◌*◌, ◌/◌, ◌^◌, ◌≤◌, ◌≡◌, refl, true, false, Option, none, some, [], ◌∷◌, ◌++◌, Text, codes,
  replicate, length, ltb, if◌then◌else◌, lower, upper, is_hex, is_a_to_f, text_eq, arith,
}
use quanta_swap.Prelude.Int.{pos}
use quanta_swap.Address.{
  same_addr, is_qip55_qrl_address, is_q_hex, canonical_qip55_qrl_address, checksummed_hex,
  checksum_from,
}
use quanta_swap.Address.Canonical.{canonical_address}
use quanta_swap.Chain.{eth_to_qrl, qrl_to_eth}
use quanta_swap.Maker.Order.{SelectedFillIntent}
use quanta_swap.Maker.Intents.{earliest_valid_fill_intent}
use quanta_swap.Maker.Intents.Choice.{IsEarliest, earliest_valid_fill_intent-IsEarliest}
use quanta_swap.Maker.Attempts.{Attempts, sent, failed}
use quanta_swap.Maker.Quote.{QuoteArgs, level_quote}
use quanta_swap.Maker.Quote.Spread.{fair_value, units_of, quote_spread}
use quanta_swap.Maker.Refill.{RefillInput, total_open}
use quanta_swap.Maker.Feed.{PriceSource, FeedOptions, PriceFeed, maybe_refresh}
use quanta_swap.Maker.Feed.Fresh.{Advances, maybe_refresh-Advances}
use quanta_swap.Examples.Data.{no_digest}

-- An account in upper case, and its canonical form.
abbrev shouted : Text
shouted = codes "Q" ++ replicate 128 b'A'

abbrev calm : Text
calm = codes "Q" ++ replicate 128 b'a'

canonical : canonical_qip55_qrl_address no_digest shouted ≡ some calm
unfolding canonical_qip55_qrl_address is_qip55_qrl_address is_q_hex checksummed_hex checksum_from
    is_hex is_a_to_f lower upper text_eq
canonical = refl

canonical_address_example :
    (is_qip55_qrl_address no_digest calm ≡ true)
    × (canonical_qip55_qrl_address no_digest calm ≡ some calm)
    × (same_addr no_digest calm shouted ≡ some true)
canonical_address_example = canonical_address no_digest shouted calm canonical

-- The order of texts by length.
abbrev by_length : Text → Text → Ordering
by_length a b = compare (length a) (length b)

abbrev intent_at : ℕ → ℕ → SelectedFillIntent
intent_at issued_at received_at = record {
  intent_digest = codes "i";
  intent = record { order_digest = codes "d" };
  auth = record {
    issued_at = issued_at;
    expires_at = 2000;
    nonce = codes "n";
    signature = codes "s";
    public_key = codes "k";
    descriptor = codes "e";
  };
  received_at = received_at;
}

earliest_valid_fill_intent-IsEarliest_example :
    IsEarliest
      (codes "d")
      1000
      (λ _. true)
      (intent_at 900 950 ∷ intent_at 10 960 ∷ [])
      (earliest_valid_fill_intent by_length
        (intent_at 900 950 ∷ intent_at 10 960 ∷ [])
        (codes "d")
        1000
        (λ _. true))
earliest_valid_fill_intent-IsEarliest_example =
    earliest_valid_fill_intent-IsEarliest by_length (intent_at 900 950 ∷ intent_at 10 960 ∷ [])
      (codes "d") 1000 (λ _. true)

-- 5 ETH at 3 QRL each, with a step of half a percent.
abbrev first_rung : QuoteArgs
first_rung = record {
  direction = eth_to_qrl;
  level = 0;
  base_units = 5 * 10 ^ 18;
  mid_price_milli = 3000;
  step_bps = 50;
  asset_decimals = 18;
}

quote_spread_example :
    (ask bid : ℕ) × (level_quote (record first_rung { direction = eth_to_qrl })
      ≡ some (record { from_amount = pos (units_of first_rung); to_amount = pos ask }))
    × (level_quote (record first_rung { direction = qrl_to_eth })
        ≡ some (record { from_amount = pos bid; to_amount = pos (units_of first_rung) }))
    × (bid ≤ fair_value first_rung)
    × (fair_value first_rung ≤ ask)
quote_spread_example = quote_spread first_rung (omega arith) (omega arith)

-- One listing is open, on the second of two rungs.
abbrev one_open : ℕ → ℕ
one_open level = if ltb 0 level then 1 else 0

abbrev refill : RefillInput
refill = record {
  direction = eth_to_qrl;
  my_open_count = 1;
  orders_per_direction = 2;
  orders_per_level = 1;
  inflight_count = 0;
  max_inflight = 4;
  balance_wei = 100;
  reserve_wei = 10;
  order_wei = 20;
  gas_balance_wei = 9;
  gas_reserve_wei = 5;
}

counted : refill.my_open_count ≡ total_open one_open refill.orders_per_direction
unfolding total_open
counted = refl

-- Two rejections around a send that the network lost, and one that went out.
abbrev tries : Attempts
tries = (100, failed true 110) ∷ (200, failed false 210) ∷ (300, failed true 310) ∷ (400, sent) ∷ []

-- A USD price in cents; the mid is the quotient in thousandths.
abbrev mid_of_cents : ℕ → ℕ → Option ℕ
mid_of_cents base qrl = if ltb 0 qrl then some (base * 1000 / qrl) else none

abbrev cents_source : PriceSource ℕ
cents_source = record {
  name = codes "cents";
  min_interval = 0;
  fetch = λ _. some (record {
    qrl = record { usd = 50; at = some 990 };
    assets = λ _. some (record { usd = 300000; at = none });
  });
}

abbrev options : FeedOptions ℕ
options = record { sources = cents_source ∷ []; refresh = 60; max_age = 600; static_milli = none }

abbrev cold_feed : PriceFeed ℕ
cold_feed = record { mids = λ _. none; last_attempts = []; last_fetch_at = 0 }

maybe_refresh-Advances_example :
    Advances options 1000 cold_feed.mids (maybe_refresh mid_of_cents options 1000 cold_feed).mids
maybe_refresh-Advances_example = maybe_refresh-Advances mid_of_cents options 1000 cold_feed
