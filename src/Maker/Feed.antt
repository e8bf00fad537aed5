-- ===== src/Maker/Feed.antt =====
-- The price feed (`PriceFeed` of marketmaker/src/price.ts). A USD price is a floating-point number:
-- its type and `midMilliFromUsd`, which divides two of them and rounds, are parameters. The feed is
-- refreshed at one instant, so a source is the function from the asked assets to its answer, or
-- `none` where it throws. Log lines are left out.
pub mod Fresh
use quanta_swap.Prelude.{
  ℕ, ◌+◌, ◌*◌, ◌-◌, min, Bool, true, false, not, ◌&&◌, ◌||◌, Option, none, some, List, [], ◌∷◌, leb,
  ltb, if◌then◌else◌, Text, text_eq, or_else, is_null, on_option, filter_by,
}
use quanta_swap.Assets.{AssetSymbol, eth, usdc, tusdt, asset_info}

unfoldable pub needs_reprice : ℕ → ℕ → ℕ → Bool
needs_reprice quoted current threshold_bps =
    let diff = if ltb current quoted then quoted - current else current - quoted in
    ltb (current * threshold_bps) (diff * 10000)

pub record Mid : Type 0 where
  pub milli : ℕ
  pub at : ℕ

abbrev pub is_symbol : AssetSymbol → AssetSymbol → Bool
is_symbol eth eth = true
is_symbol usdc usdc = true
is_symbol tusdt tusdt = true
is_symbol _ _ = false

-- `mids.set(symbol, mid)`
unfoldable pub set_mid : AssetSymbol → Mid → (AssetSymbol → Option Mid) → AssetSymbol → Option Mid
set_mid symbol mid mids other = if is_symbol symbol other then some mid else mids other

unfoldable pub feed_symbols : List AssetSymbol
unfolding asset_info
feed_symbols = filter_by (λ s. not (is_null (asset_info s).price_ids)) (eth ∷ usdc ∷ tusdt ∷ [])

-- `lastAttemptAtS.get(name)`, the last entry first.
unfoldable pub last_attempt : Text → List (Text × ℕ) → Option ℕ
last_attempt name [] = none
last_attempt name ((n, at) ∷ attempts) =
    let rest = last_attempt name attempts in if text_eq n name then some at else rest

-- `x !== undefined && test(x)`
abbrev pub defined_and {ℓ} : {A : Type ℓ} → Option A → (A → Bool) → Bool
defined_and none test = false
defined_and (some a) test = test a

module _ (Usd : Type 0) where
  pub record UsdQuote : Type 0 where
    pub usd : Usd
    pub at : Option ℕ

  pub record UsdQuotes : Type 0 where
    pub qrl : UsdQuote
    pub assets : AssetSymbol → Option UsdQuote

  pub record PriceSource : Type 0 where
    pub name : Text
    pub min_interval : ℕ
    pub fetch : List AssetSymbol → Option UsdQuotes

  pub record FeedOptions : Type 0 where
    pub sources : List PriceSource
    pub refresh : ℕ
    pub max_age : ℕ
    pub static_milli : Option ℕ

  pub record PriceFeed : Type 0 where
    pub mids : AssetSymbol → Option Mid
    pub last_attempts : List (Text × ℕ)
    pub last_fetch_at : ℕ

-- `current`
module _ {Usd : Type 0} where
  unfoldable pub current : FeedOptions Usd → PriceFeed Usd → ℕ → AssetSymbol → Option ℕ
  current opts feed now asset = elim opts.static_milli [
    | some milli ↦ if is_symbol asset eth then some milli else none
    | none ↦ elim (feed.mids asset) [
      | none ↦ none
      | some cached ↦ if ltb (cached.at + opts.max_age) now then none else some cached.milli
    ]
  ]

  -- The upstream time of a mid: the oldest of the two quotes, and not later than now.
  abbrev pub quoted_at : ℕ → UsdQuote Usd → UsdQuote Usd → ℕ
  quoted_at now qrl quote = min now (min (or_else qrl.at now) (or_else quote.at now))

  -- The mid, unless it is over the age limit or older than the one in the cache.
  unfoldable pub timely : FeedOptions Usd → ℕ → Option Mid → Mid → Option Mid
  timely opts now prev mid =
      if ltb (mid.at + opts.max_age) now
      then none
      else if defined_and prev (λ p. ltb mid.at p.at)
      then none
      else some mid

module _ {Usd : Type 0} (mid_milli_from_usd : Usd → Usd → Option ℕ) where
  -- The mid that `apply` caches for a symbol, if it does.
  unfoldable pub usable :
      FeedOptions Usd → ℕ → UsdQuotes Usd → (AssetSymbol → Option Mid) → AssetSymbol → Option Mid
  unfolding timely
  usable opts now quotes mids symbol = on_option (quotes.assets symbol) none (λ quote.
      on_option (mid_milli_from_usd quote.usd quotes.qrl.usd) none (λ milli.
        timely opts now (mids symbol)
          (record { milli = milli; at = quoted_at now quotes.qrl quote })))

  -- The mids after `apply`, and the symbols that are still pending.
  unfoldable pub apply :
      FeedOptions Usd
      → ℕ
      → UsdQuotes Usd
      → List AssetSymbol
      → (AssetSymbol → Option Mid)
      → (AssetSymbol → Option Mid) × List AssetSymbol
  unfolding usable set_mid
  apply opts now quotes [] mids = (mids, [])
  apply opts now quotes (symbol ∷ pending) mids =
      let skipped = apply opts now quotes pending mids in
      on_option (usable opts now quotes mids symbol) (skipped.0, symbol ∷ skipped.1)
        (λ mid. apply opts now quotes pending (set_mid symbol mid mids))

  -- The loop over the sources.
  unfoldable pub refresh_from :
      FeedOptions Usd
      → ℕ
      → List (PriceSource Usd)
      → List AssetSymbol
      → PriceFeed Usd
      → PriceFeed Usd
  unfolding apply last_attempt
  refresh_from opts now [] pending feed = feed
  refresh_from opts now (source ∷ sources) [] feed = feed
  refresh_from opts now (source ∷ sources) (s ∷ pending) feed =
      let tried = record feed { last_attempts = (source.name, now) ∷ feed.last_attempts } in
      if defined_and (last_attempt source.name feed.last_attempts)
        (λ at. ltb now (at + source.min_interval))
      then refresh_from opts now sources (s ∷ pending) feed
      else on_option (source.fetch (s ∷ pending))
          (refresh_from opts now sources (s ∷ pending) tried)
          (λ quotes.
            let after = apply opts now quotes (s ∷ pending) feed.mids in
            refresh_from opts now sources after.1 (record tried { mids = after.0 }))

  unfoldable pub maybe_refresh : FeedOptions Usd → ℕ → PriceFeed Usd → PriceFeed Usd
  unfolding refresh_from feed_symbols
  maybe_refresh opts now feed =
      if not (is_null opts.static_milli)
      then feed
      else if ltb now (feed.last_fetch_at + opts.refresh)
      then feed
      else refresh_from opts now opts.sources feed_symbols (record feed { last_fetch_at = now })
