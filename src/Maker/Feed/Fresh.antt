-- ===== src/Maker/Feed/Fresh.antt =====
-- What a refresh of the price feed (marketmaker/src/price.ts) may put into its cache.
use quanta_swap.Prelude.{
  ℕ, ◌+◌, ◌≤◌, ◌≡◌, refl, sym, ◌∙◌, ◌⊎◌, inl, inr, true, not, Option, none, some, List, [], ◌∷◌,
  ltb, if◌then◌else◌, is_null, Bool-cases, if_true, if_false, if_either, option_either, arith,
}
use quanta_swap.Assets.{AssetSymbol, eth, usdc, tusdt}
use quanta_swap.Maker.Feed.{
  Mid, is_symbol, set_mid, feed_symbols, UsdQuote, UsdQuotes, PriceSource, FeedOptions, PriceFeed,
  quoted_at, timely, usable, apply, refresh_from, maybe_refresh,
}

-- `is_symbol` decides equality.
symbol_eq : (a b : AssetSymbol) → is_symbol a b ≡ true → a ≡ b
symbol_eq eth eth h = refl
symbol_eq usdc usdc h = refl
symbol_eq tusdt tusdt h = refl
symbol_eq eth usdc h = ground arith
symbol_eq eth tusdt h = ground arith
symbol_eq usdc eth h = ground arith
symbol_eq usdc tusdt h = ground arith
symbol_eq tusdt eth h = ground arith
symbol_eq tusdt usdc h = ground arith

module _ {Usd : Type 0} where
  -- A mid that may replace what the cache holds: not from the future, not over the age limit, and
  -- not older than the mid before it.
  pub record IsUpdate (opts : FeedOptions Usd) (now : ℕ) (before : Option Mid) (mid : Mid)
      : Type 0 where
    pub past : mid.at ≤ now
    pub young : now ≤ mid.at + opts.max_age
    pub newer : (prev : Mid) → before ≡ some prev → prev.at ≤ mid.at

  -- Each symbol keeps its mid or has an update of it.
  abbrev pub Advances :
      FeedOptions Usd → ℕ → (AssetSymbol → Option Mid) → (AssetSymbol → Option Mid) → Type 0
  Advances opts now mids after =
      (s : AssetSymbol)
      → (after s ≡ mids s) ⊎ ((mid : Mid) × (after s ≡ some mid) × IsUpdate opts now (mids s) mid)

  Advances-refl :
      (opts : FeedOptions Usd) (now : ℕ) (mids : AssetSymbol → Option Mid)
      → Advances opts now mids mids
  Advances-refl opts now mids s = inl refl

  IsUpdate-trans :
      (opts : FeedOptions Usd) (now : ℕ) (a : Option Mid) (b : Option Mid) (m n : Mid)
      → b ≡ some m
      → IsUpdate opts now a m
      → IsUpdate opts now b n
      → IsUpdate opts now a n
  IsUpdate-trans opts now a b m n e u v = record {
    past = v.past;
    young = v.young;
    newer = λ p h. omega (arith, u.newer p h, v.newer m e);
  }

  Advances-trans :
      (opts : FeedOptions Usd) (now : ℕ) (a b c : AssetSymbol → Option Mid)
      → Advances opts now a b
      → Advances opts now b c
      → Advances opts now a c
  Advances-trans opts now a b c f g s = elim (g s) [
    | inl e ↦ elim (f s) [ inl d ↦ inl (e ∙ d) | inr (m, d, u) ↦ inr (m, e ∙ d, u) ]
    | inr (n, e, v) ↦ elim (f s) [
      | inl d ↦ inr (n, e, rw (sym d) v)
      | inr (m, d, u) ↦ inr (n, e, IsUpdate-trans opts now (a s) (b s) m n d u v)
    ]
  ]

  Advances-set :
      (opts : FeedOptions Usd) (now : ℕ) (mids : AssetSymbol → Option Mid) (symbol : AssetSymbol)
      (mid : Mid)
      → IsUpdate opts now (mids symbol) mid
      → Advances opts now mids (set_mid symbol mid mids)
  unfolding set_mid
  Advances-set opts now mids symbol mid u s = elim (Bool-cases (is_symbol symbol s)) [
    | inl h ↦ inr (mid, if_true _ _ _ h, rw (sym (symbol_eq symbol s h)) u)
    | inr h ↦ inl (if_false _ _ _ h)
  ]

  quoted_past : (now : ℕ) (q a : UsdQuote Usd) → quoted_at now q a ≤ now
  quoted_past now q a = omega arith

  timely-IsUpdate :
      (opts : FeedOptions Usd) (now : ℕ) (prev : Option Mid) (mid m : Mid)
      → m.at ≤ now
      → timely opts now prev m ≡ some mid
      → IsUpdate opts now prev mid
  unfolding timely
  timely-IsUpdate opts now prev mid m w h = record {
    past = ground arith;
    young = ground arith;
    newer = λ p e. ground arith;
  }

module _ {Usd : Type 0} (mid_milli_from_usd : Usd → Usd → Option ℕ) where
  usable-IsUpdate :
      (opts : FeedOptions Usd) (now : ℕ) (quotes : UsdQuotes Usd) (mids : AssetSymbol → Option Mid)
      (symbol : AssetSymbol) (mid : Mid)
      → usable mid_milli_from_usd opts now quotes mids symbol ≡ some mid
      → IsUpdate opts now (mids symbol) mid
  unfolding usable
  usable-IsUpdate opts now quotes mids symbol mid =
      option_either (λ (o : Option Mid). o ≡ some mid → IsUpdate opts now (mids symbol) mid)
        (quotes.assets symbol) none _ (λ h. ground arith)
        (λ quote _.
          option_either (λ (o : Option Mid). o ≡ some mid → IsUpdate opts now (mids symbol) mid)
            (mid_milli_from_usd quote.usd quotes.qrl.usd) none _ (λ h. ground arith)
            (λ milli _.
              timely-IsUpdate opts now (mids symbol) mid _ (quoted_past now quotes.qrl quote)))

  apply-Advances :
      (opts : FeedOptions Usd) (now : ℕ) (quotes : UsdQuotes Usd) (pending : List AssetSymbol)
      (mids : AssetSymbol → Option Mid)
      → Advances opts now mids (apply mid_milli_from_usd opts now quotes pending mids).0
  unfolding apply
  apply-Advances opts now quotes [] mids = Advances-refl opts now mids
  apply-Advances opts now quotes (symbol ∷ pending) mids =
      option_either
        (λ (r : (AssetSymbol → Option Mid) × List AssetSymbol). Advances opts now mids r.0)
        (usable mid_milli_from_usd opts now quotes mids symbol) _ _
        (apply-Advances opts now quotes pending mids)
        (λ mid e.
          Advances-trans opts now mids (set_mid symbol mid mids) _
            (Advances-set opts now mids symbol mid
              (usable-IsUpdate opts now quotes mids symbol mid e))
            (apply-Advances opts now quotes pending (set_mid symbol mid mids)))

  refresh_from-Advances :
      (opts : FeedOptions Usd) (now : ℕ) (sources : List (PriceSource Usd))
      (pending : List AssetSymbol) (feed : PriceFeed Usd)
      → Advances opts now feed.mids
          (refresh_from mid_milli_from_usd opts now sources pending feed).mids
  unfolding refresh_from
  refresh_from-Advances opts now [] pending feed = Advances-refl opts now feed.mids
  refresh_from-Advances opts now (source ∷ sources) [] feed = Advances-refl opts now feed.mids
  refresh_from-Advances opts now (source ∷ sources) (s ∷ pending) feed =
      let P : PriceFeed Usd → Type 0 = λ f. Advances opts now feed.mids f.mids in
      if_either P _ _ _ (refresh_from-Advances opts now sources (s ∷ pending) feed) (
        option_either P (source.fetch (s ∷ pending)) _ _
          (refresh_from-Advances opts now sources (s ∷ pending) _)
          (λ quotes _.
            Advances-trans opts now feed.mids
              (apply mid_milli_from_usd opts now quotes (s ∷ pending) feed.mids).0 _
              (apply-Advances opts now quotes (s ∷ pending) feed.mids)
              (refresh_from-Advances opts now sources _ _)))

  -- A refresh never drops the mid of a symbol. Each mid is kept, or replaced by one that is not from
  -- the future, not over the age limit and not older than the one before it, whatever the sources
  -- answer, in whatever order, and whichever of them fail.
  pub maybe_refresh-Advances :
      (opts : FeedOptions Usd) (now : ℕ) (feed : PriceFeed Usd)
      → Advances opts now feed.mids (maybe_refresh mid_milli_from_usd opts now feed).mids
  unfolding maybe_refresh
  maybe_refresh-Advances opts now feed =
      let P : PriceFeed Usd → Type 0 = λ f. Advances opts now feed.mids f.mids in
      let begun = record feed { last_fetch_at = now } in
      let refreshed = refresh_from mid_milli_from_usd opts now opts.sources feed_symbols begun in
      let due =
        if_either P (ltb now (feed.last_fetch_at + opts.refresh)) feed refreshed
          (Advances-refl opts now feed.mids)
          (refresh_from-Advances opts now opts.sources feed_symbols begun) in
      if_either P (not (is_null opts.static_milli)) feed
        (if ltb now (feed.last_fetch_at + opts.refresh) then feed else refreshed)
        (Advances-refl opts now feed.mids) due
