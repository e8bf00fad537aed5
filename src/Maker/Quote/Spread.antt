-- ===== src/Maker/Quote/Spread.antt =====
-- The ladder's spread (`levelQuote` of marketmaker/src/policy.ts).
use quanta_swap.Prelude.{ℕ, ◌+◌, ◌-◌, ◌*◌, ◌/◌, ◌^◌, ◌≤◌, ◌≡◌, some, arith, le→leb}
use quanta_swap.Prelude.Int.{pos}
use quanta_swap.Chain.{eth_to_qrl, qrl_to_eth}
use quanta_swap.Maker.Quote.{QuoteArgs, level_quote}

div_mono : (a b d : ℕ) → a ≤ b → a / d ≤ b / d
div_mono a b d h = grind arith

ask-ge-mid : (mid off : ℕ) → mid ≤ mid * (10000 + off) / 10000
ask-ge-mid mid off = omega arith

below_ten_thousand : (d m : ℕ) → d ≤ 10000 → d * m ≤ 10000 * m
below_ten_thousand d m h = grind arith

bid-le-mid : (mid off : ℕ) → (10000 - off) * mid / 10000 ≤ mid
bid-le-mid mid off = omega (arith, below_ten_thousand (10000 - off) mid (omega arith))

scaled_mono : (a b u k : ℕ) → a ≤ b → a * u * k / 1000 ≤ b * u * k / 1000
scaled_mono a b u k h = div_mono (a * u * k) (b * u * k) 1000 (grind arith)

-- What a rung's units are worth at the mid, in QRL wei.
abbrev pub fair_value : QuoteArgs → ℕ
fair_value args =
    args.mid_price_milli
    * (args.base_units * (args.level + 1))
    * 10 ^ (18 - args.asset_decimals)
    / 1000

abbrev pub units_of : QuoteArgs → ℕ
units_of args = args.base_units * (args.level + 1)

-- Both sides of one rung trade the same number of units, of an asset with at most 18 decimals. As
-- long as the rung's offset is at most the whole price, the maker asks for at least what they are
-- worth at the mid, and bids at most that.
pub quote_spread :
    (args : QuoteArgs)
    → args.asset_decimals ≤ 18
    → args.step_bps * (args.level + 1) ≤ 10000
    → (ask bid : ℕ) × (level_quote (record args { direction = eth_to_qrl })
        ≡ some (record { from_amount = pos (units_of args); to_amount = pos ask }))
      × (level_quote (record args { direction = qrl_to_eth })
          ≡ some (record { from_amount = pos bid; to_amount = pos (units_of args) }))
      × (bid ≤ fair_value args)
      × (fair_value args ≤ ask)
unfolding level_quote
quote_spread args d o =
    let off = args.step_bps * (args.level + 1) in
    let mid = args.mid_price_milli in
    let u = units_of args in
    let k = 10 ^ (18 - args.asset_decimals) in
    (
      mid * (10000 + off) / 10000 * u * k / 1000,
      (10000 - off) * mid / 10000 * u * k / 1000,
      rw (le→leb _ _ d),
      rw (le→leb _ _ d, le→leb _ _ o),
      scaled_mono _ _ u k (bid-le-mid mid off),
      scaled_mono _ _ u k (ask-ge-mid mid off),
    )
