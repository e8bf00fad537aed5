-- ===== src/Maker/Quote.antt =====
-- One rung of the price ladder (`levelQuote` of marketmaker/src/policy.ts). Amounts are kept as
-- numbers, which the source prints in decimal.
pub mod Spread
use quanta_swap.Prelude.{ℕ, ◌+◌, ◌-◌, ◌*◌, ◌/◌, ◌^◌, Bool, Option, none, some, leb, if◌then◌else◌}
use quanta_swap.Prelude.Int.{ℤ, pos, negsuc, neg, sub_ℕ, ◌*ℕ◌, ◌/ℕ◌}
use quanta_swap.Chain.{Direction, eth_to_qrl, qrl_to_eth}

pub record LevelQuote : Type 0 where
  pub from_amount : ℤ
  pub to_amount : ℤ

pub record QuoteArgs : Type 0 where
  pub direction : Direction
  pub level : ℕ
  pub base_units : ℕ
  pub mid_price_milli : ℕ
  pub step_bps : ℕ
  pub asset_decimals : ℕ

unfoldable pub price_milli : Direction → ℕ → ℕ → ℤ
price_milli eth_to_qrl mid offset_bps = pos (mid * (10000 + offset_bps) / 10000)
price_milli qrl_to_eth mid offset_bps = sub_ℕ 10000 offset_bps *ℕ mid /ℕ 10000

sides : Direction → ℤ → ℤ → LevelQuote
sides eth_to_qrl units qrl_wei = record { from_amount = units; to_amount = qrl_wei }
sides qrl_to_eth units qrl_wei = record { from_amount = qrl_wei; to_amount = units }

-- A negative exponent, of an asset with more than 18 decimals, throws.
unfoldable pub level_quote : QuoteArgs → Option LevelQuote
unfolding price_milli sides
level_quote args =
    let rung = args.level + 1 in
    let units = args.base_units * rung in
    let offset_bps = args.step_bps * rung in
    let price = price_milli args.direction args.mid_price_milli offset_bps in
    let qrl_wei = price *ℕ units *ℕ (10 ^ (18 - args.asset_decimals)) /ℕ 1000 in
    if leb args.asset_decimals 18 then some (sides args.direction (pos units) qrl_wei) else none
