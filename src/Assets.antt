-- ===== src/Assets.antt =====
-- The Ethereum-leg asset registry (marketmaker/src/assets.ts, mirrored by the browser's
-- lib/assetRegistry.ts).
use quanta_swap.Prelude.{ℕ, ◌^◌, Bool, true, false, Option, none, some, Text, codes}

pub data AssetSymbol : Type 0 where
  eth usdc tusdt : AssetSymbol

pub record AssetQuirks : Type 0 where
  pub approval_race : Bool
  pub no_return_value : Bool
  pub issuer_blocklist : Bool

pub record PriceIds : Type 0 where
  pub coingecko : Text
  pub coinpaprika : Text

pub record AssetInfo : Type 0 where
  pub symbol : AssetSymbol
  pub token_address : Option Text
  pub decimals : ℕ
  pub min_base_units : ℕ
  pub quirks : AssetQuirks
  pub price_ids : Option PriceIds

abbrev no_quirks : AssetQuirks
no_quirks = record { approval_race = false; no_return_value = false; issuer_blocklist = false }

unfoldable pub asset_info : AssetSymbol → AssetInfo
asset_info eth = record {
  symbol = eth;
  token_address = none;
  decimals = 18;
  min_base_units = 10 ^ 15;
  quirks = no_quirks;
  price_ids = some (record { coingecko = codes "ethereum"; coinpaprika = codes "eth-ethereum" });
}
asset_info usdc = record {
  symbol = usdc;
  token_address = some (codes "0x1c7D4B196Cb0C7B01d743Fbc6116a902379C7238");
  decimals = 6;
  min_base_units = 10 ^ 6;
  quirks = record no_quirks { issuer_blocklist = true };
  price_ids = some (record { coingecko = codes "usd-coin"; coinpaprika = codes "usdc-usd-coin" });
}
asset_info tusdt = record {
  symbol = tusdt;
  token_address = some (codes "0x027847Dc41C7a3198a28B9c7B27B5a0BC5bD23A0");
  decimals = 6;
  min_base_units = 10 ^ 6;
  quirks = record no_quirks { approval_race = true; no_return_value = true };
  price_ids = none;
}
