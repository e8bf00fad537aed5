-- ===== src/Taker/Plan.antt =====
-- The agreed terms of both legs (`takerLegPlans` of marketmaker/src/taker-policy.ts).
use quanta_swap.Prelude.{ℕ, Text, or_else}
use quanta_swap.Address.{native_token, qrl_native_token}
use quanta_swap.Assets.{AssetSymbol, asset_info}
use quanta_swap.Chain.{LegKey, eth_leg, qrl_leg, Direction, initiator_leg, responder_leg}

-- `AssetSymbol | "QRL"`
pub data PlanAsset : Type 0 where
  registry : AssetSymbol → PlanAsset
  qrl : PlanAsset

pub record TakerLegPlan : Type 0 where
  pub leg : LegKey
  pub recipient : Text
  pub amount : ℕ
  pub expected_token : Text
  pub timeout : ℕ
  pub asset : PlanAsset
  pub decimals : ℕ

pub record TakerPlanInput : Type 0 where
  pub direction : Direction
  pub asset : AssetSymbol
  pub from_amount : ℕ
  pub to_amount : ℕ
  pub maker_eth_account : Text
  pub maker_qrl_account : Text
  pub taker_eth_account : Text
  pub taker_qrl_account : Text
  pub initiator_timeout : ℕ
  pub responder_timeout : ℕ

pub record TakerPlans : Type 0 where
  pub initiator : TakerLegPlan
  pub responder : TakerLegPlan

unfoldable pub expected_token : LegKey → AssetSymbol → Text
unfolding asset_info
expected_token qrl_leg asset = qrl_native_token
expected_token eth_leg asset = or_else (asset_info asset).token_address native_token

-- `legAsset`, its two fields apart
leg_asset : LegKey → AssetSymbol → PlanAsset
leg_asset qrl_leg asset = qrl
leg_asset eth_leg asset = registry asset

leg_decimals : LegKey → AssetSymbol → ℕ
unfolding asset_info
leg_decimals qrl_leg asset = 18
leg_decimals eth_leg asset = (asset_info asset).decimals

-- `leg === "eth" ? eth : qrl`
abbrev pub on_leg {ℓ} : {A : Type ℓ} → LegKey → A → A → A
on_leg eth_leg e q = e
on_leg qrl_leg e q = q

unfoldable pub taker_leg_plans : TakerPlanInput → TakerPlans
unfolding expected_token leg_asset leg_decimals initiator_leg responder_leg
taker_leg_plans input =
    let i_leg = initiator_leg input.direction in
    let r_leg = responder_leg input.direction in
    record {
      initiator = record {
        leg = i_leg;
        recipient = on_leg i_leg input.taker_eth_account input.taker_qrl_account;
        amount = input.from_amount;
        expected_token = expected_token i_leg input.asset;
        timeout = input.initiator_timeout;
        asset = leg_asset i_leg input.asset;
        decimals = leg_decimals i_leg input.asset;
      };
      responder = record {
        leg = r_leg;
        recipient = on_leg r_leg input.maker_eth_account input.maker_qrl_account;
        amount = input.to_amount;
        expected_token = expected_token r_leg input.asset;
        timeout = input.responder_timeout;
        asset = leg_asset r_leg input.asset;
        decimals = leg_decimals r_leg input.asset;
      };
    }
