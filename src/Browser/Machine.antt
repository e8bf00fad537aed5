-- ===== src/Browser/Machine.antt =====
-- The derivation of the swap's steps from the stored swap and the two chains
-- (frontend/src/lib/swapMachine.ts). A text that names an issue is a constructor, with the numbers
-- that the text shows. The browser's `sameAddr` and `qToHex` accept the texts that the market
-- maker's accept; its registry is `Assets`.
use quanta_swap.Prelude.{
  ℕ, Bool, true, false, not, ◌&&◌, ◌||◌, Option, none, some, [], ◌∷◌, Text, ◌==◌, if◌then◌else◌,
  or_else, text_eq,
}
use quanta_swap.Address.{native_token, qrl_native_token}
use quanta_swap.Assets.{AssetSymbol, asset_info}
use quanta_swap.Taker.Plan.{PlanAsset, registry, qrl, on_leg}
use quanta_swap.Chain.{
  LegKey, eth_leg, qrl_leg, Direction, initiator_leg, LegState, is_opened, zero_bytes32,
}

pub data Role : Type 0 where
  maker taker sandbox : Role

-- The fields of `ActiveSwap` that the machine reads. `prelocked` is `swap.prelocked === true`; the
-- decimal strings of the amounts are their values, and a text that `BigInt` refuses is not stored.
pub record ActiveSwap : Type 0 where
  pub role : Role
  pub direction : Direction
  pub eth_asset : AssetSymbol
  pub from_amount : ℕ
  pub to_amount : ℕ
  pub maker_eth_account : Text
  pub maker_qrl_account : Text
  pub taker_eth_account : Text
  pub taker_qrl_account : Text
  pub preimage : Option Text
  pub hashlock : Option Text
  pub initiator_timeout : Option ℕ
  pub responder_timeout : Option ℕ
  pub prelocked : Bool

-- `Partial<Record<LegKey, LegState>>`
pub record LegStates : Type 0 where
  pub eth_state : Option LegState
  pub qrl_state : Option LegState

pub record LegPlan : Type 0 where
  pub recipient : Text
  pub amount : ℕ
  pub expected_token : Text
  pub symbol : PlanAsset
  pub decimals : ℕ

pub data StepKey : Type 0 where
  lock_initiator assign_initiator lock_responder claim_responder claim_initiator : StepKey

pub data StepIssue : Type 0 where
  token_not_native wrong_token_contract not_your_address : StepIssue
  wrong_amount : ℕ → ℕ → StepIssue
  little_claim_window little_reveal_window hashlock_used claim_cutoff : StepIssue

pub record StepModel : Type 0 where
  pub key : StepKey
  pub leg : LegKey
  pub own : Bool
  pub done : Bool
  pub can_run : Bool
  pub issue : Option StepIssue
  pub awaiting_depth : Bool

pub record SwapMachineInput : Type 0 where
  pub swap : ActiveSwap
  pub legs : LegStates
  pub confirmed : LegStates
  pub now : ℕ

-- The two parties of a swap.
pub data Party : Type 0 where
  by_maker by_taker : Party

-- `CLAIM_MARGIN_S` of frontend/src/config.ts
abbrev pub claim_margin : ℕ
claim_margin = 1800

-- `legs[leg]`
abbrev pub state_on : LegStates → LegKey → Option LegState
state_on s leg = on_leg leg s.eth_state s.qrl_state

-- `state && test(state)`, with a missing state for `undefined`.
abbrev pub has : Option LegState → (LegState → Bool) → Bool
has none test = false
has (some state) test = test state

-- A text is truthy unless it is null or empty.
abbrev pub truthy : Option Text → Bool
truthy none = false
truthy (some []) = false
truthy (some (_ ∷ _)) = true

unfoldable pub addr_on : ActiveSwap → LegKey → Party → Text
addr_on swap eth_leg by_maker = swap.maker_eth_account
addr_on swap eth_leg by_taker = swap.taker_eth_account
addr_on swap qrl_leg by_maker = swap.maker_qrl_account
addr_on swap qrl_leg by_taker = swap.taker_qrl_account

abbrev pub is_leg : LegKey → LegKey → Bool
is_leg eth_leg eth_leg = true
is_leg qrl_leg qrl_leg = true
is_leg _ _ = false

unfoldable pub plan_for : ActiveSwap → LegKey → LegPlan
unfolding addr_on initiator_leg asset_info
plan_for swap leg =
    let on_initiator = is_leg leg (initiator_leg swap.direction) in
    record {
      recipient = addr_on swap leg (if on_initiator then by_taker else by_maker);
      amount = if on_initiator then swap.from_amount else swap.to_amount;
      expected_token =
          on_leg leg (or_else (asset_info swap.eth_asset).token_address native_token)
            qrl_native_token;
      symbol = on_leg leg (registry swap.eth_asset) qrl;
      decimals = on_leg leg (asset_info swap.eth_asset).decimals 18;
    }

unfoldable pub native_token_for_leg : LegKey → Text
native_token_for_leg qrl_leg = qrl_native_token
native_token_for_leg eth_leg = native_token

-- `mySteps`, by the position of the step.
unfoldable pub signs : Role → ℕ → Bool
signs sandbox step = true
signs maker step = step == 0 || step == 2
signs taker step = step == 1 || step == 3

abbrev pub is_open_state : Option LegState → Bool
is_open_state s = has s (λ st. is_opened st.status)

-- `latest && latest.status === Open && conf?.status !== Open`
unfoldable pub awaits_depth : Option LegState → Option LegState → Bool
awaits_depth latest conf = is_open_state latest && not (is_open_state conf)

unfoldable pub published_preimage : Option LegState → Option Text
published_preimage none = none
published_preimage (some state) =
    if text_eq state.preimage zero_bytes32 then none else some state.preimage
