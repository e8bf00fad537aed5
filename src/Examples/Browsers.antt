-- ===== src/Examples/Browsers.antt =====
-- The browser's steps on a concrete swap.
use quanta_swap.Prelude.{
  ℕ, ◌+◌, ◌<◌, ◌≡◌, ◌↔◌, refl, true, false, none, some, codes, lower, upper, is_hex, text_eq, arith,
}
use quanta_swap.Address.{same_addr, qrl_or_eth_hex, is_qip55_qrl_address, is_q_hex, is_0x_hex}
use quanta_swap.Assets.{eth, asset_info}
use quanta_swap.Chain.{
  LegState, eth_leg, no_swap, eth_to_qrl, claimed, initiator_leg, responder_leg,
}
use quanta_swap.Taker.Checks.{ok, check_maker_lock, leg_zero_address}
use quanta_swap.Browser.Machine.{
  ActiveSwap, taker, maker, SwapMachineInput, claim_margin, addr_on, plan_for, native_token_for_leg,
  published_preimage,
}
use quanta_swap.Browser.Steps.{
  r_state, i_confirmed, i_plan, same, token_issue, unassigned, awaiting_assign, lock_issue,
  initiator_issue, responder_issue, initiator_lock_issue, responder_lock_issue,
}
use quanta_swap.Browser.Derive.{
  machine_of, after_terms, derive_swap_machine, refundable, lock_responder_step,
  claim_responder_step, claim_initiator_step,
}
use quanta_swap.Browser.Commit.{FundingIsVerified, RevealIsVerified}
use quanta_swap.Browser.Payout.{IsClaimable, offered_then_claimable}
use quanta_swap.Browser.Agreement.{maker_plan, browser-check_maker_lock}
use quanta_swap.Browser.Entry.{derive_swap_machine_steps, derive_swap_machine-RevealIsVerified}
use quanta_swap.Browser.Ownership.{includes, funds, IsExpired, refundable_iff}
use quanta_swap.Examples.Data.{
  no_digest, secret, maker_eth, taker_eth, maker_qrl, taker_qrl, maker_escrow, taker_escrow,
  taker_empty,
}

abbrev taker_swap : ActiveSwap
taker_swap = record {
  role = taker;
  direction = eth_to_qrl;
  eth_asset = eth;
  from_amount = 10;
  to_amount = 20;
  maker_eth_account = maker_eth;
  maker_qrl_account = maker_qrl;
  taker_eth_account = taker_eth;
  taker_qrl_account = taker_qrl;
  preimage = none;
  hashlock = some (codes "h");
  initiator_timeout = some 10000;
  responder_timeout = some 5000;
  prelocked = false;
}

-- The maker's escrow is confirmed, and the taker's leg is empty.
abbrev to_fund : SwapMachineInput
to_fund = record {
  swap = taker_swap;
  legs = record { eth_state = some maker_escrow; qrl_state = some taker_empty };
  confirmed = record { eth_state = some maker_escrow; qrl_state = some taker_empty };
  now = 1000;
}

-- The maker has claimed the taker's escrow.
abbrev to_claim : SwapMachineInput
to_claim = record to_fund {
  legs = record {
    eth_state = some maker_escrow;
    qrl_state = some (record taker_escrow { status = claimed; preimage = secret });
  };
  now = 4000;
}

-- The maker sees both escrows.
abbrev to_reveal : SwapMachineInput
to_reveal = record to_fund {
  swap = record taker_swap { role = maker; preimage = some secret };
  legs = record { eth_state = some maker_escrow; qrl_state = some taker_escrow };
  confirmed = record { eth_state = some maker_escrow; qrl_state = some taker_escrow };
}

offers : (lock_responder_step no_digest to_fund 5000).can_run ≡ true
unfolding lock_responder_step claim_responder_step initiator_leg responder_leg addr_on plan_for
    asset_info native_token_for_leg published_preimage token_issue unassigned awaiting_assign
    lock_issue initiator_issue responder_issue initiator_lock_issue responder_lock_issue same
    leg_zero_address same_addr qrl_or_eth_hex is_qip55_qrl_address is_q_hex is_0x_hex is_hex lower
    upper text_eq
offers = refl

reveals : (claim_responder_step no_digest to_reveal 5000).can_run ≡ true
unfolding lock_responder_step claim_responder_step initiator_leg responder_leg addr_on plan_for
    asset_info native_token_for_leg published_preimage token_issue unassigned awaiting_assign
    lock_issue initiator_issue responder_issue initiator_lock_issue responder_lock_issue same
    leg_zero_address same_addr qrl_or_eth_hex is_qip55_qrl_address is_q_hex is_0x_hex is_hex lower
    upper text_eq
reveals = refl

confirmed_escrow : i_confirmed to_fund ≡ some maker_escrow
unfolding lock_responder_step claim_responder_step initiator_leg responder_leg addr_on plan_for
    asset_info native_token_for_leg published_preimage token_issue unassigned awaiting_assign
    lock_issue initiator_issue responder_issue initiator_lock_issue responder_lock_issue same
    leg_zero_address same_addr qrl_or_eth_hex is_qip55_qrl_address is_q_hex is_0x_hex is_hex lower
    upper text_eq
confirmed_escrow = refl

claimable : IsClaimable no_digest to_claim maker_escrow
unfolding lock_responder_step claim_responder_step initiator_leg responder_leg addr_on plan_for
    asset_info native_token_for_leg published_preimage token_issue unassigned awaiting_assign
    lock_issue initiator_issue responder_issue initiator_lock_issue responder_lock_issue same
    leg_zero_address same_addr qrl_or_eth_hex is_qip55_qrl_address is_q_hex is_0x_hex is_hex lower
    upper text_eq
claimable = record {
  has_escrow = refl;
  still_open = refl;
  assigned = λ h. ground arith;
  public = refl;
}

taker_account :
    same_addr no_digest
      (i_plan to_fund).recipient
      (leg_zero_address (initiator_leg to_fund.swap.direction))
    ≡ some false
unfolding lock_responder_step claim_responder_step initiator_leg responder_leg addr_on plan_for
    asset_info native_token_for_leg published_preimage token_issue unassigned awaiting_assign
    lock_issue initiator_issue responder_issue initiator_lock_issue responder_lock_issue same
    leg_zero_address same_addr qrl_or_eth_hex is_qip55_qrl_address is_q_hex is_0x_hex is_hex lower
    upper text_eq
taker_account = refl

derived_to_fund : derive_swap_machine no_digest to_fund ≡ some (machine_of no_digest to_fund 5000)
unfolding derive_swap_machine after_terms
derived_to_fund = refl

derived_to_reveal :
    derive_swap_machine no_digest to_reveal ≡ some (machine_of no_digest to_reveal 5000)
unfolding derive_swap_machine after_terms
derived_to_reveal = refl

third_can_run : (machine_of no_digest to_reveal 5000).third.can_run ≡ true
unfolding machine_of
third_can_run = reveals

derive_swap_machine_steps_example :
    (t2 : ℕ) × (to_fund.swap.responder_timeout ≡ some t2)
    × (((machine_of no_digest to_fund 5000).second.can_run ≡ true)
        ↔ FundingIsVerified no_digest to_fund t2)
    × (((machine_of no_digest to_fund 5000).fourth.can_run ≡ true) ↔ (
        (st : LegState) × IsClaimable no_digest to_fund st
        × (to_fund.now + claim_margin < st.timeout)))
derive_swap_machine_steps_example =
    derive_swap_machine_steps no_digest to_fund (machine_of no_digest to_fund 5000) derived_to_fund

derive_swap_machine-RevealIsVerified_example :
    (t2 : ℕ) × (to_reveal.swap.responder_timeout ≡ some t2)
    × RevealIsVerified no_digest to_reveal t2
derive_swap_machine-RevealIsVerified_example =
    derive_swap_machine-RevealIsVerified no_digest to_reveal (machine_of no_digest to_reveal 5000)
      derived_to_reveal third_can_run

offered_then_claimable_example : (claim_initiator_step no_digest to_claim).can_run ≡ true
offered_then_claimable_example =
    offered_then_claimable no_digest to_fund to_claim 5000 maker_escrow maker_escrow offers
      confirmed_escrow claimable refl (omega arith)

browser-check_maker_lock_example : ((lock_responder_step no_digest to_fund 5000).can_run ≡ true) ↔ (
    (check_maker_lock no_digest
        (i_confirmed to_fund)
        (maker_plan to_fund 10000 5000)
        5000
        claim_margin
        false
      ≡ some ok)
    × ((own : LegState) × (r_state to_fund ≡ some own) × (own.status ≡ no_swap))
    × (to_fund.now < 5000))
browser-check_maker_lock_example =
    browser-check_maker_lock no_digest to_fund 10000 5000 taker_account

refundable_iff_example : (includes eth_leg (refundable to_reveal) ≡ true) ↔ (
    (funds to_reveal.swap.role to_reveal.swap.direction eth_leg ≡ true)
    × IsExpired to_reveal eth_leg)
refundable_iff_example = refundable_iff to_reveal eth_leg
