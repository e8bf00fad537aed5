-- ===== src/Examples/Takers.antt =====
-- The taker's decisions on concrete takes.
use quanta_swap.Prelude.{
  ◌≡◌, ◌↔◌, refl, inl, true, false, none, some, codes, lower, upper, is_hex, text_eq, arith,
}
use quanta_swap.Address.{
  native_token, qrl_native_token, same_addr, qrl_or_eth_hex, is_qip55_qrl_address, is_q_hex,
  is_0x_hex,
}
use quanta_swap.Assets.{eth}
use quanta_swap.Chain.{LegState, eth_leg, qrl_leg, claimed, terminal, retry_ok}
use quanta_swap.Taker.Plan.{TakerLegPlan, registry, qrl}
use quanta_swap.Taker.Checks.{
  MakerLockCheck, ok, OwnLockCheck, ours, check_open, check_maker_lock, own_terms, check_own_lock,
  leg_zero_address,
}
use quanta_swap.Taker.Checks.Verified.{IsVerified, check_maker_lock_iff}
use quanta_swap.Taker.Bounds.{TakeBoundsInput}
use quanta_swap.Taker.Decide.{
  TakerDecideInput, TakerVerdict, locking, claim, refund, lock, abort, finish, maker_lock_verified,
  both_settled, maker_cancelled, FillTerms, revealed, revealed_preimage, credit_leg,
  credits_settled, exposed, walk_away, on_maker_lock, fund, on_own_lock, retired, wind_down,
  with_state, with_fill, choose, decide_taker,
}
use quanta_swap.Taker.Decide.Funding.{FundingIsSafe, decide_taker-lock}
use quanta_swap.Taker.Decide.Leaving.{IsUnexposed, decide_taker-abort}
use quanta_swap.Taker.Decide.Payout.{IsRevealed, funded_then_paid, expired_then_refunded}
use quanta_swap.Examples.Data.{
  no_digest, secret, taker_eth, maker_qrl, taker_qrl, maker_escrow, taker_escrow, taker_empty,
}

abbrev maker_plan : TakerLegPlan
maker_plan = record {
  leg = eth_leg;
  recipient = taker_eth;
  amount = 10;
  expected_token = native_token;
  timeout = 10000;
  asset = registry eth;
  decimals = 18;
}

abbrev own_plan : TakerLegPlan
own_plan = record {
  leg = qrl_leg;
  recipient = maker_qrl;
  amount = 20;
  expected_token = qrl_native_token;
  timeout = 5000;
  asset = qrl;
  decimals = 18;
}

abbrev terms : FillTerms
terms = record {
  hashlock = codes "h";
  initiator_timeout = 10000;
  responder_timeout = 5000;
  respond_by = 4000;
}

-- The maker's escrow is confirmed, and our leg is still empty.
abbrev to_fund : TakerDecideInput
to_fund = record {
  sends = record {
    fill_acknowledged = true;
    intent_submitted_at = some 10;
    lock_sent_at = none;
    claim_sent_at = none;
    refund_sent_at = none;
    withdraw_sent_at = none;
    release_sent_at = none;
  };
  book_status = locking;
  released = false;
  cancelled = false;
  prelocked = false;
  fill = some terms;
  plans = record { initiator = maker_plan; responder = own_plan };
  i_state = some maker_escrow;
  i_confirmed = some maker_escrow;
  r_state = some taker_empty;
  our_responder_address = taker_qrl;
  intent_pending = none;
  abandon_requested = false;
  now = 1000;
  resend_after = 60;
  claim_safety = 300;
  lock_runway = 600;
  claim_submit_margin = 120;
  initiator_credit = some 0;
  responder_credit = some 0;
}

abbrev paid_leg : LegState
paid_leg = record taker_escrow { status = claimed; preimage = secret }

-- The maker has claimed our escrow.
abbrev to_claim : TakerDecideInput
to_claim = record to_fund { r_state = some paid_leg; now = 4000 }

-- Our escrow is open and has expired.
abbrev to_refund : TakerDecideInput
to_refund = record to_fund { r_state = some taker_escrow; now = 5000 }

-- The maker has cancelled the order.
abbrev to_leave : TakerDecideInput
to_leave = record to_fund { cancelled = true }

-- Both legs are claimed.
abbrev to_finish : TakerDecideInput
to_finish = record to_fund {
  i_state = some (record maker_escrow { status = claimed });
  i_confirmed = some (record maker_escrow { status = claimed });
  r_state = some paid_leg;
}

abbrev verdict_lock : TakerVerdict
verdict_lock = record {
  decision = lock;
  reason = maker_lock_verified;
  maker_lock = ok;
  own_lock = OwnLockCheck.absent;
  revealed_preimage = none;
  credit_leg = none;
}

abbrev verdict_abort : TakerVerdict
verdict_abort = record verdict_lock { decision = abort; reason = maker_cancelled }

abbrev verdict_finish : TakerVerdict
verdict_finish = record verdict_lock {
  decision = finish;
  reason = both_settled;
  maker_lock = MakerLockCheck.settled;
  own_lock = OwnLockCheck.settled;
  revealed_preimage = some secret;
}

funds : decide_taker no_digest to_fund ≡ some verdict_lock
unfolding decide_taker choose exposed walk_away with_fill with_state wind_down on_own_lock retired
    fund on_maker_lock terminal retry_ok revealed revealed_preimage credit_leg credits_settled
    check_maker_lock check_open check_own_lock own_terms leg_zero_address same_addr qrl_or_eth_hex
    is_qip55_qrl_address is_q_hex is_0x_hex is_hex lower upper text_eq
funds = refl

leaves : decide_taker no_digest to_leave ≡ some verdict_abort
unfolding decide_taker choose exposed walk_away with_fill with_state wind_down on_own_lock retired
    fund on_maker_lock terminal retry_ok revealed revealed_preimage credit_leg credits_settled
    check_maker_lock check_open check_own_lock own_terms leg_zero_address same_addr qrl_or_eth_hex
    is_qip55_qrl_address is_q_hex is_0x_hex is_hex lower upper text_eq
leaves = refl

finishes : decide_taker no_digest to_finish ≡ some verdict_finish
unfolding decide_taker choose exposed walk_away with_fill with_state wind_down on_own_lock retired
    fund on_maker_lock terminal retry_ok revealed revealed_preimage credit_leg credits_settled
    check_maker_lock check_open check_own_lock own_terms leg_zero_address same_addr qrl_or_eth_hex
    is_qip55_qrl_address is_q_hex is_0x_hex is_hex lower upper text_eq
finishes = refl

escrow_ok : check_maker_lock no_digest (some maker_escrow) maker_plan 5000 300 false ≡ some ok
unfolding decide_taker choose exposed walk_away with_fill with_state wind_down on_own_lock retired
    fund on_maker_lock terminal retry_ok revealed revealed_preimage credit_leg credits_settled
    check_maker_lock check_open check_own_lock own_terms leg_zero_address same_addr qrl_or_eth_hex
    is_qip55_qrl_address is_q_hex is_0x_hex is_hex lower upper text_eq
escrow_ok = refl

refund_own : check_own_lock no_digest (some taker_escrow) own_plan taker_qrl ≡ some ours
unfolding decide_taker choose exposed walk_away with_fill with_state wind_down on_own_lock retired
    fund on_maker_lock terminal retry_ok revealed revealed_preimage credit_leg credits_settled
    check_maker_lock check_open check_own_lock own_terms leg_zero_address same_addr qrl_or_eth_hex
    is_qip55_qrl_address is_q_hex is_0x_hex is_hex lower upper text_eq
refund_own = refl

escrow-IsRevealed : IsRevealed no_digest to_claim maker_escrow paid_leg
unfolding decide_taker choose exposed walk_away with_fill with_state wind_down on_own_lock retired
    fund on_maker_lock terminal retry_ok revealed revealed_preimage credit_leg credits_settled
    check_maker_lock check_open check_own_lock own_terms leg_zero_address same_addr qrl_or_eth_hex
    is_qip55_qrl_address is_q_hex is_0x_hex is_hex lower upper text_eq
escrow-IsRevealed = record {
  has_maker = refl;
  maker_open = refl;
  has_own = refl;
  funded_by_us = refl;
  own_claimed = refl;
  published = refl;
  spaced = ground arith;
}

not_revealed : revealed taker_escrow ≡ false
unfolding decide_taker choose exposed walk_away with_fill with_state wind_down on_own_lock retired
    fund on_maker_lock terminal retry_ok revealed revealed_preimage credit_leg credits_settled
    check_maker_lock check_open check_own_lock own_terms leg_zero_address same_addr qrl_or_eth_hex
    is_qip55_qrl_address is_q_hex is_0x_hex is_hex lower upper text_eq
not_revealed = refl

decide_taker-lock_example : FundingIsSafe no_digest to_fund
decide_taker-lock_example = decide_taker-lock no_digest to_fund verdict_lock funds refl

decide_taker-abort_example : IsUnexposed no_digest to_leave
decide_taker-abort_example = decide_taker-abort no_digest to_leave verdict_abort leaves refl

funded_then_paid_example :
    (w : TakerVerdict) × (decide_taker no_digest to_claim ≡ some w) × (w.decision ≡ claim)
funded_then_paid_example =
    funded_then_paid no_digest to_fund to_claim verdict_lock ok terms maker_escrow maker_escrow
      paid_leg funds refl refl refl refl escrow_ok escrow-IsRevealed refl (omega arith)
      (omega arith)

expired_then_refunded_example :
    (v : TakerVerdict) × (decide_taker no_digest to_refund ≡ some v) × (v.decision ≡ refund)
expired_then_refunded_example =
    expired_then_refunded no_digest to_refund ok ours terms taker_escrow refl refl escrow_ok
      refund_own (inl refl) (omega arith) not_revealed refl refl (ground arith)

check_maker_lock_iff_example :
    (check_maker_lock no_digest (some maker_escrow) maker_plan 5000 300 false ≡ some ok)
    ↔ ((c : LegState) × (some maker_escrow ≡ some c) × IsVerified no_digest c maker_plan 5000 300)
check_maker_lock_iff_example =
    check_maker_lock_iff no_digest (some maker_escrow) maker_plan 5000 300 false

-- Pays 10 of a native coin from a balance of 30, within the limits.
abbrev small_take : TakeBoundsInput
small_take = record {
  pay_amount = 10;
  receive_amount = 20;
  max_in = some 10;
  min_out = some 15;
  pay_balance = some 30;
  native_pay_leg = true;
  gas_balance = some 30;
  gas_reserve = 5;
  order_expires_at = 2000;
  now = 1000;
  min_order_runway = 600;
}
