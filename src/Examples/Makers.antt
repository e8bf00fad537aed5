-- ===== src/Examples/Makers.antt =====
-- The maker's decisions on concrete orders.
use quanta_swap.Prelude.{◌≡◌, refl, ◌⊎◌, none, some, codes, lower, upper, is_hex, text_eq, arith}
use quanta_swap.Address.{same_addr, qrl_or_eth_hex, is_qip55_qrl_address, is_q_hex, is_0x_hex}
use quanta_swap.Chain.{claimed, terminal, retry_ok}
use quanta_swap.Maker.Credits.{
  withdraw_parked, push_parked, parked, rejected_long_ago, credit_retry_after,
}
use quanta_swap.Maker.Decide.{
  DecideInput, cancelled, claim, sponsor, lock, refund, abort, finish, decide, chain_exposed,
  is_released, exposure_excluded, on_book, on_chain, settle, claim_gate, sponsor_gate, lock_gate,
  refund_gate, collect, withdraw_gate, pushable_taker_credit, push_gate, retire, responder_settled,
  credits_settled,
}
use quanta_swap.Maker.Decide.Reveal.{RevealIsSafe, decide-claim}
use quanta_swap.Maker.Decide.Fund.{FundingIsSafe, decide-lock}
use quanta_swap.Maker.Decide.Leave.{IsUnexposed, decide-abort, FinishIsSafe, decide-finish}
use quanta_swap.Maker.Decide.Progress.{HasAddresses, decide_expired}
use quanta_swap.Examples.Data.{
  no_digest, secret, order, maker_escrow, maker_empty, taker_escrow, taker_empty, both_locked,
}

-- The taker has claimed its payment, so the secret is public.
abbrev taker_paid : DecideInput
taker_paid = record both_locked {
  r_state = some (record taker_escrow { status = claimed });
  r_confirmed = some (record taker_escrow { status = claimed });
}

-- Our leg is announced and not funded.
abbrev announced_order : DecideInput
announced_order = record both_locked {
  managed = record order { lock_sent_at = none };
  i_state = some maker_empty;
  r_state = some taker_empty;
  r_confirmed = some taker_empty;
}

-- The taker never came, and our escrow has expired.
abbrev expired_order : DecideInput
expired_order = record both_locked {
  r_state = some taker_empty;
  r_confirmed = some taker_empty;
  now = 10000;
}

-- The taker walked away before anything was funded.
abbrev cancelled_order : DecideInput
cancelled_order = record announced_order { book_status = cancelled }

-- Both legs are claimed.
abbrev settled_order : DecideInput
settled_order = record taker_paid { i_state = some (record maker_escrow { status = claimed }) }

claims : decide no_digest both_locked ≡ some claim
unfolding decide exposure_excluded chain_exposed is_released on_book on_chain settle claim_gate
    sponsor_gate lock_gate refund_gate collect withdraw_gate pushable_taker_credit push_gate retire
    responder_settled credits_settled withdraw_parked push_parked parked rejected_long_ago terminal
    credit_retry_after same_addr qrl_or_eth_hex is_qip55_qrl_address is_q_hex is_0x_hex is_hex lower
    upper retry_ok text_eq
claims = refl

sponsors : decide no_digest taker_paid ≡ some sponsor
unfolding decide exposure_excluded chain_exposed is_released on_book on_chain settle claim_gate
    sponsor_gate lock_gate refund_gate collect withdraw_gate pushable_taker_credit push_gate retire
    responder_settled credits_settled withdraw_parked push_parked parked rejected_long_ago terminal
    credit_retry_after same_addr qrl_or_eth_hex is_qip55_qrl_address is_q_hex is_0x_hex is_hex lower
    upper retry_ok text_eq
sponsors = refl

locks : decide no_digest announced_order ≡ some lock
unfolding decide exposure_excluded chain_exposed is_released on_book on_chain settle claim_gate
    sponsor_gate lock_gate refund_gate collect withdraw_gate pushable_taker_credit push_gate retire
    responder_settled credits_settled withdraw_parked push_parked parked rejected_long_ago terminal
    credit_retry_after same_addr qrl_or_eth_hex is_qip55_qrl_address is_q_hex is_0x_hex is_hex lower
    upper retry_ok text_eq
locks = refl

refunds : decide no_digest expired_order ≡ some refund
unfolding decide exposure_excluded chain_exposed is_released on_book on_chain settle claim_gate
    sponsor_gate lock_gate refund_gate collect withdraw_gate pushable_taker_credit push_gate retire
    responder_settled credits_settled withdraw_parked push_parked parked rejected_long_ago terminal
    credit_retry_after same_addr qrl_or_eth_hex is_qip55_qrl_address is_q_hex is_0x_hex is_hex lower
    upper retry_ok text_eq
refunds = refl

aborts : decide no_digest cancelled_order ≡ some abort
unfolding decide exposure_excluded chain_exposed is_released on_book on_chain settle claim_gate
    sponsor_gate lock_gate refund_gate collect withdraw_gate pushable_taker_credit push_gate retire
    responder_settled credits_settled withdraw_parked push_parked parked rejected_long_ago terminal
    credit_retry_after same_addr qrl_or_eth_hex is_qip55_qrl_address is_q_hex is_0x_hex is_hex lower
    upper retry_ok text_eq
aborts = refl

finishes : decide no_digest settled_order ≡ some finish
unfolding decide exposure_excluded chain_exposed is_released on_book on_chain settle claim_gate
    sponsor_gate lock_gate refund_gate collect withdraw_gate pushable_taker_credit push_gate retire
    responder_settled credits_settled withdraw_parked push_parked parked rejected_long_ago terminal
    credit_retry_after same_addr qrl_or_eth_hex is_qip55_qrl_address is_q_hex is_0x_hex is_hex lower
    upper retry_ok text_eq
finishes = refl

expired_order-HasAddresses : HasAddresses no_digest expired_order
unfolding qrl_or_eth_hex is_qip55_qrl_address is_q_hex is_0x_hex is_hex lower upper text_eq
expired_order-HasAddresses = record {
  token = (_, refl);
  recipient = (_, refl);
  ours = (_, refl);
  taker = (_, refl);
  own = ((_, refl), (_, refl));
  theirs = ((_, refl), (_, refl));
}

decide-claim_example : RevealIsSafe no_digest both_locked
decide-claim_example = decide-claim no_digest both_locked claims

decide-lock_example : FundingIsSafe announced_order
decide-lock_example = decide-lock no_digest announced_order locks

decide-abort_example : IsUnexposed cancelled_order
decide-abort_example = decide-abort no_digest cancelled_order aborts

decide-finish_example : FinishIsSafe no_digest settled_order
decide-finish_example = decide-finish no_digest settled_order finishes

decide_expired_example :
    (decide no_digest expired_order ≡ some claim)
    ⊎ ((decide no_digest expired_order ≡ some sponsor)
        ⊎ (decide no_digest expired_order ≡ some refund))
decide_expired_example =
    decide_expired no_digest expired_order maker_escrow 10000 5000 secret (codes "h") refl refl refl
      refl refl refl refl (ground arith) (ground arith) expired_order-HasAddresses
