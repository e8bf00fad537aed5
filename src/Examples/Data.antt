-- ===== src/Examples/Data.antt =====
-- Concrete accounts, escrows and orders.
use quanta_swap.Prelude.{ℕ, true, false, none, some, List, [], ◌++◌, Text, codes, replicate}
use quanta_swap.Address.{native_token, qrl_native_token}
use quanta_swap.Assets.{eth}
use quanta_swap.Chain.{LegState, no_swap, opened, eth_to_qrl, zero_bytes32}
use quanta_swap.Maker.Order.{ManagedOrder, ManagedProtocol}
use quanta_swap.Maker.Decide.{DecideInput, locking}

-- A digest of no bytes, whose nibbles all read 0: every checksummed address is in lower case.
abbrev pub no_digest : Text → List ℕ
no_digest _ = []

abbrev pub maker_eth : Text
maker_eth = codes "0x" ++ replicate 40 b'1'

abbrev pub taker_eth : Text
taker_eth = codes "0x" ++ replicate 40 b'2'

abbrev pub maker_qrl : Text
maker_qrl = codes "Q" ++ replicate 128 b'3'

abbrev pub taker_qrl : Text
taker_qrl = codes "Q" ++ replicate 128 b'4'

-- The maker's escrow of 10 units on Ethereum for the taker, and the taker's on QRL for the maker.
abbrev pub maker_escrow : LegState
maker_escrow = record {
  status = opened;
  initiator = maker_eth;
  recipient = taker_eth;
  token = native_token;
  amount = 10;
  timeout = 10000;
  preimage = zero_bytes32;
}

abbrev pub taker_escrow : LegState
taker_escrow = record {
  status = opened;
  initiator = taker_qrl;
  recipient = maker_qrl;
  token = qrl_native_token;
  amount = 20;
  timeout = 5000;
  preimage = zero_bytes32;
}

abbrev pub maker_empty : LegState
maker_empty = record maker_escrow { status = no_swap }

abbrev pub taker_empty : LegState
taker_empty = record taker_escrow { status = no_swap }

abbrev pub secret : Text
secret = codes "0x" ++ replicate 64 b'5'

abbrev pub acknowledged : ManagedProtocol
acknowledged = record {
  order_digest = codes "d";
  fill_acknowledged = true;
  release_observed = false;
  selected_intent = none;
}

abbrev pub order : ManagedOrder
order = record {
  id = codes "o1";
  protocol = some acknowledged;
  direction = eth_to_qrl;
  asset = eth;
  level = 0;
  quoted_mid_milli = none;
  from_amount = codes "10";
  to_amount = codes "20";
  preimage = some secret;
  hashlock = some (codes "h");
  initiator_timeout = some 10000;
  responder_timeout = some 5000;
  announced_at = some 100;
  taker_eth_account = some taker_eth;
  taker_qrl_account = some taker_qrl;
  lock_sent_at = some 200;
  claim_sent_at = none;
  sponsor_sent_at = none;
  refund_sent_at = none;
  withdraw_sent_at = none;
  push_sent_at = none;
  withdraw_attempts = none;
  push_attempts = none;
  withdraw_first_rejected_at = none;
  push_first_rejected_at = none;
  created_at = 0;
}

-- Both escrows are open and as agreed, well before the deadlines.
abbrev pub both_locked : DecideInput
both_locked = record {
  book_status = locking;
  released = false;
  managed = order;
  i_state = some maker_escrow;
  r_state = some taker_escrow;
  r_confirmed = some taker_escrow;
  expected_recipient = maker_qrl;
  expected_amount_wei = 20;
  expected_token = qrl_native_token;
  now = 1000;
  resend_after = 60;
  claim_safety = 300;
  lock_grace = 60;
  sponsor_claims = true;
  our_initiator = maker_eth;
  taker_on_initiator_leg = some taker_eth;
  sponsor_margin = 300;
  our_responder_credit = some 0;
  our_initiator_credit = some 0;
  taker_credit = some 0;
}
