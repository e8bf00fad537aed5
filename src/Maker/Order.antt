-- ===== src/Maker/Order.antt =====
-- The market maker's record of one listing (`ManagedOrder` of marketmaker/src/policy.ts). The
-- deployment identity, the bearer token and the signed proofs, which no decision reads, are left
-- out; a property of the source that may be null or undefined is an `Option`.
use quanta_swap.Prelude.{ℕ, Bool, Option, Text}
use quanta_swap.Chain.{Direction}
use quanta_swap.Assets.{AssetSymbol}

pub record FillIntentBody : Type 0 where
  pub order_digest : Text

pub record FillIntentAuth : Type 0 where
  pub issued_at : ℕ
  pub expires_at : ℕ
  pub nonce : Text
  pub signature : Text
  pub public_key : Text
  pub descriptor : Text

pub record SelectedFillIntent : Type 0 where
  pub intent_digest : Text
  pub intent : FillIntentBody
  pub auth : FillIntentAuth
  pub received_at : ℕ

pub record ManagedProtocol : Type 0 where
  pub order_digest : Text
  pub fill_acknowledged : Bool
  pub release_observed : Bool
  pub selected_intent : Option SelectedFillIntent

pub record ManagedOrder : Type 0 where
  pub id : Text
  pub protocol : Option ManagedProtocol
  pub direction : Direction
  pub asset : AssetSymbol
  pub level : ℕ
  pub quoted_mid_milli : Option Text
  pub from_amount : Text
  pub to_amount : Text
  pub preimage : Option Text
  pub hashlock : Option Text
  pub initiator_timeout : Option ℕ
  pub responder_timeout : Option ℕ
  pub announced_at : Option ℕ
  pub taker_eth_account : Option Text
  pub taker_qrl_account : Option Text
  pub lock_sent_at : Option ℕ
  pub claim_sent_at : Option ℕ
  pub sponsor_sent_at : Option ℕ
  pub refund_sent_at : Option ℕ
  pub withdraw_sent_at : Option ℕ
  pub push_sent_at : Option ℕ
  pub withdraw_attempts : Option ℕ
  pub push_attempts : Option ℕ
  pub withdraw_first_rejected_at : Option ℕ
  pub push_first_rejected_at : Option ℕ
  pub created_at : ℕ
