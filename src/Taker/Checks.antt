-- ===== src/Taker/Checks.antt =====
-- What the taker makes of the two escrows (`checkMakerLock` and `checkOwnLock` of
-- marketmaker/src/taker-policy.ts). Each text that names an issue is a constructor, with the
-- numbers that the text shows; an own escrow's issue is one fixed text for each constructor.
pub mod Verified
use quanta_swap.Prelude.{
  ℕ, ◌+◌, Bool, true, false, not, ◌&&◌, ◌||◌, Option, none, some, List, ◌>>=◌, ◌&&?◌, not?, when,
  ltb, leb, ◌==◌, if◌then◌else◌, Text,
}
use quanta_swap.Address.{native_token, qrl_native_token, same_addr}
use quanta_swap.Chain.{
  LegKey, eth_leg, qrl_leg, LegState, SwapStatus, no_swap, opened, claimed, refunded, is_no_swap,
  is_opened,
}
use quanta_swap.Taker.Plan.{TakerLegPlan}

pub data LockIssue : Type 0 where
  recipient_unset wrong_asset not_our_account : LockIssue
  wrong_amount : ℕ → ℕ → LockIssue
  too_little_window : LockIssue

pub data MakerLockCheck : Type 0 where
  absent awaiting_assign ok : MakerLockCheck
  mismatch : LockIssue → MakerLockCheck
  settled : MakerLockCheck

pub data OwnLockCheck : Type 0 where
  absent ours ours_mismatched foreign settled : OwnLockCheck

unfoldable pub leg_zero_address : LegKey → Text
leg_zero_address qrl_leg = qrl_native_token
leg_zero_address eth_leg = native_token

module _ (shake256 : Text → List ℕ) where
  -- The checks of an open escrow.
  unfoldable pub check_open : LegState → TakerLegPlan → ℕ → ℕ → Bool → Option MakerLockCheck
  unfolding leg_zero_address
  check_open confirmed plan responder_timeout claim_margin prelocked =
      when (same_addr shake256 confirmed.recipient (leg_zero_address plan.leg))
        (some (if prelocked then awaiting_assign else mismatch recipient_unset))
        (when (not? (same_addr shake256 confirmed.token plan.expected_token))
          (some (mismatch wrong_asset))
          (when (not? (same_addr shake256 confirmed.recipient plan.recipient))
            (some (mismatch not_our_account))
            (when (some (not (confirmed.amount == plan.amount)))
              (some (mismatch (wrong_amount confirmed.amount plan.amount)))
              (when (some (ltb confirmed.timeout (responder_timeout + claim_margin)))
                (some (mismatch too_little_window)) (some ok)))))

  unfoldable pub check_maker_lock :
      Option LegState → TakerLegPlan → ℕ → ℕ → Bool → Option MakerLockCheck
  unfolding check_open
  check_maker_lock none plan responder_timeout claim_margin prelocked = some MakerLockCheck.absent
  check_maker_lock (some confirmed) plan responder_timeout claim_margin prelocked =
      if is_no_swap confirmed.status
      then some MakerLockCheck.absent
      else if not (is_opened confirmed.status)
      then some MakerLockCheck.settled
      else check_open confirmed plan responder_timeout claim_margin prelocked

  -- `!a || !b || c`, evaluated from the left
  unfoldable pub own_terms : LegState → TakerLegPlan → Option Bool
  own_terms state plan =
      same_addr shake256 state.token plan.expected_token
      &&? same_addr shake256 state.recipient plan.recipient
      &&? some (state.amount == plan.amount)

  unfoldable pub check_own_lock : Option LegState → TakerLegPlan → Text → Option OwnLockCheck
  unfolding own_terms
  check_own_lock none plan our_address = some OwnLockCheck.absent
  check_own_lock (some state) plan our_address =
      if is_no_swap state.status
      then some OwnLockCheck.absent
      else when (not? (same_addr shake256 state.initiator our_address)) (some foreign) (
          if not (is_opened state.status)
          then some OwnLockCheck.settled
          else when (not? (own_terms state plan)) (some ours_mismatched) (some ours))
