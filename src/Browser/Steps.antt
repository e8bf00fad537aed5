-- ===== src/Browser/Steps.antt =====
-- The checks, steps and result of `deriveSwapMachine` (frontend/src/lib/swapMachine.ts).
use quanta_swap.Prelude.{
  ℕ, ◌+◌, Bool, false, not, ◌&&◌, ◌||◌, Option, none, some, List, Text, ltb, ◌==◌, if◌then◌else◌,
  or_else,
}
use quanta_swap.Address.{native_token, qrl_native_token, same_addr}
use quanta_swap.Chain.{LegKey, initiator_leg, responder_leg, LegState, is_opened}
use quanta_swap.Browser.Machine.{
  LegPlan, StepIssue, token_not_native, wrong_token_contract, not_your_address, wrong_amount,
  little_claim_window, little_reveal_window, SwapMachineInput, claim_margin, state_on, has,
  plan_for, native_token_for_leg,
}

abbrev pub i_state : SwapMachineInput → Option LegState
i_state x = state_on x.legs (initiator_leg x.swap.direction)

abbrev pub r_state : SwapMachineInput → Option LegState
r_state x = state_on x.legs (responder_leg x.swap.direction)

abbrev pub i_confirmed : SwapMachineInput → Option LegState
i_confirmed x = state_on x.confirmed (initiator_leg x.swap.direction)

abbrev pub r_confirmed : SwapMachineInput → Option LegState
r_confirmed x = state_on x.confirmed (responder_leg x.swap.direction)

abbrev pub i_plan : SwapMachineInput → LegPlan
i_plan x = plan_for x.swap (initiator_leg x.swap.direction)

abbrev pub r_plan : SwapMachineInput → LegPlan
r_plan x = plan_for x.swap (responder_leg x.swap.direction)

-- `if (badToken !== null) issue = badToken; else …`
abbrev pub first_issue : Option StepIssue → Option StepIssue → Option StepIssue
first_issue (some bad_token) rest = some bad_token
first_issue none rest = rest

module _ (shake256 : Text → List ℕ) where
  -- The browser's `sameAddr` answers false where an address is refused.
  unfoldable pub same : Text → Text → Bool
  unfolding same_addr
  same a b = or_else (same_addr shake256 a b) false

  unfoldable pub token_issue : Text → LegPlan → Option StepIssue
  unfolding same
  token_issue confirmed_token plan =
      if same confirmed_token plan.expected_token
      then none
      else if same plan.expected_token native_token || same plan.expected_token qrl_native_token
      then some token_not_native
      else some wrong_token_contract

  unfoldable pub unassigned : LegState → LegKey → Bool
  unfolding same native_token_for_leg
  unassigned st leg = same st.recipient (native_token_for_leg leg)

  abbrev pub i_unassigned : SwapMachineInput → LegState → Bool
  i_unassigned x st = unassigned st (initiator_leg x.swap.direction)

  unfoldable pub awaiting_assign : SwapMachineInput → Bool
  awaiting_assign x =
      x.swap.prelocked && has (i_confirmed x) (λ st. is_opened st.status && i_unassigned x st)

  -- The checks that both lock issues make of an open escrow; `late` is the one on its timeout.
  unfoldable pub lock_issue : LegState → LegPlan → Bool → StepIssue → Option StepIssue
  unfolding token_issue same
  lock_issue st plan late window = first_issue (token_issue st.token plan) (
      if not (same st.recipient plan.recipient)
      then some not_your_address
      else if not (st.amount == plan.amount)
      then some (wrong_amount st.amount plan.amount)
      else if late
      then some window
      else none)

  unfoldable pub initiator_issue : Option LegState → LegPlan → Bool → ℕ → Option StepIssue
  unfolding lock_issue
  initiator_issue none plan awaits responder_timeout = none
  initiator_issue (some st) plan awaits responder_timeout =
      if is_opened st.status && not awaits
      then lock_issue st plan (ltb st.timeout (responder_timeout + claim_margin))
          little_claim_window
      else none

  unfoldable pub responder_issue : Option LegState → LegPlan → ℕ → Option StepIssue
  unfolding lock_issue
  responder_issue none plan now = none
  responder_issue (some st) plan now =
      if is_opened st.status
      then lock_issue st plan (ltb st.timeout (now + claim_margin)) little_reveal_window
      else none

  unfoldable pub initiator_lock_issue : SwapMachineInput → ℕ → Option StepIssue
  unfolding initiator_issue
  initiator_lock_issue x responder_timeout =
      initiator_issue (i_confirmed x) (i_plan x) (awaiting_assign x) responder_timeout

  unfoldable pub responder_lock_issue : SwapMachineInput → Option StepIssue
  unfolding responder_issue
  responder_lock_issue x = responder_issue (r_confirmed x) (r_plan x) x.now
