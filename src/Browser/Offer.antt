-- ===== src/Browser/Offer.antt =====
-- The browser offers the taker to fund its leg whenever the maker's escrow is as agreed
-- (`deriveSwapMachine` of frontend/src/lib/swapMachine.ts).
use quanta_swap.Prelude.{
  ℕ, ◌+◌, ◌≤◌, ◌≡◌, ◌↔◌, refl, ap, Bool, true, false, not, ◌&&◌, Option, none, some, List, arith,
  Text, ltb, is_null, ==_iff, lt→ltb,
}
use quanta_swap.Chain.{LegState, no_swap, is_opened, is_no_swap}
use quanta_swap.Browser.Machine.{
  LegPlan, StepIssue, little_claim_window, SwapMachineInput, claim_margin,
}
use quanta_swap.Browser.Steps.{
  i_confirmed, i_plan, same, token_issue, i_unassigned, awaiting_assign, lock_issue,
  initiator_issue, initiator_lock_issue,
}
use quanta_swap.Browser.Derive.{lock_responder_step}
use quanta_swap.Browser.Commit.{IsAgreed, FundingIsVerified, lock_responder-can_run}

not_before : (a b : ℕ) → b ≤ a → ltb a b ≡ false
not_before a b h = ground arith

unused : (s : LegState) → s.status ≡ no_swap → is_no_swap s.status ≡ true
unused s h = rw h refl

not_awaits : (p o u : Bool) → (p ≡ true → u ≡ false) → (p && (o && u)) ≡ false
not_awaits true true u h = h refl
not_awaits true false u h = refl
not_awaits false o u h = refl

all_true :
    (a b c d e : Bool)
    → a ≡ true
    → b ≡ true
    → c ≡ true
    → d ≡ true
    → e ≡ true
    → (a && (b && (c && (d && e)))) ≡ true
all_true a b c d e p q r s t = rw (p, q, r, s, t) refl

module _ (shake256 : Text → List ℕ) where
  no_token_issue :
      (st : LegState) (plan : LegPlan)
      → same shake256 st.token plan.expected_token ≡ true
      → token_issue shake256 st.token plan ≡ none
  unfolding token_issue
  no_token_issue st plan h = rw h refl

  no_lock_issue :
      (st : LegState) (plan : LegPlan) (late : Bool) (window : StepIssue)
      → IsAgreed shake256 st plan
      → late ≡ false
      → lock_issue shake256 st plan late window ≡ none
  unfolding lock_issue
  no_lock_issue st plan late window a l =
      rw
        (
          no_token_issue st plan a.right_token,
          a.right_recipient,
          (==_iff st.amount plan.amount).1 a.right_amount,
          l,
        )
        refl

  no_initiator_issue :
      (s : Option LegState) (plan : LegPlan) (awaits : Bool) (t2 : ℕ) (st : LegState)
      → s ≡ some st
      → awaits ≡ false
      → IsAgreed shake256 st plan
      → t2 + claim_margin ≤ st.timeout
      → initiator_issue shake256 s plan awaits t2 ≡ none
  unfolding initiator_issue
  no_initiator_issue s plan awaits t2 st e a g w =
      rw
        (
          e,
          g.locked,
          a,
          no_lock_issue st plan (ltb st.timeout (t2 + claim_margin)) little_claim_window g
              (not_before st.timeout (t2 + claim_margin) w),
        )
        refl

  not_awaiting :
      (x : SwapMachineInput) (t2 : ℕ)
      → FundingIsVerified shake256 x t2
      → awaiting_assign shake256 x ≡ false
  unfolding awaiting_assign
  not_awaiting x t2 v = rw v.at_depth (
      not_awaits x.swap.prelocked (is_opened v.escrow.status) (i_unassigned shake256 x v.escrow)
        v.assigned)

  no_issue :
      (x : SwapMachineInput) (t2 : ℕ)
      → FundingIsVerified shake256 x t2
      → initiator_lock_issue shake256 x t2 ≡ none
  unfolding initiator_lock_issue
  no_issue x t2 v =
      no_initiator_issue (i_confirmed x) (i_plan x) (awaiting_assign shake256 x) t2 v.escrow
        v.at_depth (not_awaiting x t2 v) v.agreed v.window

  offers :
      (x : SwapMachineInput) (t2 : ℕ)
      → FundingIsVerified shake256 x t2
      → (lock_responder_step shake256 x t2).can_run ≡ true
  unfolding lock_responder_step
  offers x t2 v =
      all_true _ _ _ _ _ (rw (v.at_depth, v.agreed.locked) refl) (ap is_null (no_issue x t2 v))
        (ap not (not_awaiting x t2 v)) (rw (v.has_own, unused v.own v.unfunded) refl)
        (lt→ltb x.now t2 v.in_time)

  -- The browser offers the taker to fund its leg exactly when, at the confirmation depth, the
  -- maker's escrow is open with the agreed asset, recipient and amount, is assigned, and outlives
  -- the taker's own deadline by the claim margin, while the responder leg is unused and that
  -- deadline is not reached.
  pub lock_responder_iff :
      (x : SwapMachineInput) (t2 : ℕ)
      → ((lock_responder_step shake256 x t2).can_run ≡ true) ↔ FundingIsVerified shake256 x t2
  lock_responder_iff x t2 = (lock_responder-can_run shake256 x t2, offers x t2)
