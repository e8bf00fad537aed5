-- ===== src/Browser/Agreement.antt =====
-- The browser (frontend/src/lib/swapMachine.ts) and the scripted taker
-- (marketmaker/src/taker-policy.ts) make the same decision on the maker's escrow.
use quanta_swap.Prelude.{
  ℕ, ◌<◌, ◌≡◌, ◌↔◌, refl, sym, ap, ◌∙◌, inl, inr, Bool, true, false, some, List, arith, Text,
  if◌then◌else◌, or_else, is_hex, Bool-cases,
}
use quanta_swap.Address.{
  qrl_or_eth_hex, same_addr, native_token, qrl_native_token, is_qip55_qrl_address, is_q_hex,
  is_0x_hex,
}
use quanta_swap.Address.Same.{IsAddress, same_addr_equivalence, same_addr_parts, same_addr_returns}
use quanta_swap.Assets.{AssetSymbol, asset_info}
use quanta_swap.Chain.{LegState, LegKey, eth_leg, qrl_leg, no_swap, initiator_leg}
use quanta_swap.Taker.Plan.{TakerLegPlan, TakerPlanInput, taker_leg_plans, on_leg, expected_token}
use quanta_swap.Taker.Checks.{ok, check_maker_lock, leg_zero_address}
use quanta_swap.Taker.Checks.Verified.{IsVerified, check_maker_lock_iff}
use quanta_swap.Browser.Machine.{
  ActiveSwap, addr_on, is_leg, by_maker, by_taker, SwapMachineInput, claim_margin,
  native_token_for_leg, plan_for,
}
use quanta_swap.Browser.Steps.{r_state, i_confirmed, i_plan, i_unassigned, same, unassigned}
use quanta_swap.Browser.Commit.{IsAgreed, FundingIsVerified}
use quanta_swap.Browser.Offer.{lock_responder_iff}
use quanta_swap.Browser.Derive.{lock_responder_step}

-- The terms that the scripted taker has for the swap that the browser has stored.
abbrev pub terms : ActiveSwap → ℕ → ℕ → TakerPlanInput
terms s t1 t2 = record {
  direction = s.direction;
  asset = s.eth_asset;
  from_amount = s.from_amount;
  to_amount = s.to_amount;
  maker_eth_account = s.maker_eth_account;
  maker_qrl_account = s.maker_qrl_account;
  taker_eth_account = s.taker_eth_account;
  taker_qrl_account = s.taker_qrl_account;
  initiator_timeout = t1;
  responder_timeout = t2;
}

abbrev pub maker_plan : SwapMachineInput → ℕ → ℕ → TakerLegPlan
maker_plan x t1 t2 = (taker_leg_plans (terms x.swap t1 t2)).initiator

module _ (shake256 : Text → List ℕ) where
  same-true : (a b : Text) → same shake256 a b ≡ true → same_addr shake256 a b ≡ some true
  unfolding same
  same-true a b h = ground arith

  same_of : (a b : Text) (r : Bool) → same_addr shake256 a b ≡ some r → same shake256 a b ≡ r
  unfolding same
  same_of a b r h = rw h refl

  zero-IsAddress : (leg : LegKey) → IsAddress shake256 (leg_zero_address leg)
  unfolding leg_zero_address qrl_or_eth_hex is_qip55_qrl_address is_q_hex is_0x_hex is_hex
  zero-IsAddress qrl_leg = (_, refl)
  zero-IsAddress eth_leg = (_, refl)

zero_address : (leg : LegKey) → native_token_for_leg leg ≡ leg_zero_address leg
unfolding native_token_for_leg leg_zero_address
zero_address qrl_leg = refl
zero_address eth_leg = refl

plan_leg :
    (x : SwapMachineInput) (t1 t2 : ℕ) → (maker_plan x t1 t2).leg ≡ initiator_leg x.swap.direction
unfolding taker_leg_plans
plan_leg x t1 t2 = refl

recipient_on :
    (s : ActiveSwap) (l : LegKey)
    → on_leg l s.taker_eth_account s.taker_qrl_account
      ≡ addr_on s l (if is_leg l l then by_taker else by_maker)
unfolding addr_on
recipient_on s eth_leg = refl
recipient_on s qrl_leg = refl

amount_on :
    (s : ActiveSwap) (l : LegKey)
    → s.from_amount ≡ (if is_leg l l then s.from_amount else s.to_amount)
amount_on s eth_leg = refl
amount_on s qrl_leg = refl

token_on :
    (a : AssetSymbol) (l : LegKey)
    → expected_token l a
      ≡ on_leg l (or_else (asset_info a).token_address native_token) qrl_native_token
unfolding expected_token
token_on a eth_leg = refl
token_on a qrl_leg = refl

plan_recipient :
    (x : SwapMachineInput) (t1 t2 : ℕ) → (maker_plan x t1 t2).recipient ≡ (i_plan x).recipient
unfolding taker_leg_plans plan_for
plan_recipient x t1 t2 = recipient_on x.swap (initiator_leg x.swap.direction)

plan_amount : (x : SwapMachineInput) (t1 t2 : ℕ) → (maker_plan x t1 t2).amount ≡ (i_plan x).amount
unfolding taker_leg_plans plan_for
plan_amount x t1 t2 = amount_on x.swap (initiator_leg x.swap.direction)

plan_token :
    (x : SwapMachineInput) (t1 t2 : ℕ)
    → (maker_plan x t1 t2).expected_token ≡ (i_plan x).expected_token
unfolding taker_leg_plans plan_for
plan_token x t1 t2 = token_on x.swap.eth_asset (initiator_leg x.swap.direction)

module _ (shake256 : Text → List ℕ) where
  -- A text that is the same address as one that is not the zero address is not the zero address.
  assigned_elsewhere :
      (a b : Text) (leg : LegKey)
      → same_addr shake256 a b ≡ some true
      → same_addr shake256 b (leg_zero_address leg) ≡ some false
      → same_addr shake256 a (leg_zero_address leg) ≡ some false
  assigned_elsewhere a b leg h n =
      let (u, v, p, q, _) = same_addr_parts shake256 a b h in
      let zero = zero-IsAddress shake256 leg in
      let (r, e) = same_addr_returns shake256 a (leg_zero_address leg) (u, p) zero in
      let from = same_addr_equivalence shake256 b a (leg_zero_address leg) (v, q) in
      let back = (same_addr_equivalence shake256 a b b (u, p)).1 h in
      elim (Bool-cases r) [
        | inl t ↦ ground (arith, from.2 back (e ∙ ap some t), n)
        | inr f ↦ e ∙ ap some f
      ]

  IsVerified-of :
      (x : SwapMachineInput) (t1 t2 : ℕ)
      → same_addr shake256 (i_plan x).recipient (leg_zero_address (initiator_leg x.swap.direction))
        ≡ some false
      → (v : FundingIsVerified shake256 x t2)
      → IsVerified shake256 v.escrow (maker_plan x t1 t2) t2 claim_margin
  IsVerified-of x t1 t2 n v = record {
    locked = v.agreed.locked;
    assigned = rw (plan_leg x t1 t2) (
        assigned_elsewhere v.escrow.recipient (i_plan x).recipient _
          (same-true shake256 _ _ v.agreed.right_recipient) n);
    right_token = rw (plan_token x t1 t2) (same-true shake256 _ _ v.agreed.right_token);
    right_recipient = rw (plan_recipient x t1 t2) (same-true shake256 _ _ v.agreed.right_recipient);
    right_amount = v.agreed.right_amount ∙ sym (plan_amount x t1 t2);
    window = v.window;
  }

  IsAgreed-of :
      (x : SwapMachineInput) (t1 t2 : ℕ) (c : LegState)
      → IsVerified shake256 c (maker_plan x t1 t2) t2 claim_margin
      → IsAgreed shake256 c (i_plan x)
  IsAgreed-of x t1 t2 c v = record {
    locked = v.locked;
    right_token = same_of shake256 _ _ true (rw (plan_token x t1 t2) at v.right_token);
    right_recipient = same_of shake256 _ _ true (rw (plan_recipient x t1 t2) at v.right_recipient);
    right_amount = v.right_amount ∙ plan_amount x t1 t2;
  }

  still_assigned :
      (x : SwapMachineInput) (t1 t2 : ℕ) (c : LegState)
      → IsVerified shake256 c (maker_plan x t1 t2) t2 claim_margin
      → i_unassigned shake256 x c ≡ false
  unfolding unassigned
  still_assigned x t1 t2 c v =
      ap (λ z. same shake256 c.recipient z) (zero_address (initiator_leg x.swap.direction))
      ∙ same_of shake256 c.recipient (leg_zero_address (initiator_leg x.swap.direction)) false
          (rw (plan_leg x t1 t2) at v.assigned)

  -- The browser and the scripted taker agree: on the same swap, with the browser's margin and a
  -- taker whose account is not the zero address, the browser offers to fund exactly when the
  -- scripted taker's check of the maker's escrow passes, the responder leg is unused and the
  -- taker's deadline is not reached.
  pub browser-check_maker_lock :
      (x : SwapMachineInput) (t1 t2 : ℕ)
      → same_addr shake256 (i_plan x).recipient (leg_zero_address (initiator_leg x.swap.direction))
        ≡ some false
      → ((lock_responder_step shake256 x t2).can_run ≡ true) ↔ (
          (check_maker_lock shake256
              (i_confirmed x)
              (maker_plan x t1 t2)
              t2
              claim_margin
              x.swap.prelocked
            ≡ some ok)
          × ((own : LegState) × (r_state x ≡ some own) × (own.status ≡ no_swap))
          × (x.now < t2))
  browser-check_maker_lock x t1 t2 n =
      let same_check =
        check_maker_lock_iff shake256 (i_confirmed x) (maker_plan x t1 t2) t2 claim_margin
          x.swap.prelocked in
      (
        λ h.
            let v = (lock_responder_iff shake256 x t2).0 h in
            (
              same_check.1 (v.escrow, v.at_depth, IsVerified-of x t1 t2 n v),
              (v.own, v.has_own, v.unfunded),
              v.in_time,
            ),
        λ (c, (own, r, u), w).
            let (st, e, v) = same_check.0 c in
            (lock_responder_iff shake256 x t2).1 (record {
              escrow = st;
              at_depth = e;
              agreed = IsAgreed-of x t1 t2 st v;
              assigned = λ _. still_assigned x t1 t2 st v;
              window = v.window;
              in_time = w;
              own = own;
              has_own = r;
              unfunded = u;
            }),
      )
