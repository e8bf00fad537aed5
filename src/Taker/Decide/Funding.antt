-- ===== src/Taker/Decide/Funding.antt =====
-- When `decideTaker` (marketmaker/src/taker-policy.ts) escrows the taker's leg.
use quanta_swap.Prelude.{
  ℕ, ◌+◌, ◌<◌, ◌≡◌, sym, ap, ◌∙◌, inl, inr, Bool, true, false, some, List, arith, Text, of_some,
}
use quanta_swap.Chain.{LegState, no_swap, retry_ok}
use quanta_swap.Taker.Checks.{MakerLockCheck, ok, OwnLockCheck, check_own_lock}
use mathlib.Core.Path.{subst}
use quanta_swap.Chain.Spacing.{MaySend, retry_ok-MaySend}
use quanta_swap.Taker.Checks.Verified.{IsVerified, check_maker_lock_iff, check_own_lock-absent}
use quanta_swap.Taker.Decide.Inversion.{
  choose-needs_state, needs_state, with_state_cases, decide_taker-Rests,
}
use quanta_swap.Taker.Decide.{
  announced_timeout, exposed, TakerDecideInput, TakerVerdict, lock, Choice, FillTerms, fund,
  on_own_lock, wind_down, with_state, decide_taker,
}

fund-lock :
    (x : TakerDecideInput) (ex : Bool) (ml : MakerLockCheck) (t2 : ℕ)
    → (fund x ex ml t2).0 ≡ lock
    → (ml ≡ ok)
      × (x.sends.fill_acknowledged ≡ true)
      × (x.released ≡ false)
      × (x.cancelled ≡ false)
      × (x.now + x.lock_runway < t2)
      × (retry_ok x.sends.lock_sent_at x.now x.resend_after ≡ true)
unfolding fund
fund-lock x ex ml t2 h = ground arith

on_own_lock-lock :
    (x : TakerDecideInput) (ex : Bool) (ml : MakerLockCheck) (ol : OwnLockCheck) (t2 : ℕ)
    → (on_own_lock x ex ml ol t2).0 ≡ lock
    → (ol ≡ OwnLockCheck.absent) × ((fund x ex ml t2).0 ≡ lock)
unfolding on_own_lock
on_own_lock-lock x ex ml ol t2 h = ground arith

wind_down-lock :
    (x : TakerDecideInput) (ex : Bool) (ml : MakerLockCheck) (ol : OwnLockCheck) (t2 : ℕ)
    (r : LegState)
    → (wind_down x ex ml ol t2 r).0 ≡ lock
    → (on_own_lock x ex ml ol t2).0 ≡ lock
unfolding wind_down
wind_down-lock x ex ml ol t2 r h = ground arith

with_state-lock :
    (x : TakerDecideInput) (ex : Bool) (ml : MakerLockCheck) (ol : OwnLockCheck) (t2 : ℕ)
    (r : LegState)
    → (with_state x ex ml ol t2 r).0 ≡ lock
    → (wind_down x ex ml ol t2 r).0 ≡ lock
with_state-lock x ex ml ol t2 r h = elim (with_state_cases x ex ml ol t2 r) [
  | inl p ↦ ground (arith, p.1)
  | inr (inl p) ↦ ground (arith, p.1)
  | inr (inr e) ↦ ap (λ (c : Choice). c.0) (sym e) ∙ h
]

module _ (shake256 : Text → List ℕ) where
  pub record FundingIsSafe (x : TakerDecideInput) : Type 0 where
    pub escrow : LegState
    pub head : LegState
    pub fill : FillTerms
    pub has_escrow : x.i_confirmed ≡ some escrow
    pub has_fill : x.fill ≡ some fill
    pub has_head : x.r_state ≡ some head
    pub unfunded : head.status ≡ no_swap
    pub verified :
        IsVerified shake256 escrow x.plans.initiator fill.responder_timeout x.claim_safety
    pub acknowledged : x.sends.fill_acknowledged ≡ true
    pub not_released : x.released ≡ false
    pub not_cancelled : x.cancelled ≡ false
    pub runway : x.now + x.lock_runway < fill.responder_timeout
    pub spaced : MaySend x.sends.lock_sent_at x.now x.resend_after

  unfunded_head :
      (x : TakerDecideInput) (r : LegState)
      → x.r_state ≡ some r
      → check_own_lock shake256 x.r_state x.plans.responder x.our_responder_address
        ≡ some OwnLockCheck.absent
      → r.status ≡ no_swap
  unfunded_head x r e h =
      elim (check_own_lock-absent shake256 x.r_state x.plans.responder x.our_responder_address h) [
        | inl n ↦ ground (arith, n)
        | inr (q, f, s) ↦ ap (λ (a : LegState). a.status) (of_some (sym e ∙ f)) ∙ s
      ]

  -- The taker escrows its leg only against a maker escrow that the confirmed snapshot shows open,
  -- assigned to the taker's account, holding the agreed asset and amount, and whose deadline leaves
  -- the safety margin after the taker's own; while the chain shows no escrow on the taker's leg, the
  -- fill is durable, the take neither released nor cancelled, the runway fits before the taker's own
  -- deadline, and no other attempt was made within the resend interval.
  pub decide_taker-lock :
      (x : TakerDecideInput) (v : TakerVerdict)
      → decide_taker shake256 x ≡ some v
      → v.decision ≡ lock
      → FundingIsSafe x
  decide_taker-lock x v h d =
      let rests = decide_taker-Rests shake256 x v h in
      let (fill, r, f, s, w) =
        choose-needs_state x v.maker_lock v.own_lock _ rests.choice (ap needs_state d) in
      let t2 = fill.responder_timeout in
      let ex = exposed x v.own_lock in
      let (own, funds) = on_own_lock-lock x ex v.maker_lock v.own_lock t2 (
        wind_down-lock x ex v.maker_lock v.own_lock t2 r
          (with_state-lock x ex v.maker_lock v.own_lock t2 r (ap (λ (c : Choice). c.0) w ∙ d))) in
      let (good, ack, rel, can, run, retry) = fund-lock x ex v.maker_lock t2 funds in
      let (escrow, e, verified) =
        (check_maker_lock_iff shake256 x.i_confirmed x.plans.initiator (announced_timeout x.fill)
            x.claim_safety x.prelocked).0
          (rests.maker_lock ∙ ap some good) in
      record {
        escrow = escrow;
        head = r;
        fill = fill;
        has_escrow = e;
        has_fill = f;
        has_head = s;
        unfunded = unfunded_head x r s (rests.own_lock ∙ ap some own);
        verified =
            subst
              (λ g.
                IsVerified shake256 escrow x.plans.initiator (announced_timeout g) x.claim_safety)
              f verified;
        acknowledged = ack;
        not_released = rel;
        not_cancelled = can;
        runway = run;
        spaced = retry_ok-MaySend x.sends.lock_sent_at x.now x.resend_after retry;
      }
