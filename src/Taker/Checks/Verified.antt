-- ===== src/Taker/Checks/Verified.antt =====
-- Exactly which escrows `checkMakerLock` and `checkOwnLock` of marketmaker/src/taker-policy.ts accept.
use quanta_swap.Prelude.{
  ℕ, ◌+◌, ◌≤◌, ◌≡◌, ◌↔◌, ◌≢◌, ◌∙◌, refl, ◌⊎◌, inl, inr, Bool, true, false, Option, none, some, List,
  arith, Text,
}
use quanta_swap.Address.{same_addr}
use quanta_swap.Chain.{LegState, no_swap, opened, is_opened, is_no_swap}
use quanta_swap.Taker.Plan.{TakerLegPlan}
use quanta_swap.Taker.Checks.{
  ok, OwnLockCheck, ours, ours_mismatched, foreign, check_open, check_maker_lock, check_own_lock,
  leg_zero_address,
}

module _ (shake256 : Text → List ℕ) where
  -- The escrow is open, has a recipient, and carries the agreed asset, recipient and amount, with
  -- the claim margin left after our own deadline.
  pub record IsVerified (c : LegState) (plan : TakerLegPlan) (responder_timeout claim_margin : ℕ)
      : Type 0 where
    pub locked : c.status ≡ opened
    pub assigned : same_addr shake256 c.recipient (leg_zero_address plan.leg) ≡ some false
    pub right_token : same_addr shake256 c.token plan.expected_token ≡ some true
    pub right_recipient : same_addr shake256 c.recipient plan.recipient ≡ some true
    pub right_amount : c.amount ≡ plan.amount
    pub window : responder_timeout + claim_margin ≤ c.timeout

  check_open_ok :
      (c : LegState) (plan : TakerLegPlan) (t m : ℕ) (p : Bool)
      → c.status ≡ opened
      → check_open shake256 c plan t m p ≡ some ok
      → IsVerified c plan t m
  unfolding check_open
  check_open_ok c plan t m p o h = record {
    locked = o;
    assigned = ground arith;
    right_token = ground arith;
    right_recipient = ground arith;
    right_amount = ground arith;
    window = ground arith;
  }

  check_open_of :
      (c : LegState) (plan : TakerLegPlan) (t m : ℕ) (p : Bool)
      → IsVerified c plan t m
      → check_open shake256 c plan t m p ≡ some ok
  unfolding check_open
  check_open_of c plan t m p v = ground arith

  opened_of :
      (c : LegState) (plan : TakerLegPlan) (t m : ℕ) (p : Bool)
      → check_maker_lock shake256 (some c) plan t m p ≡ some ok
      → (c.status ≡ opened) × (check_open shake256 c plan t m p ≡ some ok)
  unfolding check_maker_lock
  opened_of c plan t m p h = ground arith

  none_not_ok :
      (plan : TakerLegPlan) (t m : ℕ) (p : Bool)
      → check_maker_lock shake256 none plan t m p ≢ some ok
  unfolding check_maker_lock
  none_not_ok plan t m p h = ground arith

  checks_open :
      (c : LegState) (plan : TakerLegPlan) (t m : ℕ) (p : Bool)
      → c.status ≡ opened
      → check_maker_lock shake256 (some c) plan t m p ≡ check_open shake256 c plan t m p
  unfolding check_maker_lock
  checks_open c plan t m p o = rw o refl

  IsVerified-of :
      (s : Option LegState) (plan : TakerLegPlan) (t m : ℕ) (p : Bool)
      → check_maker_lock shake256 s plan t m p ≡ some ok
      → (c : LegState) × (s ≡ some c) × IsVerified c plan t m
  IsVerified-of none plan t m p h = absurd (none_not_ok plan t m p h)
  IsVerified-of (some c) plan t m p h =
      let (o, k) = opened_of c plan t m p h in (c, refl, check_open_ok c plan t m p o k)

  check_maker_lock_of :
      (c : LegState) (plan : TakerLegPlan) (t m : ℕ) (p : Bool)
      → IsVerified c plan t m
      → check_maker_lock shake256 (some c) plan t m p ≡ some ok
  check_maker_lock_of c plan t m p v =
      checks_open c plan t m p v.locked ∙ check_open_of c plan t m p v

  -- The maker's escrow passes exactly when its confirmed state exists and is open, has a
  -- recipient, and carries the agreed asset, recipient and amount, with the claim margin left
  -- after our own deadline: nothing else passes, and nothing that should pass is refused.
  pub check_maker_lock_iff :
      (s : Option LegState) (plan : TakerLegPlan) (t m : ℕ) (p : Bool)
      → (check_maker_lock shake256 s plan t m p ≡ some ok)
        ↔ ((c : LegState) × (s ≡ some c) × IsVerified c plan t m)
  check_maker_lock_iff s plan t m p =
      (IsVerified-of s plan t m p, λ w. rw w.1 (check_maker_lock_of w.0 plan t m p w.2))

  -- Our leg reads as unfunded only when the chain shows no escrow under the hashlock.
  pub check_own_lock-absent :
      (s : Option LegState) (plan : TakerLegPlan) (us : Text)
      → check_own_lock shake256 s plan us ≡ some OwnLockCheck.absent
      → (s ≡ none) ⊎ ((r : LegState) × (s ≡ some r) × (r.status ≡ no_swap))
  unfolding check_own_lock
  check_own_lock-absent none plan us h = inl refl
  check_own_lock-absent (some r) plan us h = inr (r, refl, ground arith)

  -- An escrow of ours is open, and we funded it.
  pub check_own_lock-own :
      (r : LegState) (plan : TakerLegPlan) (us : Text) (ol : OwnLockCheck)
      → (ol ≡ ours) ⊎ (ol ≡ ours_mismatched)
      → check_own_lock shake256 (some r) plan us ≡ some ol
      → (r.status ≡ opened) × (same_addr shake256 r.initiator us ≡ some true)
  unfolding check_own_lock
  check_own_lock-own r plan us ol k h = ground arith

  pub check_own_lock-settled :
      (r : LegState) (plan : TakerLegPlan) (us : Text)
      → same_addr shake256 r.initiator us ≡ some true
      → is_opened r.status ≡ false
      → is_no_swap r.status ≡ false
      → check_own_lock shake256 (some r) plan us ≡ some OwnLockCheck.settled
  unfolding check_own_lock
  check_own_lock-settled r plan us a b c = ground arith

  pub check_own_lock-foreign :
      (s : Option LegState) (plan : TakerLegPlan) (us : Text)
      → check_own_lock shake256 s plan us ≡ some foreign
      → (r : LegState) × (s ≡ some r) × (same_addr shake256 r.initiator us ≡ some false)
  unfolding check_own_lock
  check_own_lock-foreign none plan us h = ground arith
  check_own_lock-foreign (some r) plan us h = (r, refl, ground arith)
