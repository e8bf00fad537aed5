-- ===== src/Browser/Commit.antt =====
-- What the browser has verified when it offers to commit funds or to reveal the secret
-- (`deriveSwapMachine` of frontend/src/lib/swapMachine.ts).
use quanta_swap.Prelude.{
  ℕ, ◌+◌, ◌≤◌, ◌<◌, ◌≡◌, refl, sym, ap, ◌∙◌, Bool, true, false, not, ◌&&◌, Option, none, some, List,
  arith, Text, ltb, ◌==◌, if◌then◌else◌, is_null, &&_parts, ==_iff, ltb→lt,
}
use quanta_swap.Chain.{LegState, opened, no_swap, is_opened, is_no_swap}
use quanta_swap.Browser.Machine.{
  LegPlan, StepIssue, little_claim_window, little_reveal_window, SwapMachineInput, claim_margin,
  has, truthy,
}
use quanta_swap.Browser.Steps.{
  i_state, r_state, i_confirmed, r_confirmed, i_plan, r_plan, same, first_issue, token_issue,
  i_unassigned, awaiting_assign, lock_issue, initiator_issue, responder_issue, initiator_lock_issue,
  responder_lock_issue,
}
use quanta_swap.Browser.Derive.{lock_responder_step, claim_responder_step}

pub has_parts :
    (o : Option LegState) (test : LegState → Bool)
    → has o test ≡ true
    → (st : LegState) × (o ≡ some st) × (test st ≡ true)
has_parts none test h = ground arith
has_parts (some st) test h = (st, refl, h)

pub is_open : (s : LegState) → is_opened s.status ≡ true → s.status ≡ opened
is_open s h = ground arith

is_none : (s : LegState) → is_no_swap s.status ≡ true → s.status ≡ no_swap
is_none s h = ground arith

first_issue_parts :
    (a b : Option StepIssue)
    → is_null (first_issue a b) ≡ true
    → (is_null a ≡ true) × (is_null b ≡ true)
first_issue_parts none b h = (refl, h)
first_issue_parts (some i) b h = ground (arith, h)

tail_parts :
    (a b late : Bool) (i j k : StepIssue)
    → is_null (if not a then some i else if not b then some j else if late then some k else none)
      ≡ true
    → (a ≡ true) × (b ≡ true) × (late ≡ false)
tail_parts true true false i j k h = (refl, refl, refl)
tail_parts true true true i j k h = ground (arith, h)
tail_parts true false late i j k h = ground (arith, h)
tail_parts false b late i j k h = ground (arith, h)

calm : (b : Bool) → not b ≡ true → b ≡ false
calm b h = ground arith

module _ (shake256 : Text → List ℕ) where
  -- The escrow is open with the agreed asset, recipient and amount.
  pub record IsAgreed (st : LegState) (plan : LegPlan) : Type 0 where
    pub locked : st.status ≡ opened
    pub right_token : same shake256 st.token plan.expected_token ≡ true
    pub right_recipient : same shake256 st.recipient plan.recipient ≡ true
    pub right_amount : st.amount ≡ plan.amount

  pub token_agreed :
      (token : Text) (plan : LegPlan)
      → is_null (token_issue shake256 token plan) ≡ true
      → same shake256 token plan.expected_token ≡ true
  unfolding token_issue
  token_agreed token plan h = ground arith

  pub IsAgreed-of :
      (st : LegState) (plan : LegPlan) (late : Bool) (window : StepIssue)
      → st.status ≡ opened
      → is_null (lock_issue shake256 st plan late window) ≡ true
      → IsAgreed st plan × (late ≡ false)
  unfolding lock_issue
  IsAgreed-of st plan late window o h =
      let (t, rest) = first_issue_parts (token_issue shake256 st.token plan) _ h in
      let (r, q, l) =
        tail_parts (same shake256 st.recipient plan.recipient) (st.amount == plan.amount) late _ _ _
          rest in
      (
        record {
          locked = o;
          right_token = token_agreed st.token plan t;
          right_recipient = r;
          right_amount = (==_iff st.amount plan.amount).0 q;
        },
        l,
      )

  -- What the taker has when its browser offers to fund the responder leg.
  pub record FundingIsVerified (x : SwapMachineInput) (t2 : ℕ) : Type 0 where
    pub escrow : LegState
    pub at_depth : i_confirmed x ≡ some escrow
    pub agreed : IsAgreed escrow (i_plan x)
    pub assigned : x.swap.prelocked ≡ true → i_unassigned shake256 x escrow ≡ false
    pub window : t2 + claim_margin ≤ escrow.timeout
    pub in_time : x.now < t2
    pub own : LegState
    pub has_own : r_state x ≡ some own
    pub unfunded : own.status ≡ no_swap

  -- What the maker has when its browser offers to reveal the secret on the responder leg.
  pub record RevealIsVerified (x : SwapMachineInput) (t2 : ℕ) : Type 0 where
    pub escrow : LegState
    pub has_escrow : i_state x ≡ some escrow
    pub escrow_open : escrow.status ≡ opened
    pub assigned : x.swap.prelocked ≡ true → i_unassigned shake256 x escrow ≡ false
    pub counter : LegState
    pub at_depth : r_confirmed x ≡ some counter
    pub agreed : IsAgreed counter (r_plan x)
    pub window : x.now + claim_margin ≤ counter.timeout
    pub in_time : x.now < t2
    pub secret : truthy x.swap.preimage ≡ true

  i_issue :
      (s : Option LegState) (plan : LegPlan) (awaits : Bool) (t2 : ℕ) (st : LegState)
      → s ≡ some st
      → st.status ≡ opened
      → awaits ≡ false
      → initiator_issue shake256 s plan awaits t2
        ≡ lock_issue shake256 st plan (ltb st.timeout (t2 + claim_margin)) little_claim_window
  unfolding initiator_issue
  i_issue s plan awaits t2 st e o a = rw (e, o, a) refl

  r_issue :
      (s : Option LegState) (plan : LegPlan) (now : ℕ) (st : LegState)
      → s ≡ some st
      → st.status ≡ opened
      → responder_issue shake256 s plan now
        ≡ lock_issue shake256 st plan (ltb st.timeout (now + claim_margin)) little_reveal_window
  unfolding responder_issue
  r_issue s plan now st e o = rw (e, o) refl

  assigned_of :
      (s : Option LegState) (p : Bool) (test : LegState → Bool) (st : LegState)
      → s ≡ some st
      → st.status ≡ opened
      → (p && has s (λ q. is_opened q.status && test q)) ≡ false
      → p ≡ true
      → test st ≡ false
  assigned_of s p test st e o a h =
      ground (arith, ap (λ q. has q (λ r. is_opened r.status && test r)) e)

  i-IsAgreed :
      (x : SwapMachineInput) (t2 : ℕ) (st : LegState)
      → i_confirmed x ≡ some st
      → st.status ≡ opened
      → awaiting_assign shake256 x ≡ false
      → is_null (initiator_lock_issue shake256 x t2) ≡ true
      → IsAgreed st (i_plan x) × (ltb st.timeout (t2 + claim_margin) ≡ false)
  unfolding initiator_lock_issue
  i-IsAgreed x t2 st e o a h = IsAgreed-of st (i_plan x) _ little_claim_window o (
      sym (ap is_null (i_issue (i_confirmed x) (i_plan x) (awaiting_assign shake256 x) t2 st e o a))
      ∙ h)

  r-IsAgreed :
      (x : SwapMachineInput) (st : LegState)
      → r_confirmed x ≡ some st
      → st.status ≡ opened
      → is_null (responder_lock_issue shake256 x) ≡ true
      → IsAgreed st (r_plan x) × (ltb st.timeout (x.now + claim_margin) ≡ false)
  unfolding responder_lock_issue
  r-IsAgreed x st e o h =
      IsAgreed-of st (r_plan x) _ little_reveal_window o
        (sym (ap is_null (r_issue (r_confirmed x) (r_plan x) x.now st e o)) ∙ h)

  not_awaiting :
      (x : SwapMachineInput) (st : LegState)
      → i_confirmed x ≡ some st
      → st.status ≡ opened
      → awaiting_assign shake256 x ≡ false
      → x.swap.prelocked ≡ true
      → i_unassigned shake256 x st ≡ false
  unfolding awaiting_assign
  not_awaiting x st e o a p = assigned_of (i_confirmed x) x.swap.prelocked _ st e o a p

  not_ltb : (a b : ℕ) → ltb a b ≡ false → b ≤ a
  not_ltb a b h = ground arith

  -- The browser offers the taker to fund its leg only if, at the confirmation depth, the maker's
  -- escrow is open with the agreed asset, recipient and amount, is assigned, and outlives the
  -- taker's own deadline by the claim margin; the responder leg is unused and that deadline is not
  -- reached.
  pub lock_responder-can_run :
      (x : SwapMachineInput) (t2 : ℕ)
      → (lock_responder_step shake256 x t2).can_run ≡ true
      → FundingIsVerified x t2
  unfolding lock_responder_step
  lock_responder-can_run x t2 h =
      let (a, b) = &&_parts _ _ h in
      let (c, d) = &&_parts _ _ b in
      let (e, f) = &&_parts _ _ d in
      let (g, k) = &&_parts _ _ f in
      let (st, s, o) = has_parts (i_confirmed x) _ a in
      let (own, r, n) = has_parts (r_state x) _ g in
      let (agree, w) = i-IsAgreed x t2 st s (is_open st o) (calm _ e) c in
      record {
        escrow = st;
        at_depth = s;
        agreed = agree;
        assigned = not_awaiting x st s (is_open st o) (calm _ e);
        window = not_ltb _ _ w;
        in_time = ltb→lt _ _ k;
        own = own;
        has_own = r;
        unfunded = is_none own n;
      }

  -- The browser offers the maker to reveal the secret only if its own escrow is open and assigned,
  -- and the taker's escrow, at the confirmation depth, is open with the agreed asset, recipient and
  -- amount and its own deadline, read from the chain, is at least the claim margin away.
  pub claim_responder-can_run :
      (x : SwapMachineInput) (t2 : ℕ)
      → (claim_responder_step shake256 x t2).can_run ≡ true
      → RevealIsVerified x t2
  unfolding claim_responder_step
  claim_responder-can_run x t2 h =
      let (a, b) = &&_parts _ _ h in
      let (c, d) = &&_parts _ _ b in
      let (e, f) = &&_parts _ _ d in
      let (g, k) = &&_parts _ _ f in
      let (own, s, o) = has_parts (i_state x) _ c in
      let (st, r, n) = has_parts (r_confirmed x) _ e in
      let (agree, w) = r-IsAgreed x st r (is_open st n) g in
      let (ready, free) = &&_parts _ _ o in
      record {
        escrow = own;
        has_escrow = s;
        escrow_open = is_open own ready;
        assigned = λ p. ground (arith, free, p);
        counter = st;
        at_depth = r;
        agreed = agree;
        window = not_ltb _ _ w;
        in_time = ltb→lt _ _ k;
        secret = a;
      }
