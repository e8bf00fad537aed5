-- ===== src/Browser/Payout.antt =====
-- Once the secret is public, the browser offers the claim in time (`deriveSwapMachine` of
-- frontend/src/lib/swapMachine.ts).
use quanta_swap.Prelude.{
  ℕ, ◌+◌, ◌<◌, ◌≡◌, ◌↔◌, refl, sym, ap, ◌∙◌, Bool, true, false, not, ◌&&◌, ◌||◌, Option, some, List,
  arith, Text, &&_parts, of_some,
}
use quanta_swap.Chain.{LegState, opened, is_opened, claim_cutoff_blocked}
use quanta_swap.Browser.Machine.{SwapMachineInput, claim_margin, has, truthy, published_preimage}
use quanta_swap.Browser.Steps.{i_state, r_state, i_confirmed, i_unassigned}
use quanta_swap.Browser.Commit.{has_parts, is_open, lock_responder-can_run}
use quanta_swap.Browser.Derive.{cutoff, lock_responder_step, claim_initiator_step}

within_window :
    (timeout now margin : ℕ)
    → not (claim_cutoff_blocked timeout now margin) ≡ true
    → now + margin < timeout
unfolding claim_cutoff_blocked
within_window timeout now margin h = ground arith

open_window :
    (timeout now margin : ℕ)
    → now + margin < timeout
    → claim_cutoff_blocked timeout now margin ≡ false
unfolding claim_cutoff_blocked
open_window timeout now margin h = ground arith

has_of :
    (s : Option LegState) (test : LegState → Bool) (st : LegState)
    → s ≡ some st
    → has s test ≡ test st
has_of s test st e = ap (λ q. has q test) e

ready_of : (o p u : Bool) → o ≡ true → (p ≡ true → u ≡ false) → (o && (not p || not u)) ≡ true
ready_of o true u h k = rw (h, k refl) refl
ready_of o false u h k = rw h refl

is_opened_of : (st : LegState) → st.status ≡ opened → is_opened st.status ≡ true
is_opened_of st h = rw h refl

module _ (shake256 : Text → List ℕ) where
  -- The secret is public, and the escrow can be claimed.
  pub record IsClaimable (x : SwapMachineInput) (st : LegState) : Type 0 where
    pub has_escrow : i_state x ≡ some st
    pub still_open : st.status ≡ opened
    pub assigned : x.swap.prelocked ≡ true → i_unassigned shake256 x st ≡ false
    pub public : truthy (published_preimage (r_state x)) ≡ true

  cutoff_at :
      (x : SwapMachineInput) (st : LegState)
      → i_state x ≡ some st
      → cutoff shake256 x ≡ claim_cutoff_blocked st.timeout x.now claim_margin
  unfolding cutoff
  cutoff_at x st e = has_of (i_state x) _ st e

  can_claim :
      (x : SwapMachineInput) (st : LegState)
      → IsClaimable x st
      → x.now + claim_margin < st.timeout
      → (claim_initiator_step shake256 x).can_run ≡ true
  unfolding claim_initiator_step
  can_claim x st c w =
      rw
        (
          c.public,
          has_of (i_state x)
              (λ q. is_opened q.status && (not x.swap.prelocked || not (i_unassigned shake256 x q)))
              st c.has_escrow,
          ready_of (is_opened st.status) x.swap.prelocked (i_unassigned shake256 x st)
              (is_opened_of st c.still_open) c.assigned,
          cutoff_at x st c.has_escrow,
          open_window st.timeout x.now claim_margin w,
        )
        refl

  claim_parts :
      (x : SwapMachineInput)
      → (claim_initiator_step shake256 x).can_run ≡ true
      → (st : LegState) × IsClaimable x st × (x.now + claim_margin < st.timeout)
  unfolding claim_initiator_step
  claim_parts x h =
      let (p, q) = &&_parts _ _ h in
      let (e, w) = &&_parts _ _ q in
      let (st, s, o) = has_parts (i_state x) _ e in
      let (ready, free) = &&_parts _ _ o in
      (
        st,
        record {
          has_escrow = s;
          still_open = is_open st ready;
          assigned = λ a. ground (arith, free, a);
          public = p;
        },
        within_window st.timeout x.now claim_margin (sym (ap not (cutoff_at x st s)) ∙ w),
      )

  -- The browser offers the taker the claim exactly when the secret is public, the maker's escrow is
  -- open and assigned, and its own deadline is more than the claim margin away.
  pub claim_initiator_iff :
      (x : SwapMachineInput)
      → ((claim_initiator_step shake256 x).can_run ≡ true)
        ↔ ((st : LegState) × IsClaimable x st × (x.now + claim_margin < st.timeout))
  claim_initiator_iff x = (claim_parts x, λ w. can_claim x w.0 w.1 w.2)

  -- A taker that the browser let fund its leg can claim: if the maker publishes the secret before
  -- the taker's own deadline and the escrow, with the deadline it had at funding, is still open and
  -- assigned, then the browser offers the claim.
  pub offered_then_claimable :
      (x y : SwapMachineInput) (t2 : ℕ) (escrow st : LegState)
      → (lock_responder_step shake256 x t2).can_run ≡ true
      → i_confirmed x ≡ some escrow
      → IsClaimable y st
      → st.timeout ≡ escrow.timeout
      → y.now < t2
      → (claim_initiator_step shake256 y).can_run ≡ true
  offered_then_claimable x y t2 escrow st h e c t n =
      let v = lock_responder-can_run shake256 x t2 h in
      let same_escrow = ap (λ (s : LegState). s.timeout) (of_some (sym v.at_depth ∙ e)) in
      can_claim y st c (omega (arith, v.window, same_escrow, t, n))
