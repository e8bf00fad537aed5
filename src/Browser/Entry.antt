-- ===== src/Browser/Entry.antt =====
-- What the whole of `deriveSwapMachine` (frontend/src/lib/swapMachine.ts) returns: its steps are
-- those of the other files, under the terms that the stored swap has.
use quanta_swap.Prelude.{
  ℕ, ◌+◌, ◌<◌, ◌≡◌, ◌↔◌, ◌≢◌, refl, sym, ap, ◌∙◌, inl, inr, true, not, ◌&&◌, Option, none, some,
  List, arith, Text, is_null, if_true, if_false, Bool-cases, of_some, &&_parts,
}
use quanta_swap.Chain.{LegState}
use quanta_swap.Browser.Machine.{StepModel, SwapMachineInput, claim_margin, truthy}
use quanta_swap.Browser.Derive.{
  SwapMachine, machine_of, lock_responder_step, claim_responder_step, claim_initiator_step,
  after_terms, derive_swap_machine,
}
use quanta_swap.Browser.Commit.{FundingIsVerified, RevealIsVerified, claim_responder-can_run}
use quanta_swap.Browser.Offer.{lock_responder_iff}
use quanta_swap.Browser.Payout.{IsClaimable, claim_initiator_iff}

none_ne_some {ℓ} : {A : Type ℓ} (a : A) → none ≢ some a
none_ne_some a h = ground (arith, h)

known : (t : Option ℕ) → not (is_null t) ≡ true → (n : ℕ) × (t ≡ some n)
known none h = ground (arith, h)
known (some n) h = (n, refl)

module _ (shake256 : Text → List ℕ) where
  -- A machine is derived only for a swap that has its hashlock and both timeouts.
  pub record HasTerms (x : SwapMachineInput) (m : SwapMachine) : Type 0 where
    pub t1 : ℕ
    pub t2 : ℕ
    pub hashlock : truthy x.swap.hashlock ≡ true
    pub has_t1 : x.swap.initiator_timeout ≡ some t1
    pub has_t2 : x.swap.responder_timeout ≡ some t2
    pub machine : machine_of shake256 x t2 ≡ m

  after_terms_parts :
      (x : SwapMachineInput) (t : Option ℕ) (m : SwapMachine)
      → after_terms shake256 x t ≡ some m
      → (t2 : ℕ) × (t ≡ some t2) × (machine_of shake256 x t2 ≡ m)
  unfolding after_terms
  after_terms_parts x none m h = absurd (none_ne_some m h)
  after_terms_parts x (some t2) m h = (t2, refl, of_some h)

  derived :
      (x : SwapMachineInput) (m : SwapMachine)
      → derive_swap_machine shake256 x ≡ some m
      → HasTerms x m
  unfolding derive_swap_machine
  derived x m h =
      elim (Bool-cases (truthy x.swap.hashlock && not (is_null x.swap.initiator_timeout))) [
        | inl e ↦
            let (a, b) = &&_parts _ _ e in
            let (t1, c) = known x.swap.initiator_timeout b in
            let (t2, d, f) =
              after_terms_parts x x.swap.responder_timeout m (sym (if_true _ _ _ e) ∙ h) in
            record { t1 = t1; t2 = t2; hashlock = a; has_t1 = c; has_t2 = d; machine = f }
        | inr e ↦ absurd (none_ne_some m (sym (if_false _ _ _ e) ∙ h))
      ]

  second_of :
      (x : SwapMachineInput) (t2 : ℕ)
      → (machine_of shake256 x t2).second ≡ lock_responder_step shake256 x t2
  unfolding machine_of
  second_of x t2 = refl

  third_of :
      (x : SwapMachineInput) (t2 : ℕ)
      → (machine_of shake256 x t2).third ≡ claim_responder_step shake256 x t2
  unfolding machine_of
  third_of x t2 = refl

  fourth_of :
      (x : SwapMachineInput) (t2 : ℕ)
      → (machine_of shake256 x t2).fourth ≡ claim_initiator_step shake256 x
  unfolding machine_of
  fourth_of x t2 = refl

  can : (a b : StepModel) → a ≡ b → (a.can_run ≡ true) → (b.can_run ≡ true)
  can a b e h = sym (ap (λ (s : StepModel). s.can_run) e) ∙ h

  -- In every machine that is derived, the second step can run exactly when the maker's escrow is
  -- verified for funding under the stored responder timeout, and the fourth exactly when the secret
  -- is public and the maker's escrow is open, assigned if the swap is pre-funded, and leaves more
  -- than the claim margin.
  pub derive_swap_machine_steps :
      (x : SwapMachineInput) (m : SwapMachine)
      → derive_swap_machine shake256 x ≡ some m
      → (t2 : ℕ) × (x.swap.responder_timeout ≡ some t2)
        × ((m.second.can_run ≡ true) ↔ FundingIsVerified shake256 x t2)
        × ((m.fourth.can_run ≡ true)
            ↔ ((st : LegState) × IsClaimable shake256 x st × (x.now + claim_margin < st.timeout)))
  derive_swap_machine_steps x m h =
      let d = derived x m h in
      let second = ap (λ (k : SwapMachine). k.second) (sym d.machine) ∙ second_of x d.t2 in
      let fourth = ap (λ (k : SwapMachine). k.fourth) (sym d.machine) ∙ fourth_of x d.t2 in
      let funding = lock_responder_iff shake256 x d.t2 in
      let claiming = claim_initiator_iff shake256 x in
      (
        d.t2,
        d.has_t2,
        (λ r. funding.0 (can _ _ second r), λ v. can _ _ (sym second) (funding.1 v)),
        (λ r. claiming.0 (can _ _ fourth r), λ v. can _ _ (sym fourth) (claiming.1 v)),
      )

  -- A derived machine offers to reveal the secret only if our own escrow is open, and assigned if
  -- the swap is pre-funded, and the taker's escrow, at the confirmation depth, is as agreed with its
  -- own deadline at least the claim margin away.
  pub derive_swap_machine-RevealIsVerified :
      (x : SwapMachineInput) (m : SwapMachine)
      → derive_swap_machine shake256 x ≡ some m
      → m.third.can_run ≡ true
      → (t2 : ℕ) × (x.swap.responder_timeout ≡ some t2) × RevealIsVerified shake256 x t2
  derive_swap_machine-RevealIsVerified x m h r =
      let d = derived x m h in
      let third = ap (λ (k : SwapMachine). k.third) (sym d.machine) ∙ third_of x d.t2 in
      (d.t2, d.has_t2, claim_responder-can_run shake256 x d.t2 (can _ _ third r))
