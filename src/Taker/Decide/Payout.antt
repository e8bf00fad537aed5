-- ===== src/Taker/Decide/Payout.antt =====
-- What the taker can rely on once its leg is funded (`decideTaker` of
-- marketmaker/src/taker-policy.ts): a published secret is used in time, and an unclaimed escrow is
-- taken back.
use quanta_swap.Prelude.{
  ℕ, ◌+◌, ◌≤◌, ◌<◌, ◌≡◌, refl, sym, ap, ◌∙◌, ◌⊎◌, Bool, true, false, some, List, arith, Text,
  of_some, if◌then◌else◌,
}
use quanta_swap.Address.{same_addr}
use quanta_swap.Chain.{LegState, opened, claimed, terminal}
use quanta_swap.Chain.Spacing.{MaySend, MaySend-retry_ok}
use quanta_swap.Taker.Checks.{
  MakerLockCheck, OwnLockCheck, ours, ours_mismatched, check_maker_lock, check_own_lock,
}
use quanta_swap.Taker.Checks.Verified.{check_own_lock-settled, check_own_lock-own}
use quanta_swap.Taker.Decide.Inversion.{
  decide_taker_of, may_claim, may_refund, may_withdraw, both_terminal, maker_lapsed,
}
use quanta_swap.Taker.Decide.Funding.{decide_taker-lock}
use quanta_swap.Taker.Decide.{
  TakerDecideInput, TakerVerdict, Choice, claim, refund, lock, preimage_public, own_expired,
  FillTerms, wind_down, with_state, choose, decide_taker, exposed, announced_timeout, revealed,
  credit_leg,
}

exposed_choice :
    (x : TakerDecideInput) (ml : MakerLockCheck) (ol : OwnLockCheck) (fill : FillTerms)
    (r : LegState)
    → exposed x ol ≡ true
    → x.fill ≡ some fill
    → x.r_state ≡ some r
    → choose x ml ol ≡ with_state x true ml ol fill.responder_timeout r
unfolding choose
exposed_choice x ml ol fill r e f s = rw (e, f, s) refl

state-claim :
    (x : TakerDecideInput) (ex : Bool) (ml : MakerLockCheck) (ol : OwnLockCheck) (t2 : ℕ)
    (r : LegState)
    → may_claim x r ≡ true
    → with_state x ex ml ol t2 r ≡ (claim, preimage_public)
unfolding with_state
state-claim x ex ml ol t2 r h = rw h refl

may_claim_of :
    (x : TakerDecideInput) (i r : LegState)
    → x.i_state ≡ some i
    → i.status ≡ opened
    → x.now + x.claim_submit_margin < i.timeout
    → MaySend x.sends.claim_sent_at x.now x.resend_after
    → revealed r ≡ true
    → may_claim x r ≡ true
may_claim_of x i r e o w m p =
    ground (arith, MaySend-retry_ok x.sends.claim_sent_at x.now x.resend_after m)

exposed-settled : (x : TakerDecideInput) → exposed x OwnLockCheck.settled ≡ true
unfolding exposed
exposed-settled x = refl

module _ (shake256 : Text → List ℕ) where
  -- The state in which the maker has claimed our escrow and so published the secret.
  pub record IsRevealed (y : TakerDecideInput) (i r : LegState) : Type 0 where
    pub has_maker : y.i_state ≡ some i
    pub maker_open : i.status ≡ opened
    pub has_own : y.r_state ≡ some r
    pub funded_by_us : same_addr shake256 r.initiator y.our_responder_address ≡ some true
    pub own_claimed : r.status ≡ claimed
    pub published : revealed r ≡ true
    pub spaced : MaySend y.sends.claim_sent_at y.now y.resend_after

  revealed_claim :
      (y : TakerDecideInput) (ml : MakerLockCheck) (fill : FillTerms) (i r : LegState)
      → check_maker_lock shake256 y.i_confirmed y.plans.initiator
          (announced_timeout y.fill)
          y.claim_safety
          y.prelocked
        ≡ some ml
      → y.fill ≡ some fill
      → IsRevealed y i r
      → y.now + y.claim_submit_margin < i.timeout
      → (v : TakerVerdict) × (decide_taker shake256 y ≡ some v) × (v.decision ≡ claim)
  revealed_claim y ml fill i r c f v w =
      let settled =
        ap (λ s. check_own_lock shake256 s y.plans.responder y.our_responder_address) v.has_own
        ∙ check_own_lock-settled shake256 r y.plans.responder y.our_responder_address v.funded_by_us
            (rw v.own_claimed refl) (rw v.own_claimed refl) in
      let chosen =
        exposed_choice y ml OwnLockCheck.settled fill r (exposed-settled y) f v.has_own
        ∙ state-claim y true ml OwnLockCheck.settled fill.responder_timeout r
            (may_claim_of y i r v.has_maker v.maker_open w v.spaced v.published) in
      (
        _,
        decide_taker_of shake256 y ml OwnLockCheck.settled c settled,
        ap (λ (a : Choice). a.0) chosen,
      )

  -- A taker that funded its leg is paid: if the maker publishes the secret by claiming that leg
  -- before the taker's own deadline, while the maker's escrow is still open, then the decision at
  -- that time is to claim that escrow, whatever the book, the maker or the operator say by then.
  -- The escrow's deadline is the one read at funding, the margin for submitting a claim is at most
  -- the one that funding required, the check of the escrow throws no exception, and no claim was
  -- sent within the resend interval.
  pub funded_then_paid :
      (x y : TakerDecideInput) (v : TakerVerdict) (ml : MakerLockCheck) (fill : FillTerms)
      (escrow i r : LegState)
      → decide_taker shake256 x ≡ some v
      → v.decision ≡ lock
      → x.fill ≡ some fill
      → x.i_confirmed ≡ some escrow
      → y.fill ≡ some fill
      → check_maker_lock shake256 y.i_confirmed y.plans.initiator
          (announced_timeout y.fill)
          y.claim_safety
          y.prelocked
        ≡ some ml
      → IsRevealed y i r
      → i.timeout ≡ escrow.timeout
      → y.claim_submit_margin ≤ x.claim_safety
      → y.now < fill.responder_timeout
      → (w : TakerVerdict) × (decide_taker shake256 y ≡ some w) × (w.decision ≡ claim)
  funded_then_paid x y v ml fill escrow i r h d f e g c p t m n =
      let safe = decide_taker-lock shake256 x v h d in
      let same_fill = of_some (sym safe.has_fill ∙ f) in
      let same_escrow = of_some (sym safe.has_escrow ∙ e) in
      revealed_claim y ml fill i r c g p (
        omega (
          arith,
          safe.verified.window,
          ap (λ (a : FillTerms). a.responder_timeout) same_fill,
          ap (λ (a : LegState). a.timeout) same_escrow,
        ))

exposed-own :
    (x : TakerDecideInput) (ol : OwnLockCheck)
    → (ol ≡ ours) ⊎ (ol ≡ ours_mismatched)
    → exposed x ol ≡ true
unfolding exposed
exposed-own x ol h = ground arith

no_credit :
    (x : TakerDecideInput)
    → x.initiator_credit ≡ some 0
    → x.responder_credit ≡ some 0
    → may_withdraw x ≡ false
unfolding credit_leg
no_credit x a b = rw (a, b) refl

fourth_of :
    (a b c d : Bool) (p q r s t : Choice)
    → a ≡ false
    → b ≡ false
    → c ≡ false
    → d ≡ true
    → (if a then p else if b then q else if c then r else if d then s else t) ≡ s
fourth_of a b c d p q r s t e f g h = rw (e, f, g, h) refl

not-terminal-both :
    (x : TakerDecideInput) (r : LegState) → terminal (some r) ≡ false → both_terminal x r ≡ false
not-terminal-both x r b = ground (arith, b)

not-terminal-lapsed :
    (x : TakerDecideInput) (r : LegState) → terminal (some r) ≡ false → maker_lapsed x r ≡ false
not-terminal-lapsed x r b = ground (arith, b)

wind_down-refund :
    (x : TakerDecideInput) (ex : Bool) (ml : MakerLockCheck) (ol : OwnLockCheck) (t2 : ℕ)
    (r : LegState)
    → may_withdraw x ≡ false
    → terminal (some r) ≡ false
    → may_refund x ol r ≡ true
    → wind_down x ex ml ol t2 r ≡ (refund, own_expired)
unfolding wind_down
wind_down-refund x ex ml ol t2 r a b c =
    fourth_of (may_withdraw x) (both_terminal x r) (maker_lapsed x r) (may_refund x ol r) _ _ _ _ _
      a (not-terminal-both x r b) (not-terminal-lapsed x r b) c

state-refund :
    (x : TakerDecideInput) (ex : Bool) (ml : MakerLockCheck) (ol : OwnLockCheck) (t2 : ℕ)
    (r : LegState)
    → revealed r ≡ false
    → with_state x ex ml ol t2 r ≡ wind_down x ex ml ol t2 r
unfolding with_state
state-refund x ex ml ol t2 r h = rw h refl

opened-not-terminal : (r : LegState) → r.status ≡ opened → terminal (some r) ≡ false
unfolding terminal
opened-not-terminal r h = rw h refl

module _ (shake256 : Text → List ℕ) where
  -- An escrow of ours that is open at or past its own timeout, with no secret published on it, is
  -- taken back whatever the book says and whether or not its terms are the agreed ones. The take
  -- has its terms, no refund was sent within the resend interval, both payout credits were read as
  -- zero, and the escrow checks throw no exception.
  pub expired_then_refunded :
      (x : TakerDecideInput) (ml : MakerLockCheck) (ol : OwnLockCheck) (fill : FillTerms)
      (r : LegState)
      → x.fill ≡ some fill
      → x.r_state ≡ some r
      → check_maker_lock shake256 x.i_confirmed x.plans.initiator
          (announced_timeout x.fill)
          x.claim_safety
          x.prelocked
        ≡ some ml
      → check_own_lock shake256 x.r_state x.plans.responder x.our_responder_address ≡ some ol
      → (ol ≡ ours) ⊎ (ol ≡ ours_mismatched)
      → r.timeout ≤ x.now
      → revealed r ≡ false
      → x.initiator_credit ≡ some 0
      → x.responder_credit ≡ some 0
      → MaySend x.sends.refund_sent_at x.now x.resend_after
      → (v : TakerVerdict) × (decide_taker shake256 x ≡ some v) × (v.decision ≡ refund)
  expired_then_refunded x ml ol fill r f s m o own late hidden a b may =
      let (locked, by_us) =
        check_own_lock-own shake256 r x.plans.responder x.our_responder_address ol own (
          ap (λ q. check_own_lock shake256 q x.plans.responder x.our_responder_address) (sym s)
          ∙ o) in
      let t2 = fill.responder_timeout in
      let chosen =
        exposed_choice x ml ol fill r (exposed-own x ol own) f s
        ∙ state-refund x true ml ol t2 r hidden
        ∙ wind_down-refund x true ml ol t2 r (no_credit x a b) (opened-not-terminal r locked)
            (ground (arith, MaySend-retry_ok x.sends.refund_sent_at x.now x.resend_after may)) in
      (_, decide_taker_of shake256 x ml ol m o, ap (λ (c : Choice). c.0) chosen)
