-- ===== src/Taker/Decide/Inversion.antt =====
-- What a verdict of `decideTaker` (marketmaker/src/taker-policy.ts) was made from.
use quanta_swap.Prelude.{
  ℕ, ◌≡◌, refl, sym, ◌∙◌, ◌⊎◌, inl, inr, Bool, true, false, Option, none, some, List, arith, Text,
  if◌then◌else◌, or_else, of_some, not, ◌&&◌, ◌+◌, ltb, leb, is_null,
}
use mathlib.Core.Path.{subst}
use quanta_swap.Chain.{LegState, is_opened, terminal, retry_ok}
use quanta_swap.Taker.Checks.{MakerLockCheck, OwnLockCheck, check_maker_lock, check_own_lock}
use quanta_swap.Taker.Decide.{
  lock, finish, FillTerms, claim, wait, withdraw, refund, preimage_public, claim_window_closed,
  credit_to_collect, both_settled, maker_expired, own_expired, has, is_own, revealed, retired,
  on_own_lock, wind_down, with_state, TakerDecideInput, TakerVerdict, TakerDecision, Choice,
  walk_away, exposed, with_fill, choose, decide_taker, announced_timeout, revealed_preimage,
  credit_leg,
}

or_else_cases :
    (e : Bool) (w : Option Choice) (d : Choice)
    → ((e ≡ false) × (w ≡ some (or_else (if e then none else w) d)))
      ⊎ (or_else (if e then none else w) d ≡ d)
or_else_cases true w d = inr refl
or_else_cases false none d = inr refl
or_else_cases false (some c) d = inl (refl, refl)

none-ne-some : {A : Type 0} {a : A} → ◌≡◌ {A = Option A} none (some a) → ⊥
none-ne-some h = cc

three_ways :
    (a b : Bool) (p q r : Choice)
    → let w = if a then p else if b then q else r in
      (a ≡ true) × (w ≡ p) ⊎ ((b ≡ true) × (w ≡ q) ⊎ (w ≡ r))
three_ways true b p q r = inl (refl, refl)
three_ways false true p q r = inr (inl (refl, refl))
three_ways false false p q r = inr (inr refl)

five_ways :
    (a b c d : Bool) (p q r s t : Choice)
    → let w = if a then p else if b then q else if c then r else if d then s else t in
      (a ≡ true) × (w ≡ p)
      ⊎ ((b ≡ true) × (w ≡ q) ⊎ ((c ≡ true) × (w ≡ r) ⊎ ((d ≡ true) × (w ≡ s) ⊎ (w ≡ t))))
five_ways true b c d p q r s t = inl (refl, refl)
five_ways false b c d p q r s t = inr (four b c d q r s t)
  where
    four :
        (b c d : Bool) (q r s t : Choice)
        → let w = if b then q else if c then r else if d then s else t in
          (b ≡ true) × (w ≡ q) ⊎ ((c ≡ true) × (w ≡ r) ⊎ ((d ≡ true) × (w ≡ s) ⊎ (w ≡ t)))
    four true c d q r s t = inl (refl, refl)
    four false true d q r s t = inr (inl (refl, refl))
    four false false true q r s t = inr (inr (inl (refl, refl)))
    four false false false q r s t = inr (inr (inr refl))

-- The tests of `with_state` and `wind_down`, by name.
abbrev pub may_claim : TakerDecideInput → LegState → Bool
may_claim x r =
    revealed r
    && (has x.i_state (λ i. is_opened i.status && ltb (x.now + x.claim_submit_margin) i.timeout)
        && retry_ok x.sends.claim_sent_at x.now x.resend_after)

abbrev pub too_late_to_claim : TakerDecideInput → LegState → Bool
too_late_to_claim x r =
    revealed r
    && has x.i_state (λ i. is_opened i.status && leb i.timeout (x.now + x.claim_submit_margin))

abbrev pub may_withdraw : TakerDecideInput → Bool
may_withdraw x =
    not (is_null (credit_leg x)) && retry_ok x.sends.withdraw_sent_at x.now x.resend_after

abbrev pub both_terminal : TakerDecideInput → LegState → Bool
both_terminal x r = terminal x.i_state && terminal (some r)

abbrev pub maker_lapsed : TakerDecideInput → LegState → Bool
maker_lapsed x r =
    terminal (some r) && has x.i_state (λ i. is_opened i.status && leb i.timeout x.now)

abbrev pub may_refund : TakerDecideInput → OwnLockCheck → LegState → Bool
may_refund x own_lock r =
    is_own own_lock && (leb r.timeout x.now && retry_ok x.sends.refund_sent_at x.now x.resend_after)

pub with_state_cases :
    (x : TakerDecideInput) (ex : Bool) (ml : MakerLockCheck) (ol : OwnLockCheck) (t2 : ℕ)
    (r : LegState)
    → let w = with_state x ex ml ol t2 r in
      (may_claim x r ≡ true) × (w ≡ (claim, preimage_public))
      ⊎ ((too_late_to_claim x r ≡ true) × (w ≡ (wait, claim_window_closed))
          ⊎ (w ≡ wind_down x ex ml ol t2 r))
unfolding with_state
with_state_cases x ex ml ol t2 r =
    three_ways (may_claim x r) (too_late_to_claim x r) _ _ (wind_down x ex ml ol t2 r)

pub wind_down_cases :
    (x : TakerDecideInput) (ex : Bool) (ml : MakerLockCheck) (ol : OwnLockCheck) (t2 : ℕ)
    (r : LegState)
    → let w = wind_down x ex ml ol t2 r in
      (may_withdraw x ≡ true) × (w ≡ (withdraw, credit_to_collect))
      ⊎ ((both_terminal x r ≡ true) × (w ≡ retired x both_settled)
          ⊎ ((maker_lapsed x r ≡ true) × (w ≡ retired x maker_expired)
              ⊎ ((may_refund x ol r ≡ true) × (w ≡ (refund, own_expired))
                  ⊎ (w ≡ on_own_lock x ex ml ol t2))))
unfolding wind_down
wind_down_cases x ex ml ol t2 r =
    five_ways (may_withdraw x) (both_terminal x r) (maker_lapsed x r) (may_refund x ol r) _ _ _ _
      (on_own_lock x ex ml ol t2)

-- A choice is a walk-away of an unexposed take, or is made with the terms of the fill.
pub choose_cases :
    (x : TakerDecideInput) (ml : MakerLockCheck) (ol : OwnLockCheck)
    → ((exposed x ol ≡ false) × (walk_away x ≡ some (choose x ml ol)))
      ⊎ (choose x ml ol ≡ with_fill x (exposed x ol) ml ol x.fill x.r_state)
unfolding choose
choose_cases x ml ol =
    or_else_cases (exposed x ol) (walk_away x) (with_fill x (exposed x ol) ml ol x.fill x.r_state)

module _ (shake256 : Text → List ℕ) where
  -- The two checks that a verdict reports, and the choice that it carries.
  pub record Rests (x : TakerDecideInput) (v : TakerVerdict) : Type 0 where
    pub maker_lock :
        check_maker_lock shake256 x.i_confirmed x.plans.initiator
          (announced_timeout x.fill)
          x.claim_safety
          x.prelocked
        ≡ some v.maker_lock
    pub own_lock :
        check_own_lock shake256 x.r_state x.plans.responder x.our_responder_address
        ≡ some v.own_lock
    pub choice : choose x v.maker_lock v.own_lock ≡ (v.decision, v.reason)

  pub decide_taker_of :
      (x : TakerDecideInput) (ml : MakerLockCheck) (ol : OwnLockCheck)
      → check_maker_lock shake256 x.i_confirmed x.plans.initiator
          (announced_timeout x.fill)
          x.claim_safety
          x.prelocked
        ≡ some ml
      → check_own_lock shake256 x.r_state x.plans.responder x.our_responder_address ≡ some ol
      → decide_taker shake256 x
        ≡ some (record {
          decision = (choose x ml ol).0;
          reason = (choose x ml ol).1;
          maker_lock = ml;
          own_lock = ol;
          revealed_preimage = revealed_preimage x.r_state;
          credit_leg = credit_leg x;
        })
  unfolding decide_taker
  decide_taker_of x ml ol a b = rw (a, b)

  throws_first :
      (x : TakerDecideInput)
      → check_maker_lock shake256 x.i_confirmed x.plans.initiator
          (announced_timeout x.fill)
          x.claim_safety
          x.prelocked
        ≡ none
      → decide_taker shake256 x ≡ none
  unfolding decide_taker
  throws_first x a = rw a refl

  throws_second :
      (x : TakerDecideInput) (ml : MakerLockCheck)
      → check_maker_lock shake256 x.i_confirmed x.plans.initiator
          (announced_timeout x.fill)
          x.claim_safety
          x.prelocked
        ≡ some ml
      → check_own_lock shake256 x.r_state x.plans.responder x.our_responder_address ≡ none
      → decide_taker shake256 x ≡ none
  unfolding decide_taker
  throws_second x ml a b = rw (a, b) refl

  pub decide_taker-Rests :
      (x : TakerDecideInput) (v : TakerVerdict) → decide_taker shake256 x ≡ some v → Rests x v
  decide_taker-Rests x v h = go _ _ refl refl
    where
      go :
          (m : Option MakerLockCheck) (o : Option OwnLockCheck)
          → check_maker_lock shake256 x.i_confirmed x.plans.initiator
              (announced_timeout x.fill)
              x.claim_safety
              x.prelocked
            ≡ m
          → check_own_lock shake256 x.r_state x.plans.responder x.our_responder_address ≡ o
          → Rests x v
      go none o a b = absurd (none-ne-some (sym (throws_first x a) ∙ h))
      go (some m) none a b = absurd (none-ne-some (sym (throws_second x m a b) ∙ h))
      go (some m) (some o) a b =
          subst (Rests x) (of_some (sym (decide_taker_of x m o a b) ∙ h))
            (record { maker_lock = a; own_lock = b; choice = refl })

-- The decisions that need the fill's terms and the state of our leg.
abbrev pub needs_state : TakerDecision → Bool
needs_state lock = true
needs_state claim = true
needs_state refund = true
needs_state withdraw = true
needs_state finish = true
needs_state _ = false

walk_away-needs_state :
    (x : TakerDecideInput) (c : Choice) → walk_away x ≡ some c → needs_state c.0 ≡ false
unfolding walk_away
walk_away-needs_state x c h = ground arith

with_fill-needs_state :
    (x : TakerDecideInput) (ex : Bool) (ml : MakerLockCheck) (ol : OwnLockCheck)
    (f : Option FillTerms) (s : Option LegState) (c : Choice)
    → with_fill x ex ml ol f s ≡ c
    → needs_state c.0 ≡ true
    → (fill : FillTerms) × (r : LegState) × (f ≡ some fill)
      × (s ≡ some r)
      × (with_state x ex ml ol fill.responder_timeout r ≡ c)
unfolding with_fill
with_fill-needs_state x ex ml ol none s c h n = ground arith
with_fill-needs_state x ex ml ol (some fill) none c h n = ground arith
with_fill-needs_state x ex ml ol (some fill) (some r) c h n = (fill, r, refl, refl, h)

pub choose-needs_state :
    (x : TakerDecideInput) (ml : MakerLockCheck) (ol : OwnLockCheck) (c : Choice)
    → choose x ml ol ≡ c
    → needs_state c.0 ≡ true
    → (fill : FillTerms) × (r : LegState) × (x.fill ≡ some fill)
      × (x.r_state ≡ some r)
      × (with_state x (exposed x ol) ml ol fill.responder_timeout r ≡ c)
choose-needs_state x ml ol c h n = elim (choose_cases x ml ol) [
  | inl (e, w) ↦ ground (arith, walk_away-needs_state x (choose x ml ol) w, h)
  | inr e ↦ with_fill-needs_state x (exposed x ol) ml ol x.fill x.r_state c (sym e ∙ h) n
]
