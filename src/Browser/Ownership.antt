-- ===== src/Browser/Ownership.antt =====
-- Who signs what, and what a discarded swap would strand (`deriveSwapMachine` of
-- frontend/src/lib/swapMachine.ts).
use quanta_swap.Prelude.{
  ◌≤◌, ◌≡◌, ◌↔◌, refl, sym, ap, ◌∙◌, Bool, true, false, ◌&&◌, ◌||◌, some, List, [], ◌∷◌, arith, leb,
  filter_by, le→leb, leb→le,
}
use quanta_swap.Chain.{
  LegState, LegKey, eth_leg, qrl_leg, opened, is_opened, initiator_leg, responder_leg, Direction,
}
use quanta_swap.Browser.Machine.{
  ActiveSwap, Role, maker, taker, sandbox, SwapMachineInput, has, state_on, is_open_state, is_leg,
}
use quanta_swap.Browser.Commit.{has_parts, is_open}
use quanta_swap.Browser.Derive.{my_legs, own_locked, refundable}

-- `legs.includes(leg)`
abbrev pub includes : LegKey → List LegKey → Bool
includes leg [] = false
includes leg (l ∷ legs) = is_leg leg l || includes leg legs

-- Two legs are the same when `is_leg` says so.
leg_test : (test : LegKey → Bool) (a b : LegKey) → is_leg a b ≡ true → test a ≡ test b
leg_test test eth_leg eth_leg h = refl
leg_test test qrl_leg qrl_leg h = refl
leg_test test eth_leg qrl_leg h = ground arith
leg_test test qrl_leg eth_leg h = ground arith

includes-filter_by :
    (test : LegKey → Bool) (leg : LegKey) (legs : List LegKey)
    → includes leg (filter_by test legs) ≡ (includes leg legs && test leg)
includes-filter_by test leg [] = refl
includes-filter_by test leg (l ∷ legs) =
    ground (arith, includes-filter_by test leg legs, leg_test test leg l)

-- The state of a leg whose escrow is open and whose deadline has passed.
pub record IsExpired (x : SwapMachineInput) (leg : LegKey) : Type 0 where
  pub escrow : LegState
  pub on_chain : state_on x.legs leg ≡ some escrow
  pub still_open : escrow.status ≡ opened
  pub expired : escrow.timeout ≤ x.now

-- The leg that a role funds: the maker the initiator leg, the taker the responder leg, and the
-- sandbox, which plays both, either.
unfoldable pub funds : Role → Direction → LegKey → Bool
funds maker d leg = is_leg leg (initiator_leg d)
funds taker d leg = is_leg leg (responder_leg d)
funds sandbox d leg = true

includes-my_legs :
    (s : ActiveSwap) (leg : LegKey) → includes leg (my_legs s) ≡ funds s.role s.direction leg
unfolding my_legs funds initiator_leg responder_leg
includes-my_legs s leg = ground arith

includes-refundable :
    (x : SwapMachineInput) (leg : LegKey)
    → includes leg (refundable x) ≡ (
        (funds x.swap.role x.swap.direction leg && is_open_state (state_on x.legs leg))
        && has (state_on x.legs leg) (λ st. leb st.timeout x.now))
unfolding refundable own_locked
includes-refundable x leg =
    includes-filter_by _ leg (own_locked x)
    ∙ ap (λ b. b && has (state_on x.legs leg) (λ st. leb st.timeout x.now))
        (includes-filter_by (λ l. is_open_state (state_on x.legs l)) leg (my_legs x.swap)
          ∙ ap (λ b. b && is_open_state (state_on x.legs leg)) (includes-my_legs x.swap leg))

funds_parts : (a b c : Bool) → ((a && b) && c) ≡ true → (a ≡ true) × (b ≡ true) × (c ≡ true)
funds_parts true true true h = (refl, refl, refl)
funds_parts true true false h = ground (arith, h)
funds_parts true false c h = ground (arith, h)
funds_parts false b c h = ground (arith, h)

IsExpired-of :
    (x : SwapMachineInput) (leg : LegKey)
    → is_open_state (state_on x.legs leg) ≡ true
    → has (state_on x.legs leg) (λ st. leb st.timeout x.now) ≡ true
    → IsExpired x leg
IsExpired-of x leg o t =
    let (st, e, ready) = has_parts (state_on x.legs leg) (λ q. is_opened q.status) o in
    record {
      escrow = st;
      on_chain = e;
      still_open = is_open st ready;
      expired = leb→le st.timeout x.now (sym (ap (λ q. has q (λ r. leb r.timeout x.now)) e) ∙ t);
    }

-- A leg is offered for refund exactly when it is one that this role funds and its escrow is open at
-- or past the deadline on the chain. The escrow's initiator plays no part.
pub refundable_iff :
    (x : SwapMachineInput) (leg : LegKey)
    → (includes leg (refundable x) ≡ true)
      ↔ ((funds x.swap.role x.swap.direction leg ≡ true) × IsExpired x leg)
refundable_iff x leg = (
  λ h.
      let (a, b, c) = funds_parts _ _ _ (sym (includes-refundable x leg) ∙ h) in
      (a, IsExpired-of x leg b c),
  λ (f, e).
      rw
        (
          includes-refundable x leg,
          f,
          e.on_chain,
          e.still_open,
          le→leb e.escrow.timeout x.now e.expired,
        )
        refl,
)
