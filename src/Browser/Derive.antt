-- ===== src/Browser/Derive.antt =====
-- The four steps and the result of `deriveSwapMachine` (frontend/src/lib/swapMachine.ts).
use quanta_swap.Prelude.{
  ℕ, Bool, false, not, ◌&&◌, ◌||◌, Option, none, some, List, [], ◌∷◌, Text, ltb, leb, if◌then◌else◌,
  is_null, filter_by,
}
use quanta_swap.Chain.{
  LegKey, eth_leg, qrl_leg, initiator_leg, responder_leg, LegState, is_no_swap, is_opened,
  is_claimed, claim_cutoff_blocked,
}
use quanta_swap.Browser.Machine.{
  Role, maker, taker, sandbox, ActiveSwap, LegPlan, lock_initiator, assign_initiator,
  lock_responder, claim_responder, claim_initiator, hashlock_used, claim_cutoff, StepModel,
  SwapMachineInput, Party, by_maker, by_taker, claim_margin, is_leg, state_on, has, truthy, addr_on,
  plan_for, signs, is_open_state, awaits_depth, published_preimage,
}
use quanta_swap.Browser.Steps.{
  i_state, r_state, i_confirmed, r_confirmed, unassigned, i_unassigned, awaiting_assign,
  initiator_lock_issue, responder_lock_issue,
}

-- `legPayees`
pub record Payees : Type 0 where
  pub claim : Text
  pub refund : Text

pub record SwapMachine : Type 0 where
  pub i_leg : LegKey
  pub r_leg : LegKey
  pub first : StepModel
  pub second : StepModel
  pub third : StepModel
  pub fourth : StepModel
  pub complete : Bool
  pub revealed_preimage : Option Text
  pub refundable_legs : List LegKey
  pub releasable_legs : List LegKey
  pub awaits_assign : Bool
  pub own_locked_legs : List LegKey
  pub own_eth : Text
  pub own_qrl : Text
  pub eth_plan : LegPlan
  pub qrl_plan : LegPlan
  pub eth_payees : Payees
  pub qrl_payees : Payees

unfoldable pub payees_for : ActiveSwap → LegKey → Payees
unfolding addr_on initiator_leg
payees_for swap leg =
    let on_initiator = is_leg leg (initiator_leg swap.direction) in
    record {
      claim = addr_on swap leg (if on_initiator then by_taker else by_maker);
      refund = addr_on swap leg (if on_initiator then by_maker else by_taker);
    }

unfoldable pub my_legs : ActiveSwap → List LegKey
unfolding initiator_leg responder_leg
my_legs swap = elim swap.role [
  | maker ↦ initiator_leg swap.direction ∷ []
  | taker ↦ responder_leg swap.direction ∷ []
  | sandbox ↦ initiator_leg swap.direction ∷ responder_leg swap.direction ∷ []
]

unfoldable pub own_locked : SwapMachineInput → List LegKey
unfolding my_legs
own_locked x = filter_by (λ leg. is_open_state (state_on x.legs leg)) (my_legs x.swap)

unfoldable pub refundable : SwapMachineInput → List LegKey
unfolding own_locked
refundable x =
    filter_by (λ leg. has (state_on x.legs leg) (λ st. leb st.timeout x.now)) (own_locked x)

abbrev own_party : Role → Party
own_party taker = by_taker
own_party _ = by_maker

module _ (shake256 : Text → List ℕ) where
  unfoldable pub releasable : SwapMachineInput → List LegKey
  unfolding own_locked unassigned
  releasable x =
      if not x.swap.prelocked
      then []
      else filter_by (λ leg. has (state_on x.legs leg) (λ st. unassigned shake256 st leg))
          (own_locked x)

  abbrev pub open_assigned : SwapMachineInput → Option LegState → Bool
  open_assigned x s = has s (λ st. is_opened st.status && not (i_unassigned shake256 x st))

  unfoldable pub assign_step : SwapMachineInput → ℕ → StepModel
  unfolding initiator_leg signs
  assign_step x responder_timeout =
      let open_unassigned =
        has (i_state x) (λ st. is_opened st.status && i_unassigned shake256 x st) in
      record {
        key = assign_initiator;
        leg = initiator_leg x.swap.direction;
        own = signs x.swap.role 0;
        done =
            has (i_confirmed x)
              (λ st. not (is_no_swap st.status) && not (i_unassigned shake256 x st));
        can_run =
            open_unassigned
            && (has (r_state x) (λ st. is_no_swap st.status) && ltb x.now responder_timeout);
        issue =
            if signs x.swap.role 0
              && (open_unassigned && has (r_state x) (λ st. not (is_no_swap st.status)))
            then some hashlock_used
            else none;
        awaiting_depth = open_assigned x (i_state x) && not (open_assigned x (i_confirmed x));
      }

  unfoldable pub lock_step : SwapMachineInput → StepModel
  unfolding initiator_leg signs
  lock_step x = record {
    key = lock_initiator;
    leg = initiator_leg x.swap.direction;
    own = signs x.swap.role 0;
    done = has (i_state x) (λ st. not (is_no_swap st.status));
    can_run = has (i_state x) (λ st. is_no_swap st.status);
    issue = none;
    awaiting_depth = false;
  }

  unfoldable pub first_step : SwapMachineInput → ℕ → StepModel
  unfolding assign_step lock_step
  first_step x responder_timeout =
      if x.swap.prelocked then assign_step x responder_timeout else lock_step x

  unfoldable pub lock_responder_step : SwapMachineInput → ℕ → StepModel
  unfolding responder_leg signs initiator_lock_issue awaiting_assign awaits_depth
  lock_responder_step x responder_timeout = record {
    key = lock_responder;
    leg = responder_leg x.swap.direction;
    own = signs x.swap.role 1;
    done = has (r_state x) (λ st. not (is_no_swap st.status));
    can_run =
        is_open_state (i_confirmed x)
        && (is_null (initiator_lock_issue shake256 x responder_timeout)
            && (not (awaiting_assign shake256 x)
                && (has (r_state x) (λ st. is_no_swap st.status) && ltb x.now responder_timeout)));
    issue = if signs x.swap.role 1 then initiator_lock_issue shake256 x responder_timeout else none;
    awaiting_depth =
        has (r_state x) (λ st. is_no_swap st.status) && awaits_depth (i_state x) (i_confirmed x);
  }

  -- `iState && iState.status === Open && (!prelocked || !unassigned(iState, iLeg))`
  abbrev pub escrow_ready : SwapMachineInput → Bool
  escrow_ready x =
      has (i_state x)
        (λ st. is_opened st.status && (not x.swap.prelocked || not (i_unassigned shake256 x st)))

  unfoldable pub claim_responder_step : SwapMachineInput → ℕ → StepModel
  unfolding responder_leg signs responder_lock_issue awaits_depth
  claim_responder_step x responder_timeout = record {
    key = claim_responder;
    leg = responder_leg x.swap.direction;
    own = signs x.swap.role 2;
    done = has (r_state x) (λ st. is_claimed st.status);
    can_run =
        truthy x.swap.preimage
        && (escrow_ready x
            && (is_open_state (r_confirmed x)
                && (is_null (responder_lock_issue shake256 x) && ltb x.now responder_timeout)));
    issue = if signs x.swap.role 2 then responder_lock_issue shake256 x else none;
    awaiting_depth =
        has (r_state x) (λ st. not (is_claimed st.status))
        && awaits_depth (r_state x) (r_confirmed x);
  }

  unfoldable pub cutoff : SwapMachineInput → Bool
  unfolding claim_cutoff_blocked
  cutoff x = has (i_state x) (λ st. claim_cutoff_blocked st.timeout x.now claim_margin)

  unfoldable pub claim_initiator_step : SwapMachineInput → StepModel
  unfolding initiator_leg signs published_preimage cutoff
  claim_initiator_step x =
      let public = truthy (published_preimage (r_state x)) in
      record {
        key = claim_initiator;
        leg = initiator_leg x.swap.direction;
        own = signs x.swap.role 3;
        done = has (i_state x) (λ st. is_claimed st.status);
        can_run = public && (escrow_ready x && not (cutoff x));
        issue =
            if signs x.swap.role 3 && (public && (is_open_state (i_state x) && cutoff x))
            then some claim_cutoff
            else none;
        awaiting_depth = false;
      }

  abbrev both_claimed : SwapMachineInput → Bool
  both_claimed x =
      has (i_state x) (λ st. is_claimed st.status) && has (r_state x) (λ st. is_claimed st.status)

  unfoldable pub machine_of : SwapMachineInput → ℕ → SwapMachine
  unfolding first_step lock_responder_step claim_responder_step claim_initiator_step refundable
      releasable own_locked payees_for plan_for published_preimage awaiting_assign addr_on
      initiator_leg responder_leg
  machine_of x responder_timeout = record {
    i_leg = initiator_leg x.swap.direction;
    r_leg = responder_leg x.swap.direction;
    first = first_step x responder_timeout;
    second = lock_responder_step x responder_timeout;
    third = claim_responder_step x responder_timeout;
    fourth = claim_initiator_step x;
    complete = both_claimed x;
    revealed_preimage = published_preimage (r_state x);
    refundable_legs = refundable x;
    releasable_legs = releasable x;
    awaits_assign = awaiting_assign shake256 x;
    own_locked_legs = own_locked x;
    own_eth = addr_on x.swap eth_leg (own_party x.swap.role);
    own_qrl = addr_on x.swap qrl_leg (own_party x.swap.role);
    eth_plan = plan_for x.swap eth_leg;
    qrl_plan = plan_for x.swap qrl_leg;
    eth_payees = payees_for x.swap eth_leg;
    qrl_payees = payees_for x.swap qrl_leg;
  }

  -- `responderTimeout === null` returns null.
  unfoldable pub after_terms : SwapMachineInput → Option ℕ → Option SwapMachine
  unfolding machine_of
  after_terms x none = none
  after_terms x (some responder_timeout) = some (machine_of x responder_timeout)

  unfoldable pub derive_swap_machine : SwapMachineInput → Option SwapMachine
  unfolding after_terms
  derive_swap_machine x =
      if truthy x.swap.hashlock && not (is_null x.swap.initiator_timeout)
      then after_terms x x.swap.responder_timeout
      else none
