-- ===== src/Maker/Decide.antt =====
-- `decide` of marketmaker/src/policy.ts: the single next action for one managed order. `none` is an
-- exception, which only a malformed address can raise.
pub mod Inversion
pub mod Reveal
pub mod Fund
pub mod Leave
pub mod Progress
use quanta_swap.Prelude.{
  ℕ, ◌+◌, Bool, true, false, not, ◌&&◌, ◌||◌, Option, none, some, List, ◌>>=◌, ◌&&?◌, when, ltb,
  leb, ◌==◌, if◌then◌else◌, is_null, or_else, Text,
}
use quanta_swap.Chain.{LegState, is_no_swap, is_opened, is_claimed, terminal, retry_ok}
use quanta_swap.Address.{same_addr}
use quanta_swap.Maker.Order.{ManagedOrder, ManagedProtocol}
use quanta_swap.Maker.Credits.{credit_retry_after, withdraw_parked, push_parked}

pub data BookStatus : Type 0 where
  opened accepted locking cancelled gone : BookStatus

pub data Decision : Type 0 where
  wait announce lock claim sponsor refund withdraw push finish abort : Decision

pub record DecideInput : Type 0 where
  pub book_status : BookStatus
  pub released : Bool
  pub managed : ManagedOrder
  pub i_state : Option LegState
  pub r_state : Option LegState
  pub r_confirmed : Option LegState
  pub expected_recipient : Text
  pub expected_amount_wei : ℕ
  pub expected_token : Text
  pub now : ℕ
  pub resend_after : ℕ
  pub claim_safety : ℕ
  pub lock_grace : ℕ
  pub sponsor_claims : Bool
  pub our_initiator : Text
  pub taker_on_initiator_leg : Option Text
  pub sponsor_margin : ℕ
  pub our_responder_credit : Option ℕ
  pub our_initiator_credit : Option ℕ
  pub taker_credit : Option ℕ

-- `s !== null && test(s)`
abbrev pub holds {ℓ} : {A : Type ℓ} → Option A → (A → Option Bool) → Option Bool
holds none test = some false
holds (some a) test = test a

-- `s !== null && test(s)`, for a test that cannot throw
abbrev pub has {ℓ} : {A : Type ℓ} → Option A → (A → Bool) → Bool
has none test = false
has (some a) test = test a

-- `chainExposed`
unfoldable pub chain_exposed : Option LegState → Bool
chain_exposed s = has s (λ st. not (is_no_swap st.status))

unfoldable pub can_continue_without_book : ManagedOrder → Option LegState → Bool
unfolding chain_exposed
can_continue_without_book managed i_state =
    has managed.protocol (λ p. p.fill_acknowledged)
    || (not (is_null managed.lock_sent_at) || chain_exposed i_state)

unfoldable pub is_released : DecideInput → Bool
is_released x = x.released || has x.managed.protocol (λ p. p.release_observed)

unfoldable pub exposure_excluded : DecideInput → Bool
exposure_excluded x =
    is_null x.managed.lock_sent_at
    && (is_null x.managed.hashlock || has x.i_state (λ st. is_no_swap st.status))

abbrev is_gone : BookStatus → Bool
is_gone gone = true
is_gone cancelled = true
is_gone _ = false

abbrev is_locking : BookStatus → Bool
is_locking locking = true
is_locking _ = false

unfoldable pub lock_gate : DecideInput → LegState → ℕ → Bool
unfolding is_released retry_ok
lock_gate x i t2 =
    is_no_swap i.status
    && (is_locking x.book_status
        && (not (is_released x)
            && ((is_null x.managed.protocol || has x.managed.protocol (λ p. p.fill_acknowledged))
                && (leb (or_else x.managed.announced_at 0 + x.lock_grace) x.now
                    && (ltb (x.now + x.claim_safety) t2
                        && retry_ok x.managed.lock_sent_at x.now x.resend_after)))))

unfoldable pub refund_gate : DecideInput → LegState → ℕ → Bool
unfolding retry_ok
refund_gate x i t1 =
    is_opened i.status && (leb t1 x.now && retry_ok x.managed.refund_sent_at x.now x.resend_after)

unfoldable pub withdraw_gate : DecideInput → Bool
unfolding withdraw_parked retry_ok
withdraw_gate x =
    (ltb 0 (or_else x.our_responder_credit 0) || ltb 0 (or_else x.our_initiator_credit 0))
    && (not (withdraw_parked x.managed x.now)
        && retry_ok x.managed.withdraw_sent_at x.now
            (credit_retry_after (or_else x.managed.withdraw_attempts 0) x.resend_after))

unfoldable pub push_gate : DecideInput → Bool → Bool
unfolding push_parked retry_ok
push_gate x pushable =
    pushable
    && (ltb 0 (or_else x.taker_credit 0)
        && (not (push_parked x.managed x.now)
            && retry_ok x.managed.push_sent_at x.now
                (credit_retry_after (or_else x.managed.push_attempts 0) x.resend_after)))

-- `rSettled`
unfoldable pub responder_settled : DecideInput → ℕ → Bool
unfolding terminal
responder_settled x t2 =
    terminal x.r_state || has x.r_state (λ r. is_no_swap r.status && leb t2 x.now)

abbrev pub is_zero : Option ℕ → Bool
is_zero c = has c (λ n. n == 0)

unfoldable pub credits_settled : DecideInput → Bool → Bool
unfolding withdraw_parked push_parked
credits_settled x pushable =
    (withdraw_parked x.managed x.now
      || (is_zero x.our_responder_credit && is_zero x.our_initiator_credit))
    && (not pushable || (push_parked x.managed x.now || is_zero x.taker_credit))

-- From `rSettled` to the end of `decide`.
unfoldable pub retire : DecideInput → LegState → ℕ → Bool → Decision
unfolding responder_settled credits_settled
retire x i t2 pushable =
    if terminal (some i) && (responder_settled x t2 && credits_settled x pushable)
    then finish
    else if is_no_swap i.status && (leb t2 x.now && is_null x.managed.lock_sent_at)
    then abort
    else wait

module _ (shake256 : Text → List ℕ) where
  unfoldable pub claim_gate : DecideInput → LegState → ℕ → Option Bool
  unfolding retry_ok
  claim_gate x i t2 =
      some (is_opened i.status)
      &&? some (has x.r_state (λ r. is_opened r.status))
      &&? holds x.r_confirmed (λ c.
        some (is_opened c.status)
        &&? same_addr shake256 c.token x.expected_token
        &&? same_addr shake256 c.recipient x.expected_recipient
        &&? some (c.amount == x.expected_amount_wei)
        &&? some (ltb (x.now + x.claim_safety) c.timeout))
      &&? some (ltb (x.now + x.claim_safety) t2)
      &&? some (retry_ok x.managed.claim_sent_at x.now x.resend_after)

  unfoldable pub sponsor_gate : DecideInput → LegState → Option Bool
  unfolding retry_ok
  sponsor_gate x i =
      some x.sponsor_claims
      &&? some (is_opened i.status)
      &&? same_addr shake256 i.initiator x.our_initiator
      &&? holds x.taker_on_initiator_leg (λ t. same_addr shake256 i.recipient t)
      &&? some (has x.r_confirmed (λ c. is_claimed c.status))
      &&? some (ltb (x.now + x.sponsor_margin) i.timeout)
      &&? some (retry_ok x.managed.sponsor_sent_at x.now x.resend_after)

  -- `pushableTakerCredit`
  unfoldable pub pushable_taker_credit : DecideInput → LegState → Option Bool
  pushable_taker_credit x i =
      some x.sponsor_claims
      &&? holds x.taker_on_initiator_leg (λ t.
        some (is_claimed i.status)
        &&? same_addr shake256 i.initiator x.our_initiator
        &&? same_addr shake256 i.recipient t)

  -- From the payout credits to the end of `decide`.
  unfoldable pub collect : DecideInput → LegState → ℕ → Option Decision
  collect x i t2 = when (some (withdraw_gate x)) (some withdraw) (
      pushable_taker_credit x i >>= λ pushable.
      when (some (push_gate x pushable)) (some push) (some (retire x i t2 pushable)))

  -- The chain governs: every term of the fill and our own leg's state are known.
  unfoldable pub settle : DecideInput → LegState → ℕ → ℕ → Option Decision
  settle x i t1 t2 = when (claim_gate x i t2) (some claim) (
      when (sponsor_gate x i) (some sponsor) (
        when (some (lock_gate x i t2)) (some lock)
          (when (some (refund_gate x i t1)) (some refund) (collect x i t2))))

  -- A null term, or an unreadable leg, waits.
  unfoldable pub on_chain :
      DecideInput
      → Option Text
      → Option Text
      → Option ℕ
      → Option ℕ
      → Option LegState
      → Option Decision
  on_chain x (some preimage) (some hashlock) (some t1) (some t2) (some i) = settle x i t1 t2
  on_chain x _ _ _ _ _ = some wait

  unfoldable pub on_book : DecideInput → BookStatus → Option Decision
  unfolding on_chain
  on_book x opened = some wait
  on_book x accepted = some announce
  on_book x _ =
      on_chain x x.managed.preimage x.managed.hashlock x.managed.initiator_timeout
        x.managed.responder_timeout x.i_state

  unfoldable pub decide : DecideInput → Option Decision
  unfolding exposure_excluded is_released on_book
  decide x =
      if is_gone x.book_status && exposure_excluded x
      then some abort
      else if is_released x && exposure_excluded x
      then some abort
      else on_book x x.book_status
