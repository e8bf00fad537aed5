-- ===== src/Taker/Decide.antt =====
-- `decideTaker` of marketmaker/src/taker-policy.ts: the single next action of one take. `none` is an
-- exception, which only a malformed address can raise. Each operator-facing text is a constructor of
-- `Reason`, with what the text shows.
pub mod Inversion
pub mod Funding
pub mod Leaving
pub mod Payout
use quanta_swap.Prelude.{
  ℕ, ◌+◌, Bool, true, false, not, ◌&&◌, ◌||◌, Option, none, some, List, ◌>>=◌, ◌&&?◌, ltb, leb,
  ◌==◌, if◌then◌else◌, is_null, or_else, Text, text_eq,
}
use quanta_swap.Chain.{LegKey, LegState, is_no_swap, is_opened, terminal, retry_ok, zero_bytes32}
use quanta_swap.Taker.Plan.{TakerLegPlan, TakerPlans}
use quanta_swap.Taker.Checks.{
  LockIssue, MakerLockCheck, awaiting_assign, ok, mismatch, OwnLockCheck, ours, ours_mismatched,
  foreign, check_maker_lock, check_own_lock,
}

pub data TakerBookStatus : Type 0 where
  opened accepted locking cancelled gone : TakerBookStatus

pub data TakerDecision : Type 0 where
  wait propose lock claim refund withdraw release finish abort : TakerDecision

pub data Reason : Type 0 where
  operator_abandoned maker_cancelled off_the_book proposal_released : Reason
  terms_missing filled_another fill_pending no_live_proposal : Reason
  own_leg_unavailable preimage_public claim_window_closed credit_to_collect : Reason
  both_settled credit_outstanding maker_expired own_expired : Reason
  hashlock_used own_terms_wrong maker_settled fill_not_durable take_released : Reason
  little_runway maker_lock_absent maker_lock_unassigned : Reason
  maker_lock_wrong : LockIssue → Reason
  own_lock_pending maker_lock_verified maker_to_claim window_closed : Reason
  chain_unavailable nothing_to_do : Reason

pub record TakerDecisionRecord : Type 0 where
  pub fill_acknowledged : Bool
  pub intent_submitted_at : Option ℕ
  pub lock_sent_at : Option ℕ
  pub claim_sent_at : Option ℕ
  pub refund_sent_at : Option ℕ
  pub withdraw_sent_at : Option ℕ
  pub release_sent_at : Option ℕ

pub record FillTerms : Type 0 where
  pub hashlock : Text
  pub initiator_timeout : ℕ
  pub responder_timeout : ℕ
  pub respond_by : ℕ

pub record TakerDecideInput : Type 0 where
  pub sends : TakerDecisionRecord
  pub book_status : TakerBookStatus
  pub released : Bool
  pub cancelled : Bool
  pub prelocked : Bool
  pub fill : Option FillTerms
  pub plans : TakerPlans
  pub i_state : Option LegState
  pub i_confirmed : Option LegState
  pub r_state : Option LegState
  pub our_responder_address : Text
  -- `intentPending.expiresAt`
  pub intent_pending : Option ℕ
  pub abandon_requested : Bool
  pub now : ℕ
  pub resend_after : ℕ
  pub claim_safety : ℕ
  pub lock_runway : ℕ
  pub claim_submit_margin : ℕ
  pub initiator_credit : Option ℕ
  pub responder_credit : Option ℕ

pub record TakerVerdict : Type 0 where
  pub decision : TakerDecision
  pub reason : Reason
  pub maker_lock : MakerLockCheck
  pub own_lock : OwnLockCheck
  pub revealed_preimage : Option Text
  pub credit_leg : Option LegKey

-- A decision and its reason: the first two arguments of `verdict`.
abbrev pub Choice : Type 0
Choice = TakerDecision × Reason

abbrev pub has {ℓ} : {A : Type ℓ} → Option A → (A → Bool) → Bool
has none test = false
has (some a) test = test a

abbrev is_locking : TakerBookStatus → Bool
is_locking locking = true
is_locking _ = false

abbrev is_cancelled : TakerBookStatus → Bool
is_cancelled cancelled = true
is_cancelled _ = false

abbrev is_gone : TakerBookStatus → Bool
is_gone gone = true
is_gone _ = false

unfoldable pub revealed : LegState → Bool
revealed r = not (text_eq r.preimage zero_bytes32)

unfoldable pub revealed_preimage : Option LegState → Option Text
unfolding revealed
revealed_preimage none = none
revealed_preimage (some r) = if revealed r then some r.preimage else none

unfoldable pub credit_leg : TakerDecideInput → Option LegKey
credit_leg x =
    if ltb 0 (or_else x.initiator_credit 0)
    then some x.plans.initiator.leg
    else if ltb 0 (or_else x.responder_credit 0)
    then some x.plans.responder.leg
    else none

unfoldable pub credits_settled : TakerDecideInput → Bool
credits_settled x = has x.initiator_credit (λ c. c == 0) && has x.responder_credit (λ c. c == 0)

-- Whether the escrow on our leg is ours.
abbrev is_own : OwnLockCheck → Bool
is_own ours = true
is_own ours_mismatched = true
is_own _ = false

unfoldable pub exposed : TakerDecideInput → OwnLockCheck → Bool
exposed x OwnLockCheck.settled = true
exposed x own = not (is_null x.sends.lock_sent_at) || is_own own

-- The first block of `decideTaker`, of a take that exposes nothing.
unfoldable pub walk_away : TakerDecideInput → Option Choice
walk_away x =
    if x.abandon_requested
    then some (
        if is_null x.sends.release_sent_at && not (is_null x.sends.intent_submitted_at)
        then (release, operator_abandoned)
        else (abort, operator_abandoned))
    else if x.cancelled || is_cancelled x.book_status
    then some (abort, maker_cancelled)
    else if is_gone x.book_status
    then some (abort, off_the_book)
    else if x.released
    then some (abort, proposal_released)
    else none

-- `exposed ? "wait" : "abort"`
abbrev wait_or_abort : Bool → TakerDecision
wait_or_abort true = wait
wait_or_abort false = abort

unfoldable pub on_maker_lock : TakerDecideInput → Bool → MakerLockCheck → Choice
unfolding retry_ok
on_maker_lock x ex MakerLockCheck.absent = (wait, maker_lock_absent)
on_maker_lock x ex awaiting_assign = (wait, maker_lock_unassigned)
on_maker_lock x ex MakerLockCheck.settled = (wait_or_abort ex, maker_settled)
on_maker_lock x ex (mismatch issue) = (wait_or_abort ex, maker_lock_wrong issue)
on_maker_lock x ex ok =
    if retry_ok x.sends.lock_sent_at x.now x.resend_after
    then (lock, maker_lock_verified)
    else (wait, own_lock_pending)

-- The branch `ownLock.state === "absent"`.
unfoldable pub fund : TakerDecideInput → Bool → MakerLockCheck → ℕ → Choice
unfolding on_maker_lock terminal
fund x ex maker_lock t2 =
    if terminal x.i_state
    then (wait_or_abort ex, maker_settled)
    else if not x.sends.fill_acknowledged
    then (wait, fill_not_durable)
    else if x.released || x.cancelled
    then (wait, take_released)
    else if leb t2 (x.now + x.lock_runway)
    then (wait_or_abort ex, little_runway)
    else on_maker_lock x ex maker_lock

unfoldable pub on_own_lock : TakerDecideInput → Bool → MakerLockCheck → OwnLockCheck → ℕ → Choice
unfolding fund
on_own_lock x ex maker_lock foreign t2 = (abort, hashlock_used)
on_own_lock x ex maker_lock ours_mismatched t2 = (wait, own_terms_wrong)
on_own_lock x ex maker_lock OwnLockCheck.absent t2 = fund x ex maker_lock t2
on_own_lock x ex maker_lock ours t2 = (wait, maker_to_claim)
on_own_lock x ex maker_lock OwnLockCheck.settled t2 =
    if not ex && leb t2 x.now
    then (abort, window_closed)
    else if is_null x.i_state
    then (wait, chain_unavailable)
    else (wait, nothing_to_do)

-- Both legs are terminal, or ours is and the maker's escrow has expired.
unfoldable pub retired : TakerDecideInput → Reason → Choice
retired x reason = if credits_settled x then (finish, reason) else (wait, credit_outstanding)

-- From the withdrawal of a credit to the end.
unfoldable pub wind_down :
    TakerDecideInput → Bool → MakerLockCheck → OwnLockCheck → ℕ → LegState → Choice
unfolding on_own_lock retired terminal retry_ok
wind_down x ex maker_lock own_lock t2 r =
    if not (is_null (credit_leg x)) && retry_ok x.sends.withdraw_sent_at x.now x.resend_after
    then (withdraw, credit_to_collect)
    else if terminal x.i_state && terminal (some r)
    then retired x both_settled
    else if terminal (some r) && has x.i_state (λ i. is_opened i.status && leb i.timeout x.now)
    then retired x maker_expired
    else if is_own own_lock
        && (leb r.timeout x.now && retry_ok x.sends.refund_sent_at x.now x.resend_after)
    then (refund, own_expired)
    else on_own_lock x ex maker_lock own_lock t2

-- The claim, or the report that its window has closed. The state of our own leg is known.
unfoldable pub with_state :
    TakerDecideInput → Bool → MakerLockCheck → OwnLockCheck → ℕ → LegState → Choice
unfolding wind_down retry_ok
with_state x ex maker_lock own_lock t2 r =
    if revealed r
      && (has x.i_state (λ i. is_opened i.status && ltb (x.now + x.claim_submit_margin) i.timeout)
          && retry_ok x.sends.claim_sent_at x.now x.resend_after)
    then (claim, preimage_public)
    else if revealed r
        && has x.i_state (λ i. is_opened i.status && leb i.timeout (x.now + x.claim_submit_margin))
    then (wait, claim_window_closed)
    else wind_down x ex maker_lock own_lock t2 r

unfoldable pub with_fill :
    TakerDecideInput
    → Bool
    → MakerLockCheck
    → OwnLockCheck
    → Option FillTerms
    → Option LegState
    → Choice
unfolding with_state
with_fill x ex maker_lock own_lock none r =
    if ex
    then (wait, terms_missing)
    else if is_locking x.book_status
    then (abort, filled_another)
    else if has x.intent_pending (λ expires_at. ltb x.now expires_at)
    then (wait, fill_pending)
    else (propose, no_live_proposal)
with_fill x ex maker_lock own_lock (some fill) none = (wait, own_leg_unavailable)
with_fill x ex maker_lock own_lock (some fill) (some r) =
    with_state x ex maker_lock own_lock fill.responder_timeout r

unfoldable pub choose : TakerDecideInput → MakerLockCheck → OwnLockCheck → Choice
unfolding exposed walk_away with_fill
choose x maker_lock own_lock =
    or_else (if exposed x own_lock then none else walk_away x)
      (with_fill x (exposed x own_lock) maker_lock own_lock x.fill x.r_state)

-- `x.fill?.responderTimeout ?? 0`
abbrev pub announced_timeout : Option FillTerms → ℕ
announced_timeout none = 0
announced_timeout (some fill) = fill.responder_timeout

module _ (shake256 : Text → List ℕ) where
  unfoldable pub decide_taker : TakerDecideInput → Option TakerVerdict
  unfolding choose
  decide_taker x = do
    maker_lock ←
        check_maker_lock shake256 x.i_confirmed x.plans.initiator (announced_timeout x.fill)
          x.claim_safety x.prelocked
    own_lock ← check_own_lock shake256 x.r_state x.plans.responder x.our_responder_address
    let choice = choose x maker_lock own_lock
    some (record {
      decision = choice.0;
      reason = choice.1;
      maker_lock = maker_lock;
      own_lock = own_lock;
      revealed_preimage = revealed_preimage x.r_state;
      credit_leg = credit_leg x;
    })
