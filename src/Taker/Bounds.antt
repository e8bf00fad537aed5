-- ===== src/Taker/Bounds.antt =====
-- The operator's limits on a take (`takeBoundsIssue` of marketmaker/src/taker-policy.ts) and the
-- order in which takes are resumed (`resumeUrgency`). Each text that refuses a take is a
-- constructor.
pub mod Within
use quanta_swap.Prelude.{
  ℕ, ◌+◌, ◌≤◌, ◌<◌, ◌≡◌, ◌↔◌, min, Bool, true, false, ◌&&◌, ◌||◌, Option, none, some, leb, ltb,
  if◌then◌else◌, arith, is_null,
}
use quanta_swap.Taker.Decide.{FillTerms}

pub record ResumeUrgencyInput : Type 0 where
  pub fill : Option FillTerms
  pub order_expires_at : ℕ
  pub lock_sent_at : Option ℕ

unfoldable pub resume_urgency : ResumeUrgencyInput → ℕ
resume_urgency x = elim x.fill [
  | none ↦ x.order_expires_at
  | some fill ↦
      if is_null x.lock_sent_at
      then fill.responder_timeout
      else min fill.initiator_timeout fill.responder_timeout
]

pub record TakeBoundsInput : Type 0 where
  pub pay_amount : ℕ
  pub receive_amount : ℕ
  pub max_in : Option ℕ
  pub min_out : Option ℕ
  pub pay_balance : Option ℕ
  pub native_pay_leg : Bool
  pub gas_balance : Option ℕ
  pub gas_reserve : ℕ
  pub order_expires_at : ℕ
  pub now : ℕ
  pub min_order_runway : ℕ

pub data TakeIssue : Type 0 where
  zero_amount above_max_in below_min_out little_order_runway : TakeIssue
  short_balance short_with_gas short_gas : TakeIssue

-- `bound !== null && test(bound)`
unfoldable pub bounded : Option ℕ → (ℕ → Bool) → Bool
bounded none test = false
bounded (some bound) test = test bound

unfoldable pub take_bounds_issue : TakeBoundsInput → Option TakeIssue
unfolding bounded
take_bounds_issue x =
    if leb x.pay_amount 0 || leb x.receive_amount 0
    then some zero_amount
    else if bounded x.max_in (λ max_in. ltb max_in x.pay_amount)
    then some above_max_in
    else if bounded x.min_out (λ min_out. ltb x.receive_amount min_out)
    then some below_min_out
    else if ltb x.order_expires_at (x.now + x.min_order_runway)
    then some little_order_runway
    else if bounded x.pay_balance (λ balance. ltb balance x.pay_amount)
    then some short_balance
    else if x.native_pay_leg
        && bounded x.pay_balance (λ balance. ltb balance (x.pay_amount + x.gas_reserve))
    then some short_with_gas
    else if bounded x.gas_balance (λ balance. ltb balance x.gas_reserve)
    then some short_gas
    else none
