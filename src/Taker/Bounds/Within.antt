-- ===== src/Taker/Bounds/Within.antt =====
-- Which takes `takeBoundsIssue` of marketmaker/src/taker-policy.ts lets through.
use quanta_swap.Prelude.{
  ℕ, ◌+◌, ◌≤◌, ◌<◌, ◌≡◌, ◌↔◌, refl, Bool, true, false, ◌&&◌, ◌||◌, Option, none, some, leb, ltb,
  arith,
}
use quanta_swap.Taker.Bounds.{TakeBoundsInput, bounded, take_bounds_issue}

-- The amounts are positive and within the operator's limits, the order has runway, and every
-- balance that could be read covers what the take will spend.
pub record IsWithin (x : TakeBoundsInput) : Type 0 where
  pub pays : 0 < x.pay_amount
  pub receives : 0 < x.receive_amount
  pub at_most : (m : ℕ) → x.max_in ≡ some m → x.pay_amount ≤ m
  pub at_least : (m : ℕ) → x.min_out ≡ some m → m ≤ x.receive_amount
  pub runway : x.now + x.min_order_runway ≤ x.order_expires_at
  pub covers : (b : ℕ) → x.pay_balance ≡ some b → x.pay_amount ≤ b
  pub covers_gas :
      (b : ℕ) → x.native_pay_leg ≡ true → x.pay_balance ≡ some b → x.pay_amount + x.gas_reserve ≤ b
  pub has_gas : (b : ℕ) → x.gas_balance ≡ some b → x.gas_reserve ≤ b

IsWithin-of : (x : TakeBoundsInput) → take_bounds_issue x ≡ none → IsWithin x
unfolding take_bounds_issue bounded
IsWithin-of x h = record {
  pays = ground arith;
  receives = ground arith;
  at_most = λ m p. ground arith;
  at_least = λ m p. ground arith;
  runway = ground arith;
  covers = λ m p. ground arith;
  covers_gas = λ m p q. ground arith;
  has_gas = λ m p. ground arith;
}

bounded-false :
    (o : Option ℕ) (test : ℕ → Bool)
    → ((b : ℕ) → o ≡ some b → test b ≡ false)
    → bounded o test ≡ false
unfolding bounded
bounded-false none test h = refl
bounded-false (some b) test h = h b refl

le→ltb_not : (a b : ℕ) → a ≤ b → ltb b a ≡ false
le→ltb_not a b h = ground arith

not_zero : (a b : ℕ) → 0 < a → 0 < b → (leb a 0 || leb b 0) ≡ false
not_zero a b p q = ground arith

native_false : (n c : Bool) → (n ≡ true → c ≡ false) → (n && c) ≡ false
native_false true c h = h refl
native_false false c h = refl

no_issue_of : (x : TakeBoundsInput) → IsWithin x → take_bounds_issue x ≡ none
unfolding take_bounds_issue
no_issue_of x w =
    rw
      (
        not_zero x.pay_amount x.receive_amount w.pays w.receives,
        bounded-false x.max_in (λ m. ltb m x.pay_amount)
            (λ b p. le→ltb_not x.pay_amount b (w.at_most b p)),
        bounded-false x.min_out (λ m. ltb x.receive_amount m)
            (λ b p. le→ltb_not b x.receive_amount (w.at_least b p)),
        le→ltb_not (x.now + x.min_order_runway) x.order_expires_at w.runway,
        bounded-false x.pay_balance (λ m. ltb m x.pay_amount)
            (λ b p. le→ltb_not x.pay_amount b (w.covers b p)),
        native_false x.native_pay_leg _ (λ n.
            bounded-false x.pay_balance (λ m. ltb m (x.pay_amount + x.gas_reserve))
              (λ b p. le→ltb_not (x.pay_amount + x.gas_reserve) b (w.covers_gas b n p))),
        bounded-false x.gas_balance (λ m. ltb m x.gas_reserve)
            (λ b p. le→ltb_not x.gas_reserve b (w.has_gas b p)),
      )
      refl

-- A take is let through exactly when its amounts are positive and within the limits, its order has
-- the required runway, and each balance that was read covers what it must pay.
pub take_bounds_iff : (x : TakeBoundsInput) → (take_bounds_issue x ≡ none) ↔ IsWithin x
take_bounds_iff x = (IsWithin-of x, no_issue_of x)
