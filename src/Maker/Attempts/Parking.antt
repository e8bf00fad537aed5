-- ===== src/Maker/Attempts/Parking.antt =====
-- When a credit of the maker is parked (`withdrawParked` of marketmaker/src/policy.ts over the
-- bookkeeping of marketmaker/src/index.ts).
use quanta_swap.Prelude.{
  ℕ, ◌+◌, ◌≤◌, ◌≡◌, ◌↔◌, refl, true, false, Option, none, some, List, [], ◌∷◌, arith, or_else,
  length, ap, ◌∙◌,
}
use quanta_swap.Maker.Order.{ManagedOrder}
use quanta_swap.Maker.Credits.{withdraw_parked, parked}
use quanta_swap.Maker.Attempts.{
  sent, failed, Attempts, first_time, attempt_withdraw, run_withdraws, rejections,
}

-- The first rejection, if none was stored before.
abbrev first_rejection : Option ℕ → List ℕ → Option ℕ
first_rejection (some t) later = some t
first_rejection none [] = none
first_rejection none (t ∷ later) = some t

run-count :
    (m : ManagedOrder) (tries : Attempts)
    → or_else (run_withdraws m tries).withdraw_attempts 0
      ≡ or_else m.withdraw_attempts 0 + length (rejections tries)
unfolding run_withdraws attempt_withdraw
run-count m [] = omega arith
run-count m ((now, sent) ∷ rest) = run-count (attempt_withdraw m now sent) rest
run-count m ((now, failed true later) ∷ rest) =
    omega (arith, run-count (attempt_withdraw m now (failed true later)) rest)
run-count m ((now, failed false later) ∷ rest) =
    run-count (attempt_withdraw m now (failed false later)) rest

first_time-rejection :
    (f : Option ℕ) (t : ℕ) (later : List ℕ)
    → first_rejection (first_time f t) later ≡ first_rejection f (t ∷ later)
first_time-rejection none t later = refl
first_time-rejection (some s) t later = refl

keep_first : (f : Option ℕ) → f ≡ first_rejection f []
keep_first none = refl
keep_first (some t) = refl

run-first :
    (m : ManagedOrder) (tries : Attempts)
    → (run_withdraws m tries).withdraw_first_rejected_at
      ≡ first_rejection m.withdraw_first_rejected_at (rejections tries)
unfolding run_withdraws attempt_withdraw
run-first m [] = keep_first m.withdraw_first_rejected_at
run-first m ((now, sent) ∷ rest) = run-first (attempt_withdraw m now sent) rest
run-first m ((now, failed true later) ∷ rest) =
    run-first (attempt_withdraw m now (failed true later)) rest
    ∙ first_time-rejection m.withdraw_first_rejected_at later (rejections rest)
run-first m ((now, failed false later) ∷ rest) =
    run-first (attempt_withdraw m now (failed false later)) rest

-- A day has passed since the first of some rejections.
abbrev pub IsDayOld : List ℕ → ℕ → Type 0
IsDayOld [] now = ⊥
IsDayOld (first ∷ _) now = first + 86400 ≤ now

parked_iff :
    (rs : List ℕ) (n : Option ℕ) (f : Option ℕ) (now : ℕ)
    → or_else n 0 ≡ length rs
    → f ≡ first_rejection none rs
    → (parked n f now ≡ true) ↔ ((5 ≤ length rs) × IsDayOld rs now)
unfolding parked
parked_iff [] n f now e g = ground arith
parked_iff (t ∷ rs) n f now e g = ground arith

-- Of a new record, whatever its withdrawals met, the credit is parked exactly when the contract
-- rejected at least five of them and a day has passed since the first rejection. Failures that are
-- no rejection by the contract never count.
pub withdraw_parked_iff :
    (m : ManagedOrder) (tries : Attempts) (now : ℕ)
    → or_else m.withdraw_attempts 0 ≡ 0
    → m.withdraw_first_rejected_at ≡ none
    → (withdraw_parked (run_withdraws m tries) now ≡ true)
      ↔ ((5 ≤ length (rejections tries)) × IsDayOld (rejections tries) now)
unfolding withdraw_parked
withdraw_parked_iff m tries now e f =
    parked_iff (rejections tries) (run_withdraws m tries).withdraw_attempts
      (run_withdraws m tries).withdraw_first_rejected_at now (omega (arith, run-count m tries))
      ((run-first m tries ∙ ap (λ g. first_rejection g (rejections tries)) f))
