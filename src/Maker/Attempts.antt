-- ===== src/Maker/Attempts.antt =====
-- The bookkeeping of credit moves in the maker's tick (cases `withdraw` and `push` of
-- marketmaker/src/index.ts): the marker is stored before the send, and only a rejection by the
-- contract is counted. The send itself is not the model's: its outcome is an argument.
pub mod Parking
use quanta_swap.Prelude.{
  ℕ, suc, ◌+◌, ◌≤◌, ◌<◌, ◌≡◌, refl, ◌⊎◌, inl, inr, Bool, true, false, Option, none, some, List, [],
  ◌∷◌, arith, or_else, leb, ltb, if◌then◌else◌, Bool-cases, Option-cases,
}
use quanta_swap.Chain.{LegKey}
use quanta_swap.Maker.Order.{ManagedOrder}
use quanta_swap.Maker.Credits.{
  withdraw_parked, push_parked, parked, rejected_long_ago, max_credit_attempts, credit_park_after,
}

pub data SendOutcome : Type 0 where
  sent : SendOutcome
  -- The error, whether the contract rejected the call, and the time read after the failure.
  failed : Bool → ℕ → SendOutcome

-- `x ?? nowS()` kept as a nullable value.
abbrev pub first_time : Option ℕ → ℕ → Option ℕ
first_time none now = some now
first_time (some t) now = some t

-- `(ourResponderCredit ?? 0n) > 0n ? rLeg : iLeg`
unfoldable pub withdraw_leg : Option ℕ → LegKey → LegKey → LegKey
withdraw_leg our_responder_credit i_leg r_leg =
    if ltb 0 (or_else our_responder_credit 0) then r_leg else i_leg

note_withdraw : ManagedOrder → SendOutcome → ManagedOrder
note_withdraw managed (failed true later) = record managed {
  withdraw_attempts = some (or_else managed.withdraw_attempts 0 + 1);
  withdraw_first_rejected_at = first_time managed.withdraw_first_rejected_at later;
}
note_withdraw managed _ = managed

unfoldable pub attempt_withdraw : ManagedOrder → ℕ → SendOutcome → ManagedOrder
unfolding note_withdraw
attempt_withdraw managed now outcome =
    note_withdraw (record managed { withdraw_sent_at = some now }) outcome

note_push : ManagedOrder → SendOutcome → ManagedOrder
note_push managed (failed true later) = record managed {
  push_attempts = some (or_else managed.push_attempts 0 + 1);
  push_first_rejected_at = first_time managed.push_first_rejected_at later;
}
note_push managed _ = managed

unfoldable pub attempt_push : ManagedOrder → ℕ → SendOutcome → ManagedOrder
unfolding note_push
attempt_push managed now outcome = note_push (record managed { push_sent_at = some now }) outcome

-- The ticks of one order that decided `withdraw`: when, and how the send ended.
abbrev pub Attempts : Type 0
Attempts = List (ℕ × SendOutcome)

unfoldable pub run_withdraws : ManagedOrder → Attempts → ManagedOrder
run_withdraws managed [] = managed
run_withdraws managed ((now, outcome) ∷ rest) =
    run_withdraws (attempt_withdraw managed now outcome) rest

-- The times at which the contract rejected a move.
abbrev pub rejections : Attempts → List ℕ
rejections [] = []
rejections ((now, sent) ∷ rest) = rejections rest
rejections ((now, failed true later) ∷ rest) = later ∷ rejections rest
rejections ((now, failed false later) ∷ rest) = rejections rest
