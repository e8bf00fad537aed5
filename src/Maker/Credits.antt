-- ===== src/Maker/Credits.antt =====
-- Retry spacing and parking of payout credits (marketmaker/src/policy.ts).
pub mod Laws
use quanta_swap.Prelude.{ℕ, ◌+◌, ◌*◌, ◌^◌, min, Bool, false, ◌&&◌, Option, none, some, leb, or_else}
use quanta_swap.Maker.Order.{ManagedOrder}

abbrev pub max_credit_attempts : ℕ
max_credit_attempts = 5

abbrev pub credit_park_after : ℕ
credit_park_after = 24 * 60 * 60

abbrev pub credit_retry_cap : ℕ
credit_retry_cap = 60 * 60

-- The exponent is a count, so `Math.max(0, rejections)` is the count itself.
unfoldable pub credit_retry_after : ℕ → ℕ → ℕ
credit_retry_after rejections resend_after = min (resend_after * 2 ^ rejections) credit_retry_cap

-- `firstRejectedAt` set, and at least `CREDIT_PARK_AFTER_S` ago
unfoldable pub rejected_long_ago : Option ℕ → ℕ → Bool
rejected_long_ago none now = false
rejected_long_ago (some first) now = leb (first + credit_park_after) now

unfoldable pub parked : Option ℕ → Option ℕ → ℕ → Bool
unfolding rejected_long_ago
parked rejections first_rejected_at now =
    leb max_credit_attempts (or_else rejections 0) && rejected_long_ago first_rejected_at now

unfoldable pub withdraw_parked : ManagedOrder → ℕ → Bool
unfolding parked
withdraw_parked managed now =
    parked managed.withdraw_attempts managed.withdraw_first_rejected_at now

unfoldable pub push_parked : ManagedOrder → ℕ → Bool
unfolding parked
push_parked managed now = parked managed.push_attempts managed.push_first_rejected_at now
