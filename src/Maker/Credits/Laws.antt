-- ===== src/Maker/Credits/Laws.antt =====
-- The spacing of credit retries (`creditRetryAfterS` of marketmaker/src/policy.ts).
use native.Mathlib.Nat.{pow-suc}
use quanta_swap.Prelude.{ℕ, zero, suc, ◌*◌, ◌^◌, ◌≤◌, ◌≡◌, min, arith}
use quanta_swap.Maker.Credits.{credit_retry_after}

one-le-pow : (n : ℕ) → 1 ≤ 2 ^ n
one-le-pow zero = omega arith
one-le-pow (suc n) = omega (arith, one-le-pow n, pow-suc 2 n)

scaled_up : (r p : ℕ) → 1 ≤ p → r ≤ r * p
scaled_up r p h = grind arith

doubled : (r n : ℕ) → r * 2 ^ suc n ≡ 2 * (r * 2 ^ n)
doubled r n = rw (pow-suc 2 n) (omega arith)

-- The wait before the next attempt never passes an hour, is never shorter than the ordinary resend
-- interval (or the hour, if that is less), doubles with each rejection until it meets the hour, and
-- so never shrinks.
pub credit_retry_bounds :
    (n r : ℕ)
    → (credit_retry_after n r ≤ 3600)
      × (min r 3600 ≤ credit_retry_after n r)
      × (credit_retry_after (suc n) r ≡ min (2 * credit_retry_after n r) 3600)
      × (credit_retry_after n r ≤ credit_retry_after (suc n) r)
unfolding credit_retry_after
credit_retry_bounds n r = (
  omega arith,
  omega (arith, scaled_up r (2 ^ n) (one-le-pow n)),
  omega (arith, doubled r n),
  omega (arith, doubled r n),
)
