-- ===== src/Chain/Spacing.antt =====
-- The spacing of sends (`retryOk` of marketmaker/src/policy.ts and taker-policy.ts).
use quanta_swap.Prelude.{ℕ, ◌+◌, ◌<◌, ◌≡◌, refl, ◌⊎◌, inl, inr, true, Option, none, some, arith}
use quanta_swap.Chain.{retry_ok}

-- No attempt was made yet, or the last one is older than the resend interval.
abbrev pub MaySend : Option ℕ → ℕ → ℕ → Type 0
MaySend sent_at now resend_after =
    (sent_at ≡ none) ⊎ ((s : ℕ) × (sent_at ≡ some s) × (s + resend_after < now))

pub retry_ok-MaySend :
    (sent_at : Option ℕ) (now resend_after : ℕ)
    → retry_ok sent_at now resend_after ≡ true
    → MaySend sent_at now resend_after
unfolding retry_ok
retry_ok-MaySend none now resend_after h = inl refl
retry_ok-MaySend (some s) now resend_after h = inr (s, refl, ground arith)

pub MaySend-retry_ok :
    (sent_at : Option ℕ) (now resend_after : ℕ)
    → MaySend sent_at now resend_after
    → retry_ok sent_at now resend_after ≡ true
unfolding retry_ok
MaySend-retry_ok none now resend_after h = refl
MaySend-retry_ok (some s) now resend_after h = ground arith
