-- ===== src/Prelude/Int.antt =====
-- Integers over the native numbers: `bigint` values that may be negative.
use quanta_swap.Prelude.{ℕ, ◌+◌, ◌-◌, ◌*◌, ◌/◌, leb, if◌then◌else◌}

-- `negsuc n` is -(n + 1).
pub data ℤ : Type 0 where
  pos : ℕ → ℤ
  negsuc : ℕ → ℤ

-- The integer -n.
abbrev pub neg : ℕ → ℤ
neg n = if leb 1 n then negsuc (n - 1) else pos 0

-- `a - b`
abbrev pub sub_ℕ : ℕ → ℕ → ℤ
sub_ℕ a b = if leb b a then pos (a - b) else negsuc (b - a - 1)

-- `a * n`
infixl 70 ◌*ℕ◌
abbrev pub ◌*ℕ◌ : ℤ → ℕ → ℤ
pos a *ℕ n = pos (a * n)
negsuc a *ℕ n = neg ((a + 1) * n)

-- `a / n`, rounded towards zero as `bigint` division is.
infixl 70 ◌/ℕ◌
abbrev pub ◌/ℕ◌ : ℤ → ℕ → ℤ
pos a /ℕ n = pos (a / n)
negsuc a /ℕ n = neg ((a + 1) / n)
