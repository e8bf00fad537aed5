-- ===== src/Prelude/Throws.antt =====
-- Computations that may throw: `none` is the exception, `some a` the returned value.
use mathlib.Core.Path.{◌≡◌, refl}
use mathlib.Core.Logic.{◌⊎◌, inl, inr}
use mathlib.Core.Bool.{Bool, true, false}
use mathlib.Core.Option.{Option, none, some}
use native.Mathlib.Omega.{arith}

infixl 5 ◌>>=◌
abbrev pub ◌>>=◌ {ℓ κ} : {A : Type ℓ} {B : Type κ} → Option A → (A → Option B) → Option B
none >>= f = none
some a >>= f = f a

-- `a && b`, where `b` is evaluated only if `a` is true.
infixr 35 ◌&&?◌
abbrev pub ◌&&?◌ : Option Bool → Option Bool → Option Bool
none &&? b = none
some true &&? b = b
some false &&? b = some false

abbrev pub not? : Option Bool → Option Bool
not? none = none
not? (some true) = some false
not? (some false) = some true

-- `if (test) return value;` before the statements that follow.
abbrev pub when {ℓ} : {A : Type ℓ} → Option Bool → Option A → Option A → Option A
when none d rest = none
when (some true) d rest = d
when (some false) d rest = rest

pub &&?-eq-true : (a b : Option Bool) → (a &&? b) ≡ some true → (a ≡ some true) × (b ≡ some true)
&&?-eq-true none b h = ground arith
&&?-eq-true (some true) b h = (refl, h)
&&?-eq-true (some false) b h = ground arith

pub &&?-returns :
    (a b : Option Bool) {x y : Bool} → a ≡ some x → b ≡ some y → (z : Bool) × ((a &&? b) ≡ some z)
&&?-returns none b p q = ground arith
&&?-returns (some true) b {y = y} p q = (y, q)
&&?-returns (some false) b p q = (false, refl)

pub when_cases {ℓ} :
    {A : Type ℓ} (g : Option Bool) (d rest : Option A) {a : A}
    → when g d rest ≡ some a
    → (g ≡ some true) × (d ≡ some a) ⊎ (g ≡ some false) × (rest ≡ some a)
when_cases none d rest h = ground arith
when_cases (some true) d rest h = inl (refl, h)
when_cases (some false) d rest h = inr (refl, h)

pub of_some {ℓ} : {A : Type ℓ} {a b : A} → some a ≡ some b → a ≡ b
of_some h = cc
