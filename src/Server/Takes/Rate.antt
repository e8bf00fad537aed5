-- ===== src/Server/Takes/Rate.antt =====
-- The rates of two orders, compared without division (`take` of server/src/store.ts).
use native.Mathlib.Nat.{mul-le-mul_left, lt_of_mul-lt-mul_left, le_of_mul-le-mul_left}
use Prim.Native.Nat.{Ordering, compare}
use quanta_swap.Prelude.{ℕ, ◌*◌, ◌≤◌, ◌<◌, ◌≡◌, ◌⊎◌, inl, inr, true, false, arith, is_gt}
use quanta_swap.Server.Store.{Order}
use quanta_swap.Server.Takes.Match.{then_by, best_first}

-- At least the rate of the second, which is at least the rate of the third.
module _ (fa ta fb tb fc tc : ℕ) where
  pub rate_trans : fb * ta ≤ fa * tb → fc * tb ≤ fb * tc → 0 < tb → fc * ta ≤ fa * tc
  rate_trans h k p =
      let a = mul-le-mul_left tc h in
      let b = mul-le-mul_left ta k in
      le_of_mul-le-mul_left {m = fc * ta} {n = fa * tc} {k = tb} (omega (arith, a, b)) p

  pub rate_trans_first : fb * ta < fa * tb → fc * tb ≤ fb * tc → 0 < tb → 0 < tc → fc * ta < fa * tc
  rate_trans_first h k p q =
      let a = mul-le-mul_left tc h in
      let b = mul-le-mul_left ta k in
      lt_of_mul-lt-mul_left tb {m = fc * ta} {n = fa * tc} (omega (arith, a, b, q))

  pub rate_trans_second :
      fb * ta ≤ fa * tb → fc * tb < fb * tc → 0 < tb → 0 < ta → fc * ta < fa * tc
  rate_trans_second h k p q =
      let a = mul-le-mul_left tc h in
      let b = mul-le-mul_left ta k in
      lt_of_mul-lt-mul_left tb {m = fc * ta} {n = fa * tc} (omega (arith, a, b, q))

-- A better rate, else as good a rate and a larger fill, else an order that is no younger.
abbrev pub IsBetter : Order → Order → Type 0
IsBetter a b =
    (b.from_amount * a.to_amount < a.from_amount * b.to_amount)
    ⊎ ((b.from_amount * a.to_amount ≡ a.from_amount * b.to_amount)
        × ((b.from_amount < a.from_amount)
            ⊎ ((b.from_amount ≡ a.from_amount) × (a.created_at ≤ b.created_at))))

abbrev keys : (x y u v p q : ℕ) → Ordering
keys x y u v p q = then_by (compare x y) (then_by (compare u v) (compare p q))

not_gt :
    (x y u v p q : ℕ)
    → is_gt (keys x y u v p q) ≡ false
    → (x < y) ⊎ ((x ≡ y) × ((u < v) ⊎ ((u ≡ v) × (p ≤ q))))
not_gt x y u v p q h = ground arith

gt :
    (x y u v p q : ℕ)
    → is_gt (keys x y u v p q) ≡ true
    → (y < x) ⊎ ((y ≡ x) × ((v < u) ⊎ ((v ≡ u) × (q ≤ p))))
gt x y u v p q h = ground arith

pub best_first-IsBetter : (a b : Order) → is_gt (best_first a b) ≡ false → IsBetter a b
unfolding best_first
best_first-IsBetter a b h = not_gt _ _ _ _ _ _ h

pub best_last-IsBetter : (a b : Order) → is_gt (best_first a b) ≡ true → IsBetter b a
unfolding best_first
best_last-IsBetter a b h = gt _ _ _ _ _ _ h

tie_trans :
    (fa fb fc a b c : ℕ)
    → (fb < fa) ⊎ ((fb ≡ fa) × (a ≤ b))
    → (fc < fb) ⊎ ((fc ≡ fb) × (b ≤ c))
    → (fc < fa) ⊎ ((fc ≡ fa) × (a ≤ c))
tie_trans fa fb fc a b c h k = ground (arith, h, k)

le_of_lt : {m n : ℕ} → m < n → m ≤ n
le_of_lt h = omega (arith, h)

le_of_eq : {m n : ℕ} → m ≡ n → m ≤ n
le_of_eq h = omega (arith, h)

ge_of_eq : {m n : ℕ} → m ≡ n → n ≤ m
ge_of_eq h = omega (arith, h)

antisym : {m n : ℕ} → m ≤ n → n ≤ m → m ≡ n
antisym h k = omega (arith, h, k)

pub IsBetter-trans :
    (a b c : Order)
    → 0 < a.to_amount
    → 0 < b.to_amount
    → 0 < c.to_amount
    → IsBetter a b
    → IsBetter b c
    → IsBetter a c
IsBetter-trans a b c p q r h k =
    let fa = a.from_amount in
    let ta = a.to_amount in
    let fb = b.from_amount in
    let tb = b.to_amount in
    let fc = c.from_amount in
    let tc = c.to_amount in
    elim h [
      | inl x ↦ elim k [
        | inl y ↦ inl (rate_trans_first fa ta fb tb fc tc x (le_of_lt y) q r)
        | inr (f, u) ↦ inl (rate_trans_first fa ta fb tb fc tc x (le_of_eq f) q r)
      ]
      | inr (e, t) ↦ elim k [
        | inl y ↦ inl (rate_trans_second fa ta fb tb fc tc (le_of_eq e) y q p)
        | inr (f, u) ↦ inr (
          antisym (rate_trans fa ta fb tb fc tc (le_of_eq e) (le_of_eq f) q)
              (rate_trans fc tc fb tb fa ta (ge_of_eq f) (ge_of_eq e) q),
          tie_trans fa fb fc a.created_at b.created_at c.created_at t u,
        )
      ]
    ]
