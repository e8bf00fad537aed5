-- ===== src/Maker/Refill/Ladder.antt =====
-- The ladder's rungs (`refill` of marketmaker/src/index.ts) against the listing target of
-- `shouldPost` (marketmaker/src/policy.ts).
use native.Mathlib.Decide.{dec_lt}
use quanta_swap.Prelude.{
  ℕ, suc, zero, ◌+◌, ◌*◌, ◌≤◌, ◌<◌, ◌≡◌, inl, inr, true, false, ◌&&◌, none, some, arith, ltb,
  if◌then◌else◌, Bool-cases, Option-cases, of_some,
}
use quanta_swap.Maker.Refill.{
  RefillInput, funds_short, inventory_short, should_post, rung_from, lowest_rung, total_open,
}

rung_from-some :
    (f : ℕ → ℕ) (k left l : ℕ) {r : ℕ}
    → rung_from f k left l ≡ some r
    → (f r < k) × (l ≤ r) × (r < l + left) × ((j : ℕ) → l ≤ j → j < r → k ≤ f j)
unfolding rung_from
rung_from-some f k zero l h = ground arith
rung_from-some f k (suc left) l {r} h = elim (Bool-cases (ltb (f l) k)) [
  | inl e ↦
      let here : l ≡ r = of_some (ground (arith, e)) in
      (ground arith, omega arith, omega arith, λ j a b. absurd (omega arith))
  | inr e ↦
      let later : rung_from f k left (l + 1) ≡ some r = ground (arith, e) in
      let (room, low, high, full) = rung_from-some f k left (l + 1) later in
      (
        room,
        omega arith,
        omega arith,
        λ j a b. elim (dec_lt l j) [
          | yes p ↦ full j (omega arith) b
          | no p ↦ let same : j ≡ l = omega arith in rw same (ground arith)
        ],
      )
]

rung_from-none :
    (f : ℕ → ℕ) (k left l : ℕ)
    → rung_from f k left l ≡ none
    → (j : ℕ) → l ≤ j
    → j < l + left
    → k ≤ f j
unfolding rung_from
rung_from-none f k zero l h j a b = absurd (omega arith)
rung_from-none f k (suc left) l h j a b = elim (Bool-cases (ltb (f l) k)) [
  | inl e ↦ ground (arith, e)
  | inr e ↦
      let later : rung_from f k left (l + 1) ≡ none = ground (arith, e) in
      elim (dec_lt l j) [
        | yes p ↦ rung_from-none f k left (l + 1) later j (omega arith) (omega arith)
        | no p ↦ let same : j ≡ l = omega arith in rw same (ground arith)
      ]
]

full_rungs : (f : ℕ → ℕ) (k n : ℕ) → ((j : ℕ) → j < n → k ≤ f j) → n * k ≤ total_open f n
unfolding total_open
full_rungs f k zero h = omega arith
full_rungs f k (suc n) h =
    omega (arith, full_rungs f k n (λ j b. h j (omega arith)), h n (omega arith))

wants_more :
    (x : RefillInput)
    → should_post x ≡ true
    → (x.my_open_count < x.orders_per_direction * x.orders_per_level)
      × (x.inflight_count < x.max_inflight)
      × (x.reserve_wei + x.order_wei ≤ x.balance_wei)
      × (x.gas_reserve_wei ≤ x.gas_balance_wei)
unfolding should_post
wants_more x h = (ground arith, ground arith, ground arith, ground arith)

-- Where the open count is that of the rungs, a wish to post always finds a rung: the lowest one
-- with room, all below it full. It never breaks the cap on swaps in flight, the reserve or the gas
-- reserve.
pub should_post-lowest_rung :
    (x : RefillInput) (open_by_level : ℕ → ℕ)
    → x.my_open_count ≡ total_open open_by_level x.orders_per_direction
    → should_post x ≡ true
    → (r : ℕ) × (lowest_rung open_by_level x.orders_per_level x.orders_per_direction ≡ some r)
      × (r < x.orders_per_direction)
      × (open_by_level r < x.orders_per_level)
      × ((j : ℕ) → j < r → x.orders_per_level ≤ open_by_level j)
      × (x.inflight_count < x.max_inflight)
      × (x.reserve_wei + x.order_wei ≤ x.balance_wei)
      × (x.gas_reserve_wei ≤ x.gas_balance_wei)
unfolding lowest_rung
should_post-lowest_rung x f e h =
    let (room, cap, funds, gas) = wants_more x h in
    elim (Option-cases (rung_from f x.orders_per_level x.orders_per_direction 0)) [
      | inl e' ↦ absurd (
          omega (
            arith,
            full_rungs f x.orders_per_level x.orders_per_direction (λ j b.
                rung_from-none f x.orders_per_level x.orders_per_direction 0 e' j (omega arith)
                  (omega arith)),
          ))
      | inr (r, found) ↦
          let (free, low, high, full) =
            rung_from-some f x.orders_per_level x.orders_per_direction 0 found in
          (r, found, omega arith, free, (λ j b. full j (omega arith) b), cap, funds, gas)
    ]

-- The maker's three answers agree: it posts or reports missing funds, and never both, exactly when
-- the ladder wants a listing and the cap on swaps in flight allows one; and which of the two is
-- decided by the funds alone.
pub refill_answers :
    (x : RefillInput)
    → let wanted =
        ltb x.my_open_count (x.orders_per_direction * x.orders_per_level)
        && ltb x.inflight_count x.max_inflight in
      (should_post x ≡ (if funds_short x then false else wanted))
      × (inventory_short x ≡ (if funds_short x then wanted else false))
unfolding should_post inventory_short
refill_answers x = (ground arith, ground arith)
