-- ===== src/Maker/Refill.antt =====
-- When the maker posts another listing (`fundsShort`, `inventoryShort` and `shouldPost` of
-- marketmaker/src/policy.ts), and on which rung (the loop of `refill` in
-- marketmaker/src/index.ts).
pub mod Ladder
use quanta_swap.Prelude.{
  ℕ, suc, zero, ◌+◌, ◌*◌, ◌≤◌, ◌<◌, ◌≡◌, refl, ◌⊎◌, inl, inr, Bool, true, false, ◌&&◌, ◌||◌, Option,
  none, some, List, [], ◌∷◌, arith, ltb, leb, if◌then◌else◌, Bool-cases, of_some, sym,
}
use native.Mathlib.Decide.{dec_lt}
use quanta_swap.Chain.{Direction}

pub record RefillInput : Type 0 where
  pub direction : Direction
  pub my_open_count : ℕ
  pub orders_per_direction : ℕ
  pub orders_per_level : ℕ
  pub inflight_count : ℕ
  pub max_inflight : ℕ
  pub balance_wei : ℕ
  pub reserve_wei : ℕ
  pub order_wei : ℕ
  pub gas_balance_wei : ℕ
  pub gas_reserve_wei : ℕ

unfoldable pub funds_short : RefillInput → Bool
funds_short x =
    ltb x.balance_wei (x.reserve_wei + x.order_wei) || ltb x.gas_balance_wei x.gas_reserve_wei

unfoldable pub inventory_short : RefillInput → Bool
unfolding funds_short
inventory_short x =
    ltb x.my_open_count (x.orders_per_direction * x.orders_per_level)
    && (ltb x.inflight_count x.max_inflight && funds_short x)

unfoldable pub should_post : RefillInput → Bool
should_post x =
    ltb x.my_open_count (x.orders_per_direction * x.orders_per_level)
    && (ltb x.inflight_count x.max_inflight
        && (leb (x.reserve_wei + x.order_wei) x.balance_wei
            && leb x.gas_reserve_wei x.gas_balance_wei))

-- The search for the lowest rung with room from `l` on, `left` rungs before the end. The count of
-- open listings by rung is a function; a rung that no listing names counts 0.
rung_from : (ℕ → ℕ) → ℕ → ℕ → ℕ → Option ℕ
rung_from open_by_level per_level zero l = none
rung_from open_by_level per_level (suc left) l =
    let later = rung_from open_by_level per_level left (l + 1) in
    if ltb (open_by_level l) per_level then some l else later

unfoldable pub lowest_rung : (ℕ → ℕ) → ℕ → ℕ → Option ℕ
unfolding rung_from
lowest_rung open_by_level per_level rungs = rung_from open_by_level per_level rungs 0

-- The sum over the first `n` rungs, which is `myOpenCount`.
unfoldable pub total_open : (ℕ → ℕ) → ℕ → ℕ
total_open open_by_level zero = 0
total_open open_by_level (suc n) = total_open open_by_level n + open_by_level n
