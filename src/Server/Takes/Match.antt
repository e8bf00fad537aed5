-- ===== src/Server/Takes/Match.antt =====
-- Taking by terms in the order book's store (`take` of server/src/store.ts).
use Prim.Native.Nat.{Ordering, compare}
use quanta_swap.Prelude.{
  ℕ, ◌+◌, ◌*◌, Bool, true, false, not, ◌&&◌, Option, none, some, List, [], ◌∷◌, Text, text_eq, ltb,
  leb, if◌then◌else◌, on_option, filter_by, sort_by,
}
use quanta_swap.Chain.{Direction, eth_to_qrl, qrl_to_eth}
use quanta_swap.Server.Wire.{
  needs_qip55, no_match, Asset, AmountBounds, qrl_bounds, require_asset, require_direction,
  require_amount,
}
use quanta_swap.Server.Store.{Order, OrderStore, is_open, has_runway, sweep}
use quanta_swap.Server.Tokens.{Hashes}
use quanta_swap.Server.Takes.{
  TakeBody, Answer, refused, require, check, uses_portable_terminal_protocol, commit_take,
  is_legacy_input,
}

-- `this.seenAt.get(order.id) ?? 0`
unfoldable pub seen_time : Text → List (Text × ℕ) → ℕ
unfolding text_eq
seen_time id [] = 0
seen_time id (e ∷ es) = let rest = seen_time id es in if text_eq id e.0 then e.1 else rest

unfoldable pub is_seen : OrderStore → Order → ℕ → Bool
unfolding seen_time
is_seen s order now = ltb now (seen_time order.id s.seen_at + s.presence_ttl)

abbrev pub same_direction : Direction → Direction → Bool
same_direction eth_to_qrl eth_to_qrl = true
same_direction qrl_to_eth qrl_to_eth = true
same_direction _ _ = false

pub record TakeTerms : Type 0 where
  pub direction : Direction
  pub asset : Asset
  pub max_pay : ℕ
  pub min_receive : ℕ

-- The filter of `take`.
unfoldable pub matches_terms : OrderStore → ℕ → TakeTerms → Order → Bool
unfolding text_eq is_seen has_runway
matches_terms s now terms o =
    is_open o.status
    && (not (uses_portable_terminal_protocol o)
        && (o.is_public
            && (same_direction o.direction terms.direction
                && (text_eq o.asset terms.asset.symbol
                    && (leb o.to_amount terms.max_pay
                        && (leb terms.min_receive o.from_amount
                            && (is_seen s o now && has_runway o now)))))))

-- `x !== 0 ? x : y` on the signs of two comparisons.
abbrev pub then_by : Ordering → Ordering → Ordering
then_by Ordering.eq d = d
then_by c _ = c

-- The rates by cross multiplication, then the larger fill, then the older order.
unfoldable pub best_first : Order → Order → Ordering
best_first a b =
    then_by (compare (b.from_amount * a.to_amount) (a.from_amount * b.to_amount))
      (then_by (compare b.from_amount a.from_amount) (compare a.created_at b.created_at))

-- `candidates[0]`
abbrev pub first {ℓ} : {A : Type ℓ} → List A → Option A
first [] = none
first (a ∷ _) = some a

unfoldable pub best_match : OrderStore → ℕ → TakeTerms → Option Order
unfolding matches_terms best_first sort_by
best_match s now terms = first (sort_by best_first (filter_by (matches_terms s now terms) s.orders))

abbrev pub pay_bounds : Direction → Asset → AmountBounds
pay_bounds eth_to_qrl asset = qrl_bounds
pay_bounds qrl_to_eth asset = asset.bounds

abbrev pub receive_bounds : Direction → Asset → AmountBounds
receive_bounds eth_to_qrl asset = asset.bounds
receive_bounds qrl_to_eth asset = qrl_bounds

module _ (hashes : Hashes) (now : ℕ) (ip token : Text) (body : TakeBody) where
  unfoldable pub take_best : TakeTerms → OrderStore → Answer
  unfolding best_match commit_take
  take_best terms s =
      on_option (best_match s now terms) (s, refused no_match)
        (λ best. commit_take hashes now ip token body best s)

  -- `take` after its sweep.
  unfoldable pub take_swept : OrderStore → Answer
  unfolding require_direction require_asset require_amount take_best
  take_swept s = check (require_direction body.direction) s (λ direction.
      check (require_asset body.asset) s (λ asset.
        check (require_amount body.max_pay (pay_bounds direction asset)) s (λ pay.
          check (require_amount body.min_receive (receive_bounds direction asset)) s (λ receive.
            take_best
              (record {
                direction = direction;
                asset = asset;
                max_pay = pay;
                min_receive = receive;
              })
              s))))

  unfoldable pub take : OrderStore → Answer
  unfolding is_legacy_input sweep take_swept
  take s =
      require (is_legacy_input hashes now ip token body body.taker_qrl_account) needs_qip55 s
        (take_swept (sweep now s))
