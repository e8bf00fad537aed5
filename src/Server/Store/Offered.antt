-- ===== src/Server/Store/Offered.antt =====
-- Which orders the book lists (`listOpen` of server/src/store.ts).
use quanta_swap.Prelude.{
  ℕ, ◌+◌, ◌≤◌, ◌<◌, ◌≡◌, inl, inr, Bool, true, false, not, some, List, [], ◌∷◌, Text, filter_by,
  arith, All, All-filter_by, All-sort_by, &&_parts,
}
use quanta_swap.Server.Store.{
  OrderStatus, opened, Order, OrderStore, open_ttl, min_takeable_runway, is_open, is_over,
  is_offered, newest_first, has_runway, sweep_orders, sweep_book, sweep, list_open, without,
}
use quanta_swap.Server.Store.Sweep.{
  sweep_order-IsSwept, cons_removed, cons_kept, nothing_left, is_over-false,
}

-- The order is open, public and not equivocated, its listing time and its maker's signature have
-- not run out, and a pre-funded one has time left for a whole swap.
pub record IsOffered (now : ℕ) (o : Order) : Type 0 where
  pub still_open : o.status ≡ opened
  pub public : o.is_public ≡ true
  pub single : o.equivocated ≡ false
  pub listed_lately : now ≤ o.updated_at + open_ttl
  pub signed : (e : ℕ) → o.maker_auth ≡ some e → now < e
  pub runway :
      (t : ℕ) → o.prelocked ≡ true → o.initiator_timeout ≡ some t → now + min_takeable_runway ≤ t

not_over :
    (now : ℕ) (o : Order)
    → is_over now o ≡ false
    → o.status ≡ opened
    → (now ≤ o.updated_at + open_ttl) × ((e : ℕ) → o.maker_auth ≡ some e → now < e)
unfolding is_over
not_over now o h s = let k = rw s at h in (ground (arith, k), λ e p. ground (arith, k, p))

runway_left :
    (now : ℕ) (o : Order)
    → has_runway o now ≡ true
    → (t : ℕ) → o.prelocked ≡ true
    → o.initiator_timeout ≡ some t
    → now + min_takeable_runway ≤ t
unfolding has_runway
runway_left now o h t p e = ground arith

open_status : (s : OrderStatus) → is_open s ≡ true → s ≡ opened
open_status s h = ground arith

not_equivocated : (b : Bool) → not b ≡ true → b ≡ false
not_equivocated b h = ground arith

is_offered-IsOffered :
    (now : ℕ) (o : Order) → is_offered now o ≡ true → is_over now o ≡ false → IsOffered now o
unfolding is_offered
is_offered-IsOffered now o h v =
    let (a, b) = &&_parts _ _ h in
    let (c, d) = &&_parts _ _ a in
    let (e, f) = &&_parts _ _ d in
    let (w, g) = not_over now o v (open_status o.status c) in
    record {
      still_open = open_status o.status c;
      public = e;
      single = not_equivocated o.equivocated b;
      listed_lately = w;
      signed = g;
      runway = runway_left now o f;
    }

AllLive_orders :
    (now : ℕ) (os : List Order) (seen : List (Text × ℕ))
    → All (λ o. is_over now o ≡ false) (sweep_orders now os seen).0
AllLive_orders now [] seen = rw (nothing_left now seen) tt
AllLive_orders now (o ∷ os) seen = elim (sweep_order-IsSwept now o) [
  | inl e ↦ rw (cons_removed now o os seen e) (AllLive_orders now os (without o.id seen))
  | inr (p, d, e, same) ↦
      rw (cons_kept now o p d os seen e) (is_over-false now p same, AllLive_orders now os seen)
]

AllLive_sweep : (now : ℕ) (s : OrderStore) → All (λ o. is_over now o ≡ false) (sweep now s).orders
unfolding sweep sweep_book
AllLive_sweep now s = AllLive_orders now _ _

All-IsOffered :
    (now : ℕ) (os : List Order)
    → All (λ o. (is_offered now o ≡ true) × (is_over now o ≡ false)) os
    → All (IsOffered now) os
All-IsOffered now [] h = tt
All-IsOffered now (o ∷ os) h = (is_offered-IsOffered now o h.0.0 h.0.1, All-IsOffered now os h.1)

-- Every order that the book lists is open, public and not equivocated, its listing time and its
-- maker's signature have not run out, and a pre-funded one has time left for a whole swap, whatever
-- the store held before.
pub list_open-AllOffered : (now : ℕ) (s : OrderStore) → All (IsOffered now) (list_open now s).1
unfolding list_open
list_open-AllOffered now s =
    All-sort_by newest_first (IsOffered now) (filter_by (is_offered now) (sweep now s).orders) (
      All-IsOffered now _ (
        All-filter_by (is_offered now) (λ o. is_over now o ≡ false) (sweep now s).orders
          (AllLive_sweep now s)))
