-- ===== src/Server/Takes/Keys.antt =====
-- The orders of the book under their ids, which are the keys of the map (`OrderStore.orders` of
-- server/src/store.ts).
use quanta_swap.Prelude.{
  ℕ, ◌≡◌, sym, ap, ◌∙◌, inl, inr, true, false, none, some, List, [], ◌∷◌, Text, text_eq, text_eq→eq,
  text_eq_refl, arith, All, Bool-cases,
}
use quanta_swap.Server.Store.{Order, OrderStore, sweep, sweep_orders, without}
use quanta_swap.Server.Store.Sweep.{
  sweep_order_cases, cons_removed, cons_kept, nothing_left, orders_swept,
}
use quanta_swap.Server.Takes.{find_order, put_order}
use quanta_swap.Server.Takes.Answers.{find_here, find_later, put_here, put_later, put_nothing}

-- No id occurs twice.
abbrev pub IsDistinct : List Order → Type 0
IsDistinct [] = Unit
IsDistinct (o ∷ os) = (find_order o.id os ≡ none) × IsDistinct os

-- An id that is not found differs from the ids in the list.
missing_head :
    (id : Text) (o : Order) (os : List Order)
    → find_order id (o ∷ os) ≡ none
    → text_eq id o.id ≡ false
missing_head id o os h = elim (Bool-cases (text_eq id o.id)) [
  | inl e ↦ let k = sym (find_here id o os e) ∙ h in ground (arith, k)
  | inr e ↦ e
]

missing_tail :
    (id : Text) (o : Order) (os : List Order)
    → find_order id (o ∷ os) ≡ none
    → find_order id os ≡ none
missing_tail id o os h = sym (find_later id o os (missing_head id o os h)) ∙ h

still_found :
    (o : Order) (os xs : List Order)
    → find_order o.id os ≡ none
    → All (λ x. find_order x.id os ≡ some x) xs
    → All (λ x. find_order x.id (o ∷ os) ≡ some x) xs
still_found o os [] h k = tt
still_found o os (x ∷ xs) h k = (
  elim (Bool-cases (text_eq x.id o.id)) [
    | inl e ↦
        let m = sym (ap (λ i. find_order i os) (text_eq→eq x.id o.id e) ∙ h) ∙ k.0 in
        ground (arith, m)
    | inr e ↦ find_later x.id o os e ∙ k.0
  ],
  still_found o os xs h k.1,
)

-- Each order is the one that its id finds.
pub All-found : (os : List Order) → IsDistinct os → All (λ o. find_order o.id os ≡ some o) os
All-found [] h = tt
All-found (o ∷ os) h =
    (find_here o.id o os (text_eq_refl o.id), still_found o os os h.0 (All-found os h.1))

missing_put :
    (id : Text) (p : Order) (os : List Order)
    → find_order id os ≡ none
    → find_order id (put_order p os) ≡ none
missing_put id p [] h = rw (put_nothing p) h
missing_put id p (o ∷ os) h = elim (Bool-cases (text_eq p.id o.id)) [
  | inl e ↦
      let same = text_eq→eq p.id o.id e in
      rw (put_here p o os e)
        (find_later id p os (rw same (missing_head id o os h)) ∙ missing_tail id o os h)
  | inr e ↦ rw (put_later p o os e) (
      find_later id o (put_order p os) (missing_head id o os h)
      ∙ missing_put id p os (missing_tail id o os h))
]

pub put_order-IsDistinct :
    (p : Order) (os : List Order) → IsDistinct os → IsDistinct (put_order p os)
put_order-IsDistinct p [] h = rw (put_nothing p) tt
put_order-IsDistinct p (o ∷ os) h = elim (Bool-cases (text_eq p.id o.id)) [
  | inl e ↦ rw (put_here p o os e) (rw (text_eq→eq p.id o.id e) h.0, h.1)
  | inr e ↦ rw (put_later p o os e) (missing_put o.id p os h.0, put_order-IsDistinct p os h.1)
]

missing_cons :
    (id : Text) (o : Order) (os : List Order)
    → text_eq id o.id ≡ false
    → find_order id os ≡ none
    → find_order id (o ∷ os) ≡ none
missing_cons id o os h k = find_later id o os h ∙ k

missing_swept :
    (id : Text) (now : ℕ) (os : List Order) (seen : List (Text × ℕ))
    → find_order id os ≡ none
    → find_order id (sweep_orders now os seen).0 ≡ none
missing_swept id now [] seen h = rw (nothing_left now seen) h
missing_swept id now (o ∷ os) seen h =
    let rest = missing_swept id now os in
    let t = missing_tail id o os h in
    elim (sweep_order_cases now o) [
      | inl n ↦ rw (cons_removed now o os seen n) (rest (without o.id seen) t)
      | inr (inl (k, c)) ↦
          rw (cons_kept now o _ true os seen c)
            (missing_cons id _ _ (missing_head id o os h) (rest seen t))
      | inr (inr (k, d, c)) ↦
          rw (cons_kept now o _ d os seen c)
            (missing_cons id _ _ (missing_head id o os h) (rest seen t))
    ]

swept-IsDistinct :
    (now : ℕ) (os : List Order) (seen : List (Text × ℕ))
    → IsDistinct os
    → IsDistinct (sweep_orders now os seen).0
swept-IsDistinct now [] seen h = rw (nothing_left now seen) tt
swept-IsDistinct now (o ∷ os) seen h = elim (sweep_order_cases now o) [
  | inl n ↦ rw (cons_removed now o os seen n) (swept-IsDistinct now os (without o.id seen) h.1)
  | inr (inl (k, c)) ↦
      rw (cons_kept now o _ true os seen c)
        (missing_swept o.id now os seen h.0, swept-IsDistinct now os seen h.1)
  | inr (inr (k, d, c)) ↦
      rw (cons_kept now o _ d os seen c)
        (missing_swept o.id now os seen h.0, swept-IsDistinct now os seen h.1)
]

pub sweep-IsDistinct :
    (now : ℕ) (s : OrderStore) → IsDistinct s.orders → IsDistinct (sweep now s).orders
sweep-IsDistinct now s h =
    let (seen, e) = orders_swept now s in rw e (swept-IsDistinct now s.orders seen h)
