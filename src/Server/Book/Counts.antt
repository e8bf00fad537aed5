-- ===== src/Server/Book/Counts.antt =====
-- The takes of one address that the book counts (`commitTake` of server/src/store.ts), as time passes
-- and through the sweep.
use quanta_swap.Prelude.{
  ℕ, suc, ◌≤◌, ◌≡◌, refl, sym, ap, ◌∙◌, inl, inr, Bool, true, ◌&&◌, Option, some, List, [], ◌∷◌,
  Text, arith, filter_by, length, Bool-cases, of_some,
}
use quanta_swap.Server.Store.{
  cancelled, Order, OrderStore, StoredFillIntent, sweep, sweep_order, sweep_orders, without,
}
use quanta_swap.Server.Store.Sweep.{
  sweep_order_cases, cons_removed, cons_kept, nothing_left, orders_swept,
}
use quanta_swap.Server.Takes.{
  is_mine, in_progress, is_recent, concurrent, recent, locking_slot_active,
}
use quanta_swap.Server.Takes.Answers.{count}

abbrev pub has_slot : ℕ → Text → Order → Bool
has_slot now ip o = is_mine ip o && in_progress now o

abbrev pub is_counted : ℕ → Text → Order → Bool
is_counted now ip o = is_mine ip o && is_recent now o

filter_both :
    (p q : Order → Bool) (os : List Order)
    → length (filter_by q (filter_by p os)) ≡ count (λ o. p o && q o) os
filter_both p q [] = refl
filter_both p q (o ∷ os) = elim (Bool-cases (p o)) [
  | inr e ↦ rw e (filter_both p q os)
  | inl e ↦ elim (Bool-cases (q o)) [
    | inl f ↦ rw (e, f) (ap suc (filter_both p q os))
    | inr f ↦ rw (e, f) (filter_both p q os)
  ]
]

-- The counts of `commitTake`.
pub concurrent-count :
    (now : ℕ) (ip : Text) (os : List Order) → concurrent now ip os ≡ count (has_slot now ip) os
unfolding concurrent
concurrent-count now ip os = filter_both (is_mine ip) (in_progress now) os

pub recent-count :
    (now : ℕ) (ip : Text) (os : List Order) → recent now ip os ≡ count (is_counted now ip) os
unfolding recent
recent-count now ip os = filter_both (is_mine ip) (is_recent now) os

both :
    (a b c d : Bool)
    → (a ≡ true → c ≡ true)
    → (b ≡ true → d ≡ true)
    → (a && b) ≡ true
    → (c && d) ≡ true
both a b c d h k e = ground (arith, h, k)

pub count_mono :
    (p q : Order → Bool) (os : List Order)
    → ((o : Order) → p o ≡ true → q o ≡ true)
    → count p os ≤ count q os
count_mono p q [] h = omega arith
count_mono p q (o ∷ os) h = elim (Bool-cases (p o)) [
  | inl e ↦ rw (e, h o e) (let k = count_mono p q os h in omega (arith, k))
  | inr e ↦ elim (Bool-cases (q o)) [
    | inl f ↦ rw (e, f) (let k = count_mono p q os h in omega (arith, k))
    | inr f ↦ rw (e, f) (count_mono p q os h)
  ]
]

-- As time passes, no take comes back.
pub slot_earlier :
    (now later : ℕ) (o : Order)
    → now ≤ later
    → in_progress later o ≡ true
    → in_progress now o ≡ true
unfolding in_progress locking_slot_active
slot_earlier now later o h e = ground arith

pub recent_earlier :
    (now later : ℕ) (o : Order) → now ≤ later → is_recent later o ≡ true → is_recent now o ≡ true
recent_earlier now later o h e = ground arith

abbrev Swept : Type 0
Swept = Option Order × Bool

left : {a b : Order} {d e : Bool} → ◌≡◌ {A = Swept} (some a, d) (some b, e) → a ≡ b
left h = of_some (ap (λ (x : Swept). x.0) h)

pub cancelled_slot :
    (now : ℕ) (ip : Text) (p : Order) {A : Type 0}
    → p.status ≡ cancelled
    → has_slot now ip p ≡ true
    → A
unfolding in_progress locking_slot_active
cancelled_slot now ip p c h = ground (arith, c, h)

trimmed_slot :
    (now : ℕ) (ip : Text) (o : Order) (k : Option (List StoredFillIntent))
    → has_slot now ip (record o { fill_intents = k }) ≡ true
    → has_slot now ip o ≡ true
unfolding in_progress locking_slot_active
trimmed_slot now ip o k h = h

-- The sweep brings no take back either.
pub swept_slot :
    (now at : ℕ) (ip : Text) (o p : Order) (d : Bool)
    → sweep_order at o ≡ (some p, d)
    → (has_slot now ip p ≡ true → has_slot now ip o ≡ true)
      × (is_counted now ip p ≡ true → is_counted now ip o ≡ true)
swept_slot now at ip o p d e = elim (sweep_order_cases at o) [
  | inl n ↦ let k = sym n ∙ e in ground (arith, k)
  | inr (inl (k, c)) ↦
      let same = left (sym c ∙ e) in rw (sym same) (λ h. cancelled_slot now ip _ refl h, λ h. h)
  | inr (inr (k, d, c)) ↦
      let same = left (sym c ∙ e) in rw (sym same) (trimmed_slot now ip o k, λ h. h)
]

skips :
    (q : Order → Bool) (ps : List Order) (o : Order) (os : List Order)
    → count q ps ≤ count q os
    → count q ps ≤ count q (o ∷ os)
skips q ps o os h = elim (Bool-cases (q o)) [ inl e ↦ rw e (omega (arith, h)) | inr e ↦ rw e h ]

keeps :
    (q : Order → Bool) (p o : Order) (ps os : List Order)
    → (q p ≡ true → q o ≡ true)
    → count q ps ≤ count q os
    → count q (p ∷ ps) ≤ count q (o ∷ os)
keeps q p o ps os k h = elim (Bool-cases (q p)) [
  | inl e ↦ rw (e, k e) (omega (arith, h))
  | inr e ↦ rw e (skips q ps o os h)
]

-- The sweep leaves no more orders that pass a test than there were, if it makes none pass.
module _ (q : Order → Bool) (at : ℕ)
    (h : (o p : Order) (d : Bool) → sweep_order at o ≡ (some p, d) → q p ≡ true → q o ≡ true) where
  swept_counts :
      (os : List Order) (seen : List (Text × ℕ)) → count q (sweep_orders at os seen).0 ≤ count q os
  swept_counts [] seen = rw (nothing_left at seen) (omega arith)
  swept_counts (o ∷ os) seen = elim (sweep_order_cases at o) [
    | inl n ↦
        let k = swept_counts os (without o.id seen) in
        rw (cons_removed at o os seen n) (skips q (sweep_orders at os (without o.id seen)).0 o os k)
    | inr (inl (k, c)) ↦
        rw (cons_kept at o _ true os seen c)
          (keeps q _ o _ os (h o _ true c) (swept_counts os seen))
    | inr (inr (k, d, c)) ↦
        rw (cons_kept at o _ d os seen c) (keeps q _ o _ os (h o _ d c) (swept_counts os seen))
  ]

  pub count-sweep : (s : OrderStore) → count q (sweep at s).orders ≤ count q s.orders
  count-sweep s = let (seen, e) = orders_swept at s in rw e (swept_counts s.orders seen)
