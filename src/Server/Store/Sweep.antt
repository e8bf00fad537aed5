-- ===== src/Server/Store/Sweep.antt =====
-- The sweep of the order book's store (server/src/store.ts) does its work in one pass.
use quanta_swap.Prelude.{
  ℕ, ◌+◌, ◌<◌, ◌≡◌, true_ne_false, refl, sym, ap, ◌∙◌, ◌⊎◌, inl, inr, Bool, true, false, ◌&&◌, ◌||◌,
  Option, none, some, List, [], ◌∷◌, Text, ltb, ◌==◌, if◌then◌else◌, if_true, if_false, filter_by,
  length, arith, Bool-cases, Option-cases, ==_iff,
}
use quanta_swap.Server.Store.{
  cancelled, StoredFillIntent, Order, OrderStore, recent_admissions, prune_intent_admissions,
  is_retained, retain_intents, is_over, is_removable, sweep_order, sweep_orders, sweep_book, sweep,
  without,
}

filter_by_idem {ℓ} :
    {A : Type ℓ} (p : A → Bool) (xs : List A) → filter_by p (filter_by p xs) ≡ filter_by p xs
filter_by_idem p [] = refl
filter_by_idem p (x ∷ xs) = elim (Bool-cases (p x)) [
  | inl e ↦ rw (e, e) (ap (λ ys. x ∷ ys) (filter_by_idem p xs))
  | inr e ↦ rw e (filter_by_idem p xs)
]

same_length : (n : ℕ) → (n == n) ≡ true
same_length n = (==_iff n n).1 refl

pub retain_all :
    (now : ℕ) (xs : List StoredFillIntent)
    → (length (filter_by (is_retained now) xs) == length xs) ≡ true
    → retain_intents now (some xs) ≡ (some xs, false)
unfolding retain_intents
retain_all now xs h = if_true _ _ _ h

pub retain_fewer :
    (now : ℕ) (xs : List StoredFillIntent)
    → (length (filter_by (is_retained now) xs) == length xs) ≡ false
    → retain_intents now (some xs) ≡ (some (filter_by (is_retained now) xs), true)
unfolding retain_intents
retain_fewer now xs h = if_false _ _ _ h

pub retain_none : (now : ℕ) → retain_intents now none ≡ (none, false)
unfolding retain_intents
retain_none now = refl

retain_again :
    (now : ℕ) (o : Option (List StoredFillIntent))
    → retain_intents now (retain_intents now o).0 ≡ ((retain_intents now o).0, false)
retain_again now none = rw (retain_none now, retain_none now) refl
retain_again now (some xs) =
    elim (Bool-cases (length (filter_by (is_retained now) xs) == length xs)) [
      | inl e ↦ rw (retain_all now xs e, retain_all now xs e) refl
      | inr e ↦
          let again =
            retain_all now (filter_by (is_retained now) xs)
              (rw (filter_by_idem (is_retained now) xs) (same_length _)) in
          rw (retain_fewer now xs e, again) refl
    ]

prune_fresh :
    (now : ℕ) (s : OrderStore)
    → ltb now (s.admissions_pruned_at + 60) ≡ true
    → prune_intent_admissions now s ≡ s
unfolding prune_intent_admissions
prune_fresh now s h = if_true _ _ _ h

prune_due :
    (now : ℕ) (s : OrderStore)
    → ltb now (s.admissions_pruned_at + 60) ≡ false
    → prune_intent_admissions now s ≡ record s {
      admissions_pruned_at = now;
      intent_admissions = recent_admissions now s.intent_admissions;
    }
unfolding prune_intent_admissions
prune_due now s h = if_false _ _ _ h

later : (now k : ℕ) → 0 < k → ltb now (now + k) ≡ true
later now k h = ground arith

not_later : (now k : ℕ) → ltb (now + k) now ≡ false
not_later now k = ground arith

-- What the sweep makes of an order, by its three cases.
module _ (now : ℕ) (o : Order) where
  abbrev kept : Option (List StoredFillIntent)
  kept = (retain_intents now o.fill_intents).0

  pub sweep_over :
      is_over now o ≡ true
      → sweep_order now o
        ≡ (some (record o { fill_intents = kept; status = cancelled; updated_at = now }), true)
  unfolding sweep_order
  sweep_over h = if_true _ _ _ h

  pub sweep_removed :
      is_over now o ≡ false → is_removable now o ≡ true → sweep_order now o ≡ (none, true)
  unfolding sweep_order
  sweep_removed h k = if_false _ _ _ h ∙ if_true _ _ _ k

  pub sweep_kept :
      is_over now o ≡ false
      → is_removable now o ≡ false
      → sweep_order now o
        ≡ (some (record o { fill_intents = kept }), (retain_intents now o.fill_intents).1)
  unfolding sweep_order
  sweep_kept h k = if_false _ _ _ h ∙ if_false _ _ _ k

-- An order that the sweep would leave as it is.
abbrev pub IsSwept : ℕ → Order → Type 0
IsSwept now o = sweep_order now o ≡ (some o, false)

kept-IsSwept :
    (now : ℕ) (o : Order)
    → is_over now o ≡ false
    → is_removable now o ≡ false
    → retain_intents now o.fill_intents ≡ (o.fill_intents, false)
    → IsSwept now o
kept-IsSwept now o a b r =
    sweep_kept now o a b
    ∙ ap
        (λ (k : Option (List StoredFillIntent) × Bool).
          (some (record o { fill_intents = k.0 }), k.1))
        r

never : (a b : Bool) → b ≡ false → (a && b) ≡ false
never true b h = h
never false b h = refl

cancelled_now :
    (now : ℕ) (o : Order)
    → o.status ≡ cancelled
    → o.updated_at ≡ now
    → (is_over now o ≡ false) × (is_removable now o ≡ false)
unfolding is_over is_removable
cancelled_now now o s u = (
  rw s refl,
  elim (Option-cases o.maker_auth) [
    | inl e ↦ rw (s, e, u, not_later now 3600) refl
    | inr (x, e) ↦
        rw (s, e, u) (never (ltb (x + 300) now) (ltb (now + 300) now) (not_later now 300))
  ],
)

same_over :
    (now : ℕ) (o : Order) (k : Option (List StoredFillIntent))
    → is_over now o ≡ false
    → is_over now (record o { fill_intents = k }) ≡ false
unfolding is_over
same_over now o k h = h

same_removable :
    (now : ℕ) (o : Order) (k : Option (List StoredFillIntent))
    → is_removable now o ≡ false
    → is_removable now (record o { fill_intents = k }) ≡ false
unfolding is_removable
same_removable now o k h = h

pub sweep_order-IsSwept :
    (now : ℕ) (o : Order)
    → (sweep_order now o ≡ (none, true))
      ⊎ ((p : Order) × (d : Bool) × (sweep_order now o ≡ (some p, d)) × IsSwept now p)
sweep_order-IsSwept now o = elim (Bool-cases (is_over now o)) [
  | inl e ↦
      let p = record o {
        fill_intents = (retain_intents now o.fill_intents).0;
        status = cancelled;
        updated_at = now;
      } in
      let (a, b) = cancelled_now now p refl refl in
      inr (p, true, sweep_over now o e, kept-IsSwept now p a b (retain_again now o.fill_intents))
  | inr e ↦ elim (Bool-cases (is_removable now o)) [
    | inl r ↦ inl (sweep_removed now o e r)
    | inr r ↦
        let p = record o { fill_intents = (retain_intents now o.fill_intents).0 } in
        inr (
          p,
          _,
          sweep_kept now o e r,
          kept-IsSwept now p (same_over now o _ e) (same_removable now o _ r)
              (retain_again now o.fill_intents),
        )
  ]
]

-- The sweep removes an order, cancels it, or keeps it with some of its proposals.
pub sweep_order_cases :
    (now : ℕ) (o : Order)
    → (sweep_order now o ≡ (none, true))
      ⊎ (((k : Option (List StoredFillIntent)) × (sweep_order now o
              ≡ (some (record o { fill_intents = k; status = cancelled; updated_at = now }), true)))
          ⊎ ((k : Option (List StoredFillIntent)) × (d : Bool) × (sweep_order now o
                ≡ (some (record o { fill_intents = k }), d))))
sweep_order_cases now o = elim (Bool-cases (is_over now o)) [
  | inl e ↦ inr (inl ((retain_intents now o.fill_intents).0, sweep_over now o e))
  | inr e ↦ elim (Bool-cases (is_removable now o)) [
    | inl r ↦ inl (sweep_removed now o e r)
    | inr r ↦ inr (inr ((retain_intents now o.fill_intents).0, _, sweep_kept now o e r))
  ]
]

pub is_over-false : (now : ℕ) (o : Order) → IsSwept now o → is_over now o ≡ false
is_over-false now o h = elim (Bool-cases (is_over now o)) [
  | inl e ↦
      absurd (true_ne_false (ap (λ (r : Option Order × Bool). r.1) (sym (sweep_over now o e) ∙ h)))
  | inr e ↦ e
]

abbrev Left : Type 0
Left = List Order × (List (Text × ℕ) × Bool)

pub cons_removed :
    (now : ℕ) (o : Order) (os : List Order) (seen : List (Text × ℕ))
    → sweep_order now o ≡ (none, true)
    → (sweep_orders now (o ∷ os) seen).0 ≡ (sweep_orders now os (without o.id seen)).0
unfolding sweep_orders
cons_removed now o os seen e = rw e refl

pub cons_kept :
    (now : ℕ) (o p : Order) (d : Bool) (os : List Order) (seen : List (Text × ℕ))
    → sweep_order now o ≡ (some p, d)
    → sweep_orders now (o ∷ os) seen ≡ (
      p ∷ (sweep_orders now os seen).0,
      ((sweep_orders now os seen).1.0, d || (sweep_orders now os seen).1.1),
    )
unfolding sweep_orders
cons_kept now o p d os seen e = rw e refl

pub nothing_left :
    (now : ℕ) (seen : List (Text × ℕ)) → sweep_orders now [] seen ≡ ([], (seen, false))
unfolding sweep_orders
nothing_left now seen = refl

orders_again :
    (now : ℕ) (os : List Order) (seen after : List (Text × ℕ))
    → sweep_orders now (sweep_orders now os seen).0 after
      ≡ ((sweep_orders now os seen).0, (after, false))
orders_again now [] seen after = rw (nothing_left now seen) (nothing_left now after)
orders_again now (o ∷ os) seen after = elim (sweep_order-IsSwept now o) [
  | inl e ↦ rw (cons_removed now o os seen e) (orders_again now os (without o.id seen) after)
  | inr (p, d, e, same) ↦ rw (cons_kept now o p d os seen e) (
      cons_kept now p p false (sweep_orders now os seen).0 after same
      ∙ ap (λ (l : Left). (p ∷ l.0, (l.1.0, l.1.1))) (orders_again now os seen after))
]

book_again : (now : ℕ) (t : OrderStore) → sweep_book now (sweep_book now t) ≡ sweep_book now t
unfolding sweep_book
book_again now t =
    let r = sweep_orders now t.orders t.seen_at in
    let writes = if r.1.1 then t.persists + 1 else t.persists in
    ap
      (λ (l : Left). record t {
        orders = l.0;
        seen_at = l.1.0;
        persists = if l.1.1 then writes + 1 else writes;
      })
      (orders_again now t.orders t.seen_at r.1.0)

book_keeps :
    (now : ℕ) (t : OrderStore) → (sweep_book now t).admissions_pruned_at ≡ t.admissions_pruned_at
unfolding sweep_book
book_keeps now t = refl

pruned_lately :
    (now : ℕ) (s : OrderStore)
    → ltb now ((prune_intent_admissions now s).admissions_pruned_at + 60) ≡ true
pruned_lately now s = elim (Bool-cases (ltb now (s.admissions_pruned_at + 60))) [
  | inl e ↦ rw (prune_fresh now s e) e
  | inr e ↦ rw (prune_due now s e) (later now 60 (omega arith))
]

-- A second sweep at the same time changes nothing and asks for no further write of the file: one
-- pass trims every proposal set, cancels every overdue order, removes every finished one and
-- prunes the admissions.
pub sweep_idempotent : (now : ℕ) (s : OrderStore) → sweep now (sweep now s) ≡ sweep now s
unfolding sweep
sweep_idempotent now s =
    let t = prune_intent_admissions now s in
    let still =
      prune_fresh now (sweep_book now t)
        (ap (λ p. ltb now (p + 60)) (book_keeps now t) ∙ pruned_lately now s) in
    ap (sweep_book now) still ∙ book_again now t

pub prune_orders : (now : ℕ) (s : OrderStore) → (prune_intent_admissions now s).orders ≡ s.orders
prune_orders now s = elim (Bool-cases (ltb now (s.admissions_pruned_at + 60))) [
  | inl e ↦ rw (prune_fresh now s e) refl
  | inr e ↦ rw (prune_due now s e) refl
]

book_orders :
    (now : ℕ) (t : OrderStore) → (sweep_book now t).orders ≡ (sweep_orders now t.orders t.seen_at).0
unfolding sweep_book
book_orders now t = refl

-- The orders of the swept store are those that the loop leaves.
pub orders_swept :
    (now : ℕ) (s : OrderStore)
    → (seen : List (Text × ℕ)) × ((sweep now s).orders ≡ (sweep_orders now s.orders seen).0)
unfolding sweep
orders_swept now s =
    let t = prune_intent_admissions now s in
    (
      t.seen_at,
      book_orders now t ∙ ap (λ os. (sweep_orders now os t.seen_at).0) (prune_orders now s),
    )
