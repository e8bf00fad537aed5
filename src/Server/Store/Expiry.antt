-- ===== src/Server/Store/Expiry.antt =====
-- What the sweep of the order book's store (server/src/store.ts) does to each order, in the source's
-- terms: how old an order, its maker's signature and its proposals may become.
use quanta_swap.Prelude.{
  ℕ, ◌+◌, ◌≤◌, ◌<◌, ◌≡◌, refl, sym, ap, ◌∙◌, ◌⊎◌, inl, inr, Bool, true, false, ◌&&◌, ◌||◌, Option,
  none, some, List, [], ◌∷◌, if_true, if_false, suc, ltb, leb, ◌==◌, &&_parts, Text, filter_by,
  length, arith, Bool-cases, on_option, true_ne_false, ltb→lt, lt→ltb, leb→le, le→leb, ==_iff,
}
use quanta_swap.Server.Store.{
  OrderStatus, opened, accepted, locking, cancelled, StoredFillIntent, Order, OrderStore,
  is_retained, retain_intents, is_over, is_removable, sweep_orders, sweep, without, defined_and,
}
use quanta_swap.Server.Store.Sweep.{
  sweep_over, sweep_removed, sweep_kept, cons_removed, cons_kept, nothing_left, orders_swept,
  sweep_idempotent, retain_all, retain_fewer, retain_none,
}

-- Open for more than two days, or open with a maker's signature that has run out, or taken for more
-- than an hour and not locked.
abbrev pub IsOverdue : ℕ → Order → Type 0
IsOverdue now o =
    ((o.status ≡ opened)
      × ((o.updated_at + 172800 < now) ⊎ ((e : ℕ) × (o.maker_auth ≡ some e) × (e ≤ now))))
    ⊎ ((o.status ≡ accepted) × (o.updated_at + 3600 < now))

-- Cancelled for more than an hour; or, if it is signed, for more than five minutes with a signature
-- that ran out more than five minutes ago; or locking with a timeout that passed more than a day ago.
abbrev pub IsFinished : ℕ → Order → Type 0
IsFinished now o =
    ((o.status ≡ cancelled)
      × (((o.maker_auth ≡ none) × (o.updated_at + 3600 < now))
          ⊎ ((e : ℕ) × (o.maker_auth ≡ some e) × (e + 300 < now) × (o.updated_at + 300 < now))))
    ⊎ ((o.status ≡ locking) × ((t : ℕ) × (o.initiator_timeout ≡ some t) × (t + 86400 < now)))

-- Without the proposals that ran out twenty minutes ago or earlier.
abbrev pub trimmed : ℕ → Order → Order
trimmed now o = record o {
  fill_intents =
      on_option o.fill_intents none
        (λ is. some (filter_by (λ (i : StoredFillIntent). ltb now (i.expires_at + 1200)) is));
}

-- The orders before a sweep and after it, in their order.
pub data Sweeps (now : ℕ) : List Order → List Order → Type 0 where
  ends : Sweeps now [] []
  cancels :
      {o : Order} {os ps : List Order}
      → IsOverdue now o
      → Sweeps now os ps
      → Sweeps now (o ∷ os) (record (trimmed now o) { status = cancelled; updated_at = now } ∷ ps)
  removes :
      {o : Order} {os ps : List Order}
      → IsFinished now o
      → Sweeps now os ps
      → Sweeps now (o ∷ os) ps
  keeps :
      {o : Order} {os ps : List Order}
      → ¬ IsOverdue now o
      → ¬ IsFinished now o
      → Sweeps now os ps
      → Sweeps now (o ∷ os) (trimmed now o ∷ ps)

longer : (m n : ℕ) → m ≡ suc n → m ≤ n → true ≡ false
longer m n h k = ground (arith, h, k)

filter_by-shorter : {A : Type 0} (p : A → Bool) (xs : List A) → length (filter_by p xs) ≤ length xs
filter_by-shorter p [] = omega arith
filter_by-shorter p (x ∷ xs) = elim (Bool-cases (p x)) [
  | inl e ↦ let h = filter_by-shorter p xs in rw e (omega (arith, h))
  | inr e ↦ let h = filter_by-shorter p xs in rw e (omega (arith, h))
]

filter_by_whole :
    {A : Type 0} (p : A → Bool) (xs : List A)
    → length (filter_by p xs) ≡ length xs
    → filter_by p xs ≡ xs
filter_by_whole p [] h = refl
filter_by_whole p (x ∷ xs) h = elim (Bool-cases (p x)) [
  | inl e ↦
      let k = sym (ap length (if_true (p x) (x ∷ filter_by p xs) (filter_by p xs) e)) ∙ h in
      rw e (ap (λ ys. x ∷ ys) (filter_by_whole p xs (omega (arith, k))))
  | inr e ↦
      let k = sym (ap length (if_false (p x) (x ∷ filter_by p xs) (filter_by p xs) e)) ∙ h in
      let m = filter_by-shorter p xs in
      absurd (true_ne_false (longer (length (filter_by p xs)) (length xs) k m))
]

either : (a b : Bool) → (a || b) ≡ true → (a ≡ true) ⊎ (b ≡ true)
either true b h = inl refl
either false b h = inr h

opened_over :
    (now : ℕ) (u : ℕ) (auth : Option ℕ)
    → (ltb (u + 172800) now || defined_and auth (λ e. leb e now)) ≡ true
    → (u + 172800 < now) ⊎ ((e : ℕ) × (auth ≡ some e) × (e ≤ now))
opened_over now u none h = ground (arith, h)
opened_over now u (some e) h = elim (either _ _ h) [
  | inl a ↦ inl (ltb→lt _ _ a)
  | inr b ↦ inr (e, refl, leb→le _ _ b)
]

over_opened :
    (now u : ℕ) (auth : Option ℕ)
    → (u + 172800 < now) ⊎ ((e : ℕ) × (auth ≡ some e) × (e ≤ now))
    → (ltb (u + 172800) now || defined_and auth (λ e. leb e now)) ≡ true
over_opened now u auth (inl a) = rw (lt→ltb _ _ a) refl
over_opened now u auth (inr (e, f, g)) = rw (f, le→leb _ _ g) (ground arith)

finished_cancelled :
    (now u : ℕ) (auth : Option ℕ)
    → on_option auth (ltb (u + 3600) now) (λ e. ltb (e + 300) now && ltb (u + 300) now) ≡ true
    → ((auth ≡ none) × (u + 3600 < now))
      ⊎ ((e : ℕ) × (auth ≡ some e) × (e + 300 < now) × (u + 300 < now))
finished_cancelled now u none h = inl (refl, ltb→lt _ _ h)
finished_cancelled now u (some e) h =
    let (a, b) = &&_parts _ _ h in inr (e, refl, ltb→lt _ _ a, ltb→lt _ _ b)

cancelled_finished :
    (now u : ℕ) (auth : Option ℕ)
    → ((auth ≡ none) × (u + 3600 < now))
      ⊎ ((e : ℕ) × (auth ≡ some e) × (e + 300 < now) × (u + 300 < now))
    → on_option auth (ltb (u + 3600) now) (λ e. ltb (e + 300) now && ltb (u + 300) now) ≡ true
cancelled_finished now u auth (inl (f, a)) = rw (f, lt→ltb _ _ a) refl
cancelled_finished now u auth (inr (e, f, a, b)) = rw (f, lt→ltb _ _ a, lt→ltb _ _ b) refl

finished_locking :
    (now : ℕ) (t1 : Option ℕ)
    → defined_and t1 (λ t. ltb (t + 86400) now) ≡ true
    → (t : ℕ) × (t1 ≡ some t) × (t + 86400 < now)
finished_locking now none h = absurd (true_ne_false (sym h))
finished_locking now (some t) h = (t, refl, ltb→lt _ _ h)

locking_finished :
    (now : ℕ) (t1 : Option ℕ)
    → (t : ℕ) × (t1 ≡ some t) × (t + 86400 < now)
    → defined_and t1 (λ t. ltb (t + 86400) now) ≡ true
locking_finished now t1 (t, f, a) = rw (f, lt→ltb _ _ a) refl

module _ (now : ℕ) (o : Order) where
  abbrev with_status : OrderStatus → Order
  with_status c = record o { status = c }

  is_over-IsOverdue :
      (c : OrderStatus) → is_over now (with_status c) ≡ true → IsOverdue now (with_status c)
  unfolding is_over
  is_over-IsOverdue opened h = inl (refl, opened_over now o.updated_at o.maker_auth h)
  is_over-IsOverdue accepted h = inr (refl, ltb→lt _ _ h)
  is_over-IsOverdue locking h = absurd (true_ne_false (sym h))
  is_over-IsOverdue cancelled h = absurd (true_ne_false (sym h))

  IsOverdue-is_over :
      (c : OrderStatus) → IsOverdue now (with_status c) → is_over now (with_status c) ≡ true
  unfolding is_over
  IsOverdue-is_over opened (inl (s, a)) = over_opened now o.updated_at o.maker_auth a
  IsOverdue-is_over accepted (inr (s, a)) = lt→ltb _ _ a
  IsOverdue-is_over opened (inr (s, a)) = ground (arith, s)
  IsOverdue-is_over accepted (inl (s, a)) = ground (arith, s)
  IsOverdue-is_over locking (inl (s, a)) = ground (arith, s)
  IsOverdue-is_over locking (inr (s, a)) = ground (arith, s)
  IsOverdue-is_over cancelled (inl (s, a)) = ground (arith, s)
  IsOverdue-is_over cancelled (inr (s, a)) = ground (arith, s)

  is_removable-IsFinished :
      (c : OrderStatus) → is_removable now (with_status c) ≡ true → IsFinished now (with_status c)
  unfolding is_removable
  is_removable-IsFinished opened h = absurd (true_ne_false (sym h))
  is_removable-IsFinished accepted h = absurd (true_ne_false (sym h))
  is_removable-IsFinished locking h = inr (refl, finished_locking now o.initiator_timeout h)
  is_removable-IsFinished cancelled h =
      inl (refl, finished_cancelled now o.updated_at o.maker_auth h)

  IsFinished-is_removable :
      (c : OrderStatus) → IsFinished now (with_status c) → is_removable now (with_status c) ≡ true
  unfolding is_removable
  IsFinished-is_removable cancelled (inl (s, a)) =
      cancelled_finished now o.updated_at o.maker_auth a
  IsFinished-is_removable locking (inr (s, a)) = locking_finished now o.initiator_timeout a
  IsFinished-is_removable cancelled (inr (s, a)) = ground (arith, s)
  IsFinished-is_removable locking (inl (s, a)) = ground (arith, s)
  IsFinished-is_removable opened (inl (s, a)) = ground (arith, s)
  IsFinished-is_removable opened (inr (s, a)) = ground (arith, s)
  IsFinished-is_removable accepted (inl (s, a)) = ground (arith, s)
  IsFinished-is_removable accepted (inr (s, a)) = ground (arith, s)

retained-trimmed :
    (now : ℕ) (k : Option (List StoredFillIntent))
    → (retain_intents now k).0
      ≡ on_option k none
          (λ is. some (filter_by (λ (i : StoredFillIntent). ltb now (i.expires_at + 1200)) is))
retained-trimmed now none = ap (λ r. r.0) (retain_none now)
retained-trimmed now (some is) =
    elim (Bool-cases (length (filter_by (is_retained now) is) == length is)) [
      | inl e ↦
          rw (retain_all now is e)
            (ap some (sym (filter_by_whole (is_retained now) is ((==_iff _ _).0 e))))
      | inr e ↦ rw (retain_fewer now is e) refl
    ]

swept_orders :
    (now : ℕ) (os : List Order) (seen : List (Text × ℕ))
    → Sweeps now os (sweep_orders now os seen).0
swept_orders now [] seen = rw (nothing_left now seen) ends
swept_orders now (o ∷ os) seen = elim (Bool-cases (is_over now o)) [
  | inl e ↦
      rw (cons_kept now o _ true os seen (sweep_over now o e), retained-trimmed now o.fill_intents)
        (cancels (is_over-IsOverdue now o o.status e) (swept_orders now os seen))
  | inr e ↦ elim (Bool-cases (is_removable now o)) [
    | inl r ↦ rw (cons_removed now o os seen (sweep_removed now o e r)) (
        removes (is_removable-IsFinished now o o.status r)
          (swept_orders now os (without o.id seen)))
    | inr r ↦
        rw (cons_kept now o _ _ os seen (sweep_kept now o e r), retained-trimmed now o.fill_intents)
          (keeps (λ d. true_ne_false (sym (IsOverdue-is_over now o o.status d) ∙ e))
            (λ d. true_ne_false (sym (IsFinished-is_removable now o o.status d) ∙ r))
            (swept_orders now os seen))
  ]
]

-- One sweep does all that is due: every overdue order is cancelled at that time, every finished one
-- is removed, and every other one stays; the orders that are left keep their places, and lose the
-- proposals whose retention is over. A second sweep at the same time changes nothing and asks for no
-- further write of the file.
pub sweep-Sweeps :
    (now : ℕ) (s : OrderStore)
    → Sweeps now s.orders (sweep now s).orders × (sweep now (sweep now s) ≡ sweep now s)
sweep-Sweeps now s =
    let (seen, e) = orders_swept now s in
    (rw e (swept_orders now s.orders seen), sweep_idempotent now s)
