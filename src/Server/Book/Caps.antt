-- ===== src/Server/Book/Caps.antt =====
-- The caps on the takes of one address (`commitTake` of server/src/store.ts).
use quanta_swap.Prelude.{
  ℕ, ◌≤◌, ◌<◌, ◌≡◌, refl, sym, ap, ◌∙◌, inl, inr, Bool, true, false, ◌&&◌, some, List, Text,
  text_eq, text_eq→eq, arith,
}
use quanta_swap.Server.Store.{Order, OrderStore, sweep}
use quanta_swap.Server.Tokens.{Hashes}
use quanta_swap.Server.Takes.{
  Answer, is_mine, in_progress, concurrent, recent, locking_slot_active, save, find_order,
  put_order,
}
use quanta_swap.Server.Takes.Answers.{count, count-put_order, count-put_order_found}
use quanta_swap.Server.Book.{BookRequest, handle}
use quanta_swap.Server.Book.Moves.{
  Credentials, IsTake, Move, Effect, locks, relists, abandons, withdraws, frees, refuses, repeats,
  takes_one, moves, hears,
}
use quanta_swap.Server.Book.Effects.{credentials_of, handle-Effects}
use quanta_swap.Server.Book.Counts.{
  has_slot, is_counted, concurrent-count, recent-count, slot_earlier, recent_earlier, swept_slot,
  count_mono, count-sweep,
}

-- No address has more than four takes in progress, or more than 24 in a day.
pub record IsCapped (now : ℕ) (s : OrderStore) : Type 0 where
  pub slots : (ip : Text) → concurrent now ip s.orders ≤ 4
  pub takes : (ip : Text) → recent now ip s.orders ≤ 24

as_counts :
    (now : ℕ) (os : List Order) (t : OrderStore)
    → IsCapped now t
    → ((ip : Text) → count (has_slot now ip) os ≤ count (has_slot now ip) t.orders)
    → ((ip : Text) → count (is_counted now ip) os ≤ count (is_counted now ip) t.orders)
    → (u : OrderStore) → u.orders ≡ os
    → IsCapped now u
as_counts now os t h a b u e = record {
  slots = λ ip.
      let k = h.slots ip in
      let m = a ip in
      rw (e, concurrent-count now ip os) (omega (arith, m, concurrent-count now ip t.orders, k));
  takes = λ ip.
      let k = h.takes ip in
      let m = b ip in
      rw (e, recent-count now ip os) (omega (arith, m, recent-count now ip t.orders, k));
}

also : (m a b : Bool) → (m && a) ≡ true → (a ≡ true → b ≡ true) → (m && b) ≡ true
also m a b h k = ground (arith, h, k)

-- Time passes, and the sweep runs.
later-IsCapped : (now later : ℕ) (s : OrderStore) → now ≤ later → IsCapped now s → IsCapped later s
later-IsCapped now later s h c = record {
  slots = λ ip.
      let k = c.slots ip in
      let a = concurrent-count now ip s.orders in
      let b = concurrent-count later ip s.orders in
      let m =
        count_mono (has_slot later ip) (has_slot now ip) s.orders
          (λ o e. also (is_mine ip o) _ _ e (slot_earlier now later o h)) in
      omega (arith, k, a, b, m);
  takes = λ ip.
      let k = c.takes ip in
      let a = recent-count now ip s.orders in
      let b = recent-count later ip s.orders in
      let m =
        count_mono (is_counted later ip) (is_counted now ip) s.orders
          (λ o e. also (is_mine ip o) _ _ e (recent_earlier now later o h)) in
      omega (arith, k, a, b, m);
}

sweep-IsCapped : (now : ℕ) (s : OrderStore) → IsCapped now s → IsCapped now (sweep now s)
sweep-IsCapped now s c =
    as_counts now (sweep now s).orders s c
      (λ ip. count-sweep (has_slot now ip) now (λ o p d e. (swept_slot now now ip o p d e).0) s)
      (λ ip. count-sweep (is_counted now ip) now (λ o p d e. (swept_slot now now ip o p d e).1) s)
      (sweep now s) refl

-- A move gives nobody another slot or another take of today.
Move-slot :
    (hashes : Hashes) (now : ℕ) (token : Credentials) (ip : Text) (o p : Order)
    → Move hashes now token o p
    → (has_slot now ip p ≡ true → has_slot now ip o ≡ true)
      × (is_counted now ip p ≡ true → is_counted now ip o ≡ true)
unfolding in_progress locking_slot_active
Move-slot hashes now token ip o p (locks hashlock t1 t2 a b c d e) =
    rw e (λ h. ground (arith, h, b), λ h. h)
Move-slot hashes now token ip o p (relists a u b e) =
    rw e (λ h. ground (arith, h), λ h. ground (arith, h))
Move-slot hashes now token ip o p (abandons a u b c e) = rw e (λ h. ground (arith, h), λ h. h)
Move-slot hashes now token ip o p (withdraws a b c e) = rw e (λ h. ground (arith, h), λ h. h)
Move-slot hashes now token ip o p (frees secret a (inl e)) = rw e (λ h. ground (arith, h), λ h. h)
Move-slot hashes now token ip o p (frees secret a (inr (digest, e))) =
    rw e (λ h. ground (arith, h), λ h. h)

pub Move-id :
    (hashes : Hashes) (now : ℕ) (token : Credentials) (o p : Order)
    → Move hashes now token o p
    → p.id ≡ o.id
Move-id hashes now token o p (locks hashlock t1 t2 a b c d e) = rw e refl
Move-id hashes now token o p (relists a u b e) = rw e refl
Move-id hashes now token o p (abandons a u b c e) = rw e refl
Move-id hashes now token o p (withdraws a b c e) = rw e refl
Move-id hashes now token o p (frees secret a (inl e)) = rw e refl
Move-id hashes now token o p (frees secret a (inr (digest, e))) = rw e refl

pub saved_orders : (p : Order) (s : OrderStore) → (save p s).orders ≡ put_order p s.orders
unfolding save
saved_orders p s = refl

Move-IsCapped :
    (hashes : Hashes) (now : ℕ) (token : Credentials) (s : OrderStore) (o p : Order)
    → find_order o.id s.orders ≡ some o
    → Move hashes now token o p
    → IsCapped now s
    → IsCapped now (save p s)
Move-IsCapped hashes now token s o p f m c =
    let g = ap (λ k. find_order k s.orders) (Move-id hashes now token o p m) ∙ f in
    as_counts now (put_order p s.orders) s c
      (λ ip.
        count-put_order_found (has_slot now ip) p o s.orders g
          (Move-slot hashes now token ip o p m).0)
      (λ ip.
        count-put_order_found (is_counted now ip) p o s.orders g
          (Move-slot hashes now token ip o p m).1)
      (save p s) (saved_orders p s)

-- The order that was taken counts for its taker, and for nobody else.
not_mine : (m a : Bool) → m ≡ false → (m && a) ≡ false
not_mine m a h = ground (arith, h)

one_more :
    (q : Order → Bool) (p : Order) (os : List Order) (n : ℕ) (mine : Bool)
    → (mine ≡ false → q p ≡ false)
    → (mine ≡ true → count q os < n)
    → count q os ≤ n
    → count q (put_order p os) ≤ n
one_more q p os n true a b h =
    let (c, d) = count-put_order q p os in let e = b refl in omega (arith, c, e)
one_more q p os n false a b h =
    let (c, d) = count-put_order q p os in let e = d (a refl) in omega (arith, e, h)

taken_mine :
    (hashes : Hashes) (now : ℕ) (ip token : Text) (s : OrderStore) (o p : Order) (other : Text)
    → IsTake hashes now ip token s o p
    → is_mine other p ≡ text_eq other (hashes.sha256_hex ip)
taken_mine hashes now ip token s o p other t = rw t.result refl

taken-IsCapped :
    (hashes : Hashes) (now : ℕ) (ip token : Text) (s : OrderStore) (o p : Order)
    → IsTake hashes now ip token s o p
    → IsCapped now s
    → IsCapped now (save p s)
taken-IsCapped hashes now ip token s o p t c =
    let me = hashes.sha256_hex ip in
    record {
      slots = λ other.
          rw (saved_orders p s, concurrent-count now other (put_order p s.orders))
            (one_more (has_slot now other) p s.orders 4 (text_eq other me)
              (λ e. not_mine _ _ (taken_mine hashes now ip token s o p other t ∙ e))
              (λ e.
                rw (sym (concurrent-count now other s.orders), text_eq→eq other me e) t.free_slot)
              (rw (sym (concurrent-count now other s.orders)) (c.slots other)));
      takes = λ other.
          rw (saved_orders p s, recent-count now other (put_order p s.orders))
            (one_more (is_counted now other) p s.orders 24 (text_eq other me)
              (λ e. not_mine _ _ (taken_mine hashes now ip token s o p other t ∙ e))
              (λ e. rw (sym (recent-count now other s.orders), text_eq→eq other me e) t.under_limit)
              (rw (sym (recent-count now other s.orders)) (c.takes other)));
    }

same_orders : (now : ℕ) (s t : OrderStore) → t.orders ≡ s.orders → IsCapped now s → IsCapped now t
same_orders now s t e c = record {
  slots = λ ip. rw e (c.slots ip);
  takes = λ ip. rw e (c.takes ip);
}

pub orders_of : {a b : Answer} → a ≡ b → a.0.orders ≡ b.0.orders
orders_of h = ap (λ (x : Answer). x.0.orders) h

Effect-IsCapped :
    (hashes : Hashes) (now : ℕ) (shows : Credentials) (s : OrderStore) (a : Answer)
    → Effect hashes now shows s a
    → IsCapped now s
    → IsCapped now a.0
Effect-IsCapped hashes now shows s a (refuses e k) c = same_orders now s a.0 (orders_of k) c
Effect-IsCapped hashes now shows s a (repeats o k) c = same_orders now s a.0 (orders_of k) c
Effect-IsCapped hashes now shows s a (hears o k) c = same_orders now s a.0 (orders_of k) c
Effect-IsCapped hashes now shows s a (takes_one ip token o p t k) c =
    same_orders now (save p s) a.0 (orders_of k) (taken-IsCapped hashes now ip token s o p t c)
Effect-IsCapped hashes now shows s a (moves o p f m k) c =
    same_orders now (save p s) a.0 (orders_of k) (Move-IsCapped hashes now shows s o p f m c)

-- The caps on takes: if no address has more than four takes in progress or more than 24 takes within
-- a day, the same is true after any `accept`, `take`, `announceHashlock`, `release`, `cancel` or
-- `heartbeat` that comes at that time or later, whether it is refused or not.
pub handle-IsCapped :
    (hashes : Hashes) (now later : ℕ) (r : BookRequest) (s : OrderStore)
    → now ≤ later
    → IsCapped now s
    → IsCapped later (handle hashes later r s).0
handle-IsCapped hashes now later r s h c =
    let d = later-IsCapped now later s h c in
    elim (handle-Effects hashes later s r) [
      | inl k ↦ Effect-IsCapped hashes later (credentials_of r) s (handle hashes later r s) k d
      | inr k ↦
          Effect-IsCapped hashes later (credentials_of r) (sweep later s) (handle hashes later r s)
            k (sweep-IsCapped later s d)
    ]
