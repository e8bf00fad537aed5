-- ===== src/Server/Book/Lifecycle.antt =====
-- How the status of an order moves in the order book (server/src/store.ts).
use quanta_swap.Prelude.{ℕ, ◌≡◌, refl, ◌⊎◌, inl, inr, true, some, Text, arith}
use quanta_swap.Server.Store.{
  OrderStatus, opened, accepted, locking, cancelled, Order, OrderStore, sweep,
}
use quanta_swap.Server.Tokens.{Hashes}
use quanta_swap.Server.Takes.{Answer, find_order}
use quanta_swap.Server.Takes.Keys.{IsDistinct, sweep-IsDistinct}
use quanta_swap.Server.Book.{BookRequest, handle}
use quanta_swap.Server.Book.Moves.{
  Credentials, IsTake, Move, Effect, locks, relists, abandons, withdraws, frees,
}
use quanta_swap.Server.Progress.Window.{
  IsCovered, locked_order-IsCovered, equals_text-some, equals_number-some,
}
use quanta_swap.Server.Book.Effects.{credentials_of, handle-Effects}
use quanta_swap.Server.Book.Changes.{
  Changes, stays, is_taken, is_moved, Effect-Changes, Effect-IsDistinct,
}

-- The steps of an order's status.
pub data Follows : OrderStatus → OrderStatus → Type 0 where
  same : (c : OrderStatus) → Follows c c
  take : Follows opened accepted
  lock : Follows accepted locking
  relist : Follows accepted opened
  withdraw : (c : OrderStatus) → Follows c cancelled

-- The order keeps its terms, its maker and, if it is pre-funded, its hashlock and timeout, its
-- status makes one step, and a hashlock is announced only with timeouts that cover the swap.
pub record IsNext (now : ℕ) (o p : Order) : Type 0 where
  pub status : Follows o.status p.status
  pub pair : (p.direction ≡ o.direction) × (p.asset ≡ o.asset)
  pub amounts : (p.from_amount ≡ o.from_amount) × (p.to_amount ≡ o.to_amount)
  pub maker : p.maker_token_hash ≡ o.maker_token_hash
  pub visible : p.is_public ≡ o.is_public
  pub kept_lock :
      o.prelocked ≡ true → (p.hashlock ≡ o.hashlock) × (p.initiator_timeout ≡ o.initiator_timeout)
  pub covered : o.status ≡ accepted → p.status ≡ locking → IsCovered now p

status_ne : {c : OrderStatus} {A : Type 0} → c ≡ accepted → c ≡ locking → A
status_ne h k = ground (arith, h, k)

other_status : {c : OrderStatus} {A : Type 0} → c ≡ opened → c ≡ accepted → A
other_status h k = ground (arith, h, k)

gone_status : {c : OrderStatus} {A : Type 0} → c ≡ cancelled → c ≡ locking → A
gone_status h k = ground (arith, h, k)

open_ne : {c : OrderStatus} {A : Type 0} → c ≡ opened → c ≡ locking → A
open_ne h k = ground (arith, h, k)

-- The step of a status, from equations for its ends.
step_of : (c d e f : OrderStatus) → c ≡ e → d ≡ f → Follows e f → Follows c d
step_of c d e f h k s = rw (h, k) s

module _ (hashes : Hashes) (now : ℕ) (shows : Credentials) (s : OrderStore) (o : Order) where
  taken-IsNext : (ip token : Text) (p : Order) → IsTake hashes now ip token s o p → IsNext now o p
  taken-IsNext ip token p t = rw t.result (record {
    status = step_of o.status accepted opened accepted t.still_open refl take;
    pair = (refl, refl);
    amounts = (refl, refl);
    maker = refl;
    visible = refl;
    kept_lock = λ _. (refl, refl);
    covered = λ a _. other_status t.still_open a;
  })

  Move-IsNext : (p : Order) → Move hashes now shows o p → IsNext now o p
  Move-IsNext p (locks hashlock t1 t2 a b c d e) = rw e (record {
    status = step_of o.status locking accepted locking b refl lock;
    pair = (refl, refl);
    amounts = (refl, refl);
    maker = refl;
    visible = refl;
    kept_lock = λ l. (
      equals_text-some o.hashlock _ (d.same_hashlock l),
      equals_number-some o.initiator_timeout t1 (d.same_timeout l),
    );
    covered = λ _ _.
        locked_order-IsCovered hashes now o hashlock t1 t2 d.well_formed d.late_enough d.twice;
  })
  Move-IsNext p (relists a u b e) = rw e (record {
    status = step_of o.status opened accepted opened b refl relist;
    pair = (refl, refl);
    amounts = (refl, refl);
    maker = refl;
    visible = refl;
    kept_lock = λ _. (refl, refl);
    covered = λ _ k. open_ne refl k;
  })
  Move-IsNext p (abandons a u b c e) = rw e (record {
    status = same o.status;
    pair = (refl, refl);
    amounts = (refl, refl);
    maker = refl;
    visible = refl;
    kept_lock = λ _. (refl, refl);
    covered = λ k _. status_ne k b;
  })
  Move-IsNext p (withdraws a b c e) = rw e (record {
    status = withdraw o.status;
    pair = (refl, refl);
    amounts = (refl, refl);
    maker = refl;
    visible = refl;
    kept_lock = λ _. (refl, refl);
    covered = λ _ k. gone_status refl k;
  })
  Move-IsNext p (frees secret a (inl e)) = rw e (record {
    status = same o.status;
    pair = (refl, refl);
    amounts = (refl, refl);
    maker = refl;
    visible = refl;
    kept_lock = λ _. (refl, refl);
    covered = λ k l. status_ne k l;
  })
  Move-IsNext p (frees secret a (inr (digest, e))) = rw e (record {
    status = same o.status;
    pair = (refl, refl);
    amounts = (refl, refl);
    maker = refl;
    visible = refl;
    kept_lock = λ _. (refl, refl);
    covered = λ k l. status_ne k l;
  })

  Changes-IsNext : (p : Order) → Changes hashes now shows s o p → IsNext now o p
  Changes-IsNext p (stays e) = rw e (record {
    status = same o.status;
    pair = (refl, refl);
    amounts = (refl, refl);
    maker = refl;
    visible = refl;
    kept_lock = λ _. (refl, refl);
    covered = λ a k. status_ne a k;
  })
  Changes-IsNext p (is_taken ip token t) = taken-IsNext ip token p t
  Changes-IsNext p (is_moved m) = Move-IsNext p m

-- A request moves the orders of a book along.
abbrev pub Moves : ℕ → OrderStore → OrderStore → Type 0
Moves now s t =
    (id : Text) (o : Order)
    → find_order id s.orders ≡ some o
    → (p : Order) × (find_order id t.orders ≡ some p) × IsNext now o p

Effect-Moves :
    (hashes : Hashes) (now : ℕ) (shows : Credentials) (s : OrderStore) (a : Answer)
    → IsDistinct s.orders
    → Effect hashes now shows s a
    → Moves now s a.0
Effect-Moves hashes now shows s a d e id o f =
    let (p, g, c) = Effect-Changes hashes now shows s d a e id o f in
    (p, g, Changes-IsNext hashes now shows s o p c)

-- An `accept`, `take`, `announceHashlock`, `release`, `cancel` or `heartbeat` loses no order and
-- changes no order's terms: of a book in which no id occurs twice, as it is or as the sweep of that
-- moment leaves it, every order is still there after the call, with its pair, its amounts, its
-- maker and, if it is pre-funded, its hashlock and timeout, and its status has made one step of the
-- life of an order (taken, locked, relisted or withdrawn) or none. One that is accepted becomes
-- locking only with timeouts that cover the swap. No id occurs twice afterwards.
pub handle-Moves :
    (hashes : Hashes) (now : ℕ) (r : BookRequest) (s : OrderStore)
    → IsDistinct s.orders
    → (Moves now s (handle hashes now r s).0 ⊎ Moves now (sweep now s) (handle hashes now r s).0)
      × IsDistinct (handle hashes now r s).0.orders
handle-Moves hashes now r s d =
    let a = handle hashes now r s in
    let e = sweep-IsDistinct now s d in
    elim (handle-Effects hashes now s r) [
      | inl k ↦ (
        inl (Effect-Moves hashes now (credentials_of r) s a d k),
        Effect-IsDistinct hashes now (credentials_of r) s d a k,
      )
      | inr k ↦ (
        inr (Effect-Moves hashes now (credentials_of r) (sweep now s) a e k),
        Effect-IsDistinct hashes now (credentials_of r) (sweep now s) e a k,
      )
    ]
