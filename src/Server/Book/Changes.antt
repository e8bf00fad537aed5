-- ===== src/Server/Book/Changes.antt =====
-- What a request leaves under each id of the order book (server/src/store.ts).
use quanta_swap.Prelude.{
  ℕ, ◌≡◌, refl, sym, ap, ◌∙◌, inl, inr, some, Text, text_eq, text_eq→eq, Bool-cases, of_some,
}
use quanta_swap.Server.Store.{Order, OrderStore}
use quanta_swap.Server.Tokens.{Hashes}
use quanta_swap.Server.Takes.{Answer, find_order, put_order}
use quanta_swap.Server.Takes.Answers.{find-put_order, find-put_order_other}
use quanta_swap.Server.Takes.Keys.{IsDistinct, put_order-IsDistinct}
use quanta_swap.Server.Book.Caps.{Move-id, saved_orders, orders_of}
use quanta_swap.Server.Book.Moves.{
  Credentials, IsTake, Move, Effect, refuses, repeats, takes_one, moves, hears,
}

-- The order is taken or moved, or it is as it was.
pub data Changes (hashes : Hashes) (now : ℕ) (shows : Credentials) (s : OrderStore) (o p : Order)
    : Type 0 where
  stays : p ≡ o → Changes hashes now shows s o p
  is_taken : (ip token : Text) → IsTake hashes now ip token s o p → Changes hashes now shows s o p
  is_moved : Move hashes now shows o p → Changes hashes now shows s o p

module _ (hashes : Hashes) (now : ℕ) (shows : Credentials) (s : OrderStore)
    (d : IsDistinct s.orders) where
  stays_found :
      (id : Text) (o : Order) (t : OrderStore)
      → t.orders ≡ s.orders
      → find_order id s.orders ≡ some o
      → (p : Order) × (find_order id t.orders ≡ some p) × Changes hashes now shows s o p
  stays_found id o t e f = (o, ap (find_order id) e ∙ f, stays refl)

  -- One order is saved: every other one stays.
  saved :
      (id : Text) (x o p : Order)
      → find_order o.id s.orders ≡ some o
      → p.id ≡ o.id
      → Changes hashes now shows s o p
      → (t : OrderStore) → t.orders ≡ put_order p s.orders
      → find_order id s.orders ≡ some x
      → (y : Order) × (find_order id t.orders ≡ some y) × Changes hashes now shows s x y
  saved id x o p f same c t e g = elim (Bool-cases (text_eq id p.id)) [
    | inl h ↦
        let is : id ≡ p.id = text_eq→eq id p.id h in
        let fp : find_order p.id s.orders ≡ some o = ap (λ k. find_order k s.orders) same ∙ f in
        let is_o : o ≡ x = of_some (sym fp ∙ sym (ap (λ k. find_order k s.orders) is) ∙ g) in
        (
          p,
          ap (find_order id) e
              ∙ ap (λ k. find_order k (put_order p s.orders)) is
              ∙ find-put_order p s.orders o fp,
          rw (sym is_o) c,
        )
    | inr h ↦ (x, ap (find_order id) e ∙ find-put_order_other id p s.orders h ∙ g, stays refl)
  ]

  -- What an effect leaves under each id.
  pub Effect-Changes :
      (a : Answer)
      → Effect hashes now shows s a
      → (id : Text) (o : Order) → find_order id s.orders ≡ some o
      → (p : Order) × (find_order id a.0.orders ≡ some p) × Changes hashes now shows s o p
  Effect-Changes a (refuses e k) id o f = stays_found id o a.0 (orders_of k) f
  Effect-Changes a (repeats x k) id o f = stays_found id o a.0 (orders_of k) f
  Effect-Changes a (hears x k) id o f = stays_found id o a.0 (orders_of k) f
  Effect-Changes a (takes_one ip token x p t k) id o f =
      saved id o x p (t.found d) (rw t.result refl) (is_taken ip token t) a.0
        (orders_of k ∙ saved_orders p s) f
  Effect-Changes a (moves x p g m k) id o f =
      saved id o x p g (Move-id hashes now shows x p m) (is_moved m) a.0
        (orders_of k ∙ saved_orders p s) f

  pub Effect-IsDistinct : (a : Answer) → Effect hashes now shows s a → IsDistinct a.0.orders
  Effect-IsDistinct a (refuses e k) = rw (orders_of k) d
  Effect-IsDistinct a (repeats x k) = rw (orders_of k) d
  Effect-IsDistinct a (hears x k) = rw (orders_of k) d
  Effect-IsDistinct a (takes_one ip token x p t k) =
      rw (orders_of k ∙ saved_orders p s) (put_order-IsDistinct p s.orders d)
  Effect-IsDistinct a (moves x p g m k) =
      rw (orders_of k ∙ saved_orders p s) (put_order-IsDistinct p s.orders d)
