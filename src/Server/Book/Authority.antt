-- ===== src/Server/Book/Authority.antt =====
-- Who may change an order of the order book (`authorized` and `release` of server/src/store.ts).
use quanta_swap.Prelude.{ℕ, ◌≡◌, refl, sym, ◌∙◌, ◌⊎◌, inl, inr, true, some, Text, of_some}
use quanta_swap.Server.Store.{opened, accepted, locking, cancelled, Order, OrderStore, sweep}
use quanta_swap.Server.Tokens.{Hashes, maker_token_valid, taker_token_valid}
use quanta_swap.Server.Takes.{Answer, find_order}
use quanta_swap.Server.Takes.Keys.{IsDistinct, sweep-IsDistinct}
use quanta_swap.Server.Book.{BookRequest, handle}
use quanta_swap.Server.Book.Moves.{
  Credentials, IsOpened, Move, Effect, locks, relists, abandons, withdraws, frees,
}
use quanta_swap.Server.Book.Effects.{credentials_of, handle-Effects}
use quanta_swap.Server.Book.Changes.{Changes, stays, is_taken, is_moved, Effect-Changes}

-- The order is as it was, it was open and is now taken, its maker's token locked or cancelled it, or
-- its taker's token relisted or released it, or a secret that opens one of its commitments freed it or
-- one of its proposals.
pub data IsEntitled (hashes : Hashes) (now : ℕ) (shows : Credentials) (o p : Order) : Type 0 where
  unchanged : p ≡ o → IsEntitled hashes now shows o p
  by_take : o.status ≡ opened → p.status ≡ accepted → IsEntitled hashes now shows o p
  by_maker :
      maker_token_valid hashes o shows.token ≡ true
      → (p.status ≡ locking) ⊎ (p.status ≡ cancelled)
      → IsEntitled hashes now shows o p
  by_taker :
      taker_token_valid hashes o shows.token ≡ true
      → (p.status ≡ opened) ⊎ ((p.status ≡ locking) × (p.released_at ≡ some now))
      → IsEntitled hashes now shows o p
  by_secret :
      (secret : Text)
      → IsOpened hashes shows o secret
      → (p.status ≡ o.status) × (p.hashlock ≡ o.hashlock)
      → IsEntitled hashes now shows o p

module _ (hashes : Hashes) (now : ℕ) (shows : Credentials) (s : OrderStore) (o p : Order) where
  Move-IsEntitled : Move hashes now shows o p → IsEntitled hashes now shows o p
  Move-IsEntitled (locks hashlock t1 t2 a b c d e) = by_maker a (inl (rw e refl))
  Move-IsEntitled (relists a u b e) = by_taker a (inl (rw e refl))
  Move-IsEntitled (abandons a u b c e) = by_taker a (inr (rw e b, rw e refl))
  Move-IsEntitled (withdraws a b c e) = by_maker a (inr (rw e refl))
  Move-IsEntitled (frees secret a (inl e)) = by_secret secret a (rw e refl, rw e refl)
  Move-IsEntitled (frees secret a (inr (digest, e))) = by_secret secret a (rw e refl, rw e refl)

  Changes-IsEntitled : Changes hashes now shows s o p → IsEntitled hashes now shows o p
  Changes-IsEntitled (stays e) = unchanged e
  Changes-IsEntitled (is_taken ip token t) = by_take t.still_open (rw t.result refl)
  Changes-IsEntitled (is_moved m) = Move-IsEntitled m

-- Between two books, the orders of one id changed by an entitled request.
abbrev pub AllEntitled : Hashes → ℕ → Credentials → OrderStore → OrderStore → Type 0
AllEntitled hashes now shows s t =
    (id : Text) (o p : Order)
    → find_order id s.orders ≡ some o
    → find_order id t.orders ≡ some p
    → IsEntitled hashes now shows o p

Effect-AllEntitled :
    (hashes : Hashes) (now : ℕ) (shows : Credentials) (s : OrderStore) (a : Answer)
    → IsDistinct s.orders
    → Effect hashes now shows s a
    → AllEntitled hashes now shows s a.0
Effect-AllEntitled hashes now shows s a d e id o p f g =
    let (q, h, c) = Effect-Changes hashes now shows s d a e id o f in
    Changes-IsEntitled hashes now shows s o p (rw (of_some (sym g ∙ h)) c)

-- What an `accept`, `take`, `announceHashlock`, `release`, `cancel` or `heartbeat` may change, in a
-- book in which no id occurs twice. An order that changes and is still there was open and is now
-- taken, or the call presents what entitles to the change: the maker's token to lock or to cancel
-- it, the taker's to relist or to release it, or, of a signed order, the secret of a commitment of
-- its fill or of one of its proposals, which leaves its status and its hashlock. The book before the
-- call is taken as it is or as the sweep of that moment leaves it.
pub handle-AllEntitled :
    (hashes : Hashes) (now : ℕ) (r : BookRequest) (s : OrderStore)
    → IsDistinct s.orders
    → AllEntitled hashes now (credentials_of r) s (handle hashes now r s).0
      ⊎ AllEntitled hashes now (credentials_of r) (sweep now s) (handle hashes now r s).0
handle-AllEntitled hashes now r s d =
    let a = handle hashes now r s in
    elim (handle-Effects hashes now s r) [
      | inl k ↦ inl (Effect-AllEntitled hashes now (credentials_of r) s a d k)
      | inr k ↦ inr (
          Effect-AllEntitled hashes now (credentials_of r) (sweep now s) a
            (sweep-IsDistinct now s d) k)
    ]
