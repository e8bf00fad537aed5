-- ===== src/Server/Takes/Hidden.antt =====
-- Private orders of the order book (`accept` and `get` of server/src/store.ts).
use quanta_swap.Prelude.{
  ℕ, ◌≡◌, refl, sym, ap, ◌∙◌, Bool, false, ◌||◌, none, some, Text, if_false, arith,
}
use quanta_swap.Server.Wire.{Json, ApiError, order_not_found, needs_qip55}
use quanta_swap.Server.Store.{Order, OrderStore, sweep}
use quanta_swap.Server.Tokens.{Hashes, share_authorized}
use quanta_swap.Server.Takes.{
  Answer, refused, TakeBody, require, with_order, find_order, accept, accept_swept, get,
  is_legacy_input,
}

refusal :
    (ok : Bool) (e : ApiError) (s : OrderStore) (rest : Answer)
    → ok ≡ false
    → require ok e s rest ≡ (s, refused e)
unfolding require
refusal ok e s rest h = if_false _ _ _ h

found_as :
    (id : Text) (s : OrderStore) (rest : Order → Answer) (o : Order)
    → find_order id s.orders ≡ some o
    → with_order id s rest ≡ rest o
unfolding with_order
found_as id s rest o h = rw h refl

not_found :
    (id : Text) (s : OrderStore) (rest : Order → Answer)
    → find_order id s.orders ≡ none
    → with_order id s rest ≡ (s, refused order_not_found)
unfolding with_order
not_found id s rest h = rw h refl

neither : (a b : Bool) → a ≡ false → b ≡ false → (a || b) ≡ false
neither a b h k = ground arith

module _ (hashes : Hashes) (now : ℕ) (id other : Text) (o : Order) (s : OrderStore)
    (here : find_order id s.orders ≡ some o) (private : o.is_public ≡ false)
    (missing : find_order other s.orders ≡ none) where
  accept_swept_hidden :
      (ip token : Text) (body : TakeBody)
      → share_authorized hashes o body.share_token ≡ false
      → accept_swept hashes now ip token body id s ≡ accept_swept hashes now ip token body other s
  unfolding accept_swept
  accept_swept_hidden ip token body h =
      found_as id s _ o here
      ∙ refusal _ _ _ _ (neither o.is_public _ private h)
      ∙ sym (not_found other s _ missing)

-- A private order is not told from one that does not exist: without its share token `get` and
-- `accept` answer for its id as they do for an id that the book does not have, and leave the same
-- store.
pub hidden_as_missing :
    (hashes : Hashes) (now : ℕ) (ip token id other : Text) (body : TakeBody) (share : Json)
    (s : OrderStore) (o : Order)
    → find_order id (sweep now s).orders ≡ some o
    → o.is_public ≡ false
    → find_order other (sweep now s).orders ≡ none
    → share_authorized hashes o body.share_token ≡ false
    → share_authorized hashes o share ≡ false
    → (accept hashes now ip token body id s ≡ accept hashes now ip token body other s)
      × (get hashes now id share s ≡ get hashes now other share s)
unfolding accept get
hidden_as_missing hashes now ip token id other body share s o here private missing h k = (
  ap (require (is_legacy_input hashes now ip token body body.taker_qrl_account) needs_qip55 s) (
      accept_swept_hidden hashes now id other o (sweep now s) here private missing ip token body h),
  found_as id (sweep now s) _ o here
      ∙ refusal _ _ _ _ (neither o.is_public _ private k)
      ∙ sym (not_found other (sweep now s) _ missing),
)
