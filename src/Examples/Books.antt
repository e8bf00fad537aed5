-- ===== src/Examples/Books.antt =====
-- The order book's requests on a concrete book.
use quanta_swap.Prelude.{
  ◌<◌, ◌≡◌, ◌⊎◌, ◌++◌, refl, true, false, none, some, [], ◌∷◌, codes, Text, replicate, arith, All,
}
use quanta_swap.Chain.{eth_to_qrl}
use quanta_swap.Server.Wire.{Json, absent, text, eth, bad_maker_token, fill_secret_mismatch}
use quanta_swap.Server.Store.{Order, OrderStore, locking, sweep}
use quanta_swap.Server.Tokens.{Hashes, share_authorized}
use quanta_swap.Server.Takes.{
  TakeBody, refused, shown, taken, accept, get, find_order, require, check, with_order, concurrent,
  recent, taken_order,
}
use quanta_swap.Server.Takes.Match.{TakeTerms, matches_terms, best_match}
use quanta_swap.Server.Takes.Best.{IsMatch, best_match-IsBetter}
use quanta_swap.Server.Takes.Rate.{IsBetter}
use quanta_swap.Server.Takes.Keys.{IsDistinct}
use quanta_swap.Server.Takes.Hidden.{hidden_as_missing}
use quanta_swap.Server.Release.{freed_order, compute_release_commitment}
use quanta_swap.Server.Book.{BookRequest, accepts, releases, cancels, handle}
use quanta_swap.Server.Book.Effects.{credentials_of}
use quanta_swap.Server.Book.Refusals.{handle-refused}
use quanta_swap.Server.Book.Caps.{IsCapped, handle-IsCapped}
use quanta_swap.Server.Book.Lifecycle.{Moves, handle-Moves}
use quanta_swap.Server.Book.Authority.{AllEntitled, handle-AllEntitled}
use quanta_swap.Examples.Stores.{fresh_order, book}

-- Functions that stand for the hashes, and change nothing.
abbrev plain_hashes : Hashes
plain_hashes = record { sha256_hex = λ s. s; sha256 = λ b. b; shake256 = λ _. [] }

abbrev offer : Order
offer = record fresh_order { id = codes "a"; maker_auth = none }

-- A worse rate for the taker.
abbrev dear_offer : Order
dear_offer = record offer { id = codes "d"; to_amount = 6000 }

abbrev secret_offer : Order
secret_offer = record offer {
  id = codes "p";
  is_public = false;
  share_token_hash = some (codes "0c");
}

abbrev offers : OrderStore
offers = record book {
  orders = dear_offer ∷ offer ∷ secret_offer ∷ [];
  seen_at = (codes "d", 1000000) ∷ (codes "a", 1000000) ∷ [];
  admissions_pruned_at = 1000000;
}

abbrev take_body : TakeBody
take_body = record {
  taker_eth_account = text (codes "0x" ++ replicate 40 b'1');
  taker_qrl_account = text (codes "Q" ++ replicate 128 b'2');
  share_token = absent;
  direction = text (codes "eth->qrl");
  asset = absent;
  max_pay = text (codes "1000000000000000");
  min_receive = text (codes "1000000000000000");
}

abbrev terms : TakeTerms
terms = record { direction = eth_to_qrl; asset = eth; max_pay = 7000; min_receive = 1000 }

abbrev take_a : BookRequest
take_a = accepts (codes "a") (codes "ip") (codes "token") take_body

takes_a :
    (handle plain_hashes 1000000 take_a offers).1
    ≡ taken
        (taken_order plain_hashes 1000000
          (codes "ip")
          (codes "token")
          (record offer { fill_intents = some [] })
          (codes "0x" ++ replicate 40 b'1')
          (codes "Q" ++ replicate 128 b'2'))
        (codes "token")
unfolding handle require check with_order
takes_a = refl

-- A signed order, its fill selected, and the release by the fill's secret.
abbrev zeros : Text
zeros = codes "0x" ++ replicate 64 b'0'

abbrev signed_order : Order
signed_order = record fresh_order {
  id = codes "s";
  status = locking;
  maker_auth = some 1000500;
  order_digest = some zeros;
  fill_digest = some zeros;
  fill_commitment = some (compute_release_commitment plain_hashes zeros zeros zeros);
  selected_intent =
      some (record { intent_digest = codes "d9"; nonce = zeros; release_commitment = codes "0x" });
}

abbrev signed_book : OrderStore
signed_book = record offers { orders = signed_order ∷ [] }

abbrev release_signed : Json → BookRequest
release_signed secret = releases (codes "s") (record {
  token = absent;
  fill_digest = text zeros;
  intent_digest = absent;
  release_secret = secret;
  share_token = absent;
  has_others = false;
})

frees_signed :
    (handle plain_hashes 1000000 (release_signed (text zeros)) signed_book).1
    ≡ shown (freed_order 1000000 zeros (record signed_order { fill_intents = some [] }))
unfolding handle require check with_order compute_release_commitment
frees_signed = refl

refuses_other_secret :
    (handle plain_hashes 1000000
      (release_signed (text (codes "0x" ++ replicate 64 b'1')))
      signed_book).1
    ≡ refused fill_secret_mismatch
unfolding handle require check with_order compute_release_commitment
refuses_other_secret = refl

picks_a : best_match offers 1000000 terms ≡ some offer
unfolding best_match
picks_a = refl

All-priced_offers : All (λ (o : Order). 0 < o.to_amount) offers.orders
All-priced_offers = (omega arith, (omega arith, (omega arith, tt)))

IsDistinct-offers : IsDistinct offers.orders
unfolding find_order
IsDistinct-offers = (refl, (refl, (refl, tt)))

IsCapped-offers : IsCapped 1000000 offers
unfolding concurrent recent
IsCapped-offers = record { slots = λ ip. omega arith; takes = λ ip. omega arith }

refuses_cancel :
    (handle plain_hashes 1000000 (cancels (codes "a") (text (codes "0b"))) offers).1
    ≡ refused bad_maker_token
unfolding handle require check with_order
refuses_cancel = refl

handle-refused_example :
    ((handle plain_hashes 1000000 (cancels (codes "a") (text (codes "0b"))) offers).0 ≡ offers)
    ⊎ ((handle plain_hashes 1000000 (cancels (codes "a") (text (codes "0b"))) offers).0
        ≡ sweep 1000000 offers)
handle-refused_example =
    handle-refused plain_hashes 1000000 (cancels (codes "a") (text (codes "0b"))) offers
      bad_maker_token refuses_cancel

handle-IsCapped_example : IsCapped 1000000 (handle plain_hashes 1000000 take_a offers).0
handle-IsCapped_example =
    handle-IsCapped plain_hashes 1000000 1000000 take_a offers (omega arith) IsCapped-offers

handle-Moves_example :
    (Moves 1000000 offers (handle plain_hashes 1000000 take_a offers).0
      ⊎ Moves 1000000 (sweep 1000000 offers) (handle plain_hashes 1000000 take_a offers).0)
    × IsDistinct (handle plain_hashes 1000000 take_a offers).0.orders
handle-Moves_example = handle-Moves plain_hashes 1000000 take_a offers IsDistinct-offers

handle-AllEntitled_example :
    AllEntitled plain_hashes 1000000
      (credentials_of take_a)
      offers
      (handle plain_hashes 1000000 take_a offers).0
    ⊎ AllEntitled plain_hashes 1000000
        (credentials_of take_a)
        (sweep 1000000 offers)
        (handle plain_hashes 1000000 take_a offers).0
handle-AllEntitled_example = handle-AllEntitled plain_hashes 1000000 take_a offers IsDistinct-offers

best_match-IsBetter_example :
    ((o : Order)
      → best_match offers 1000000 terms ≡ some o
      → IsMatch offers 1000000 terms o
        × All (λ x. matches_terms offers 1000000 terms x ≡ true → IsBetter o x) offers.orders)
    × (best_match offers 1000000 terms ≡ none
        → All (λ x. matches_terms offers 1000000 terms x ≡ false) offers.orders)
best_match-IsBetter_example = best_match-IsBetter offers 1000000 terms All-priced_offers

abbrev secret_swept : Order
secret_swept = record secret_offer { fill_intents = some [] }

finds_secret : find_order (codes "p") (sweep 1000000 offers).orders ≡ some secret_swept
unfolding find_order sweep
finds_secret = refl

finds_nothing : find_order (codes "q") (sweep 1000000 offers).orders ≡ none
unfolding find_order sweep
finds_nothing = refl

not_shared : share_authorized plain_hashes secret_swept absent ≡ false
unfolding share_authorized
not_shared = refl

wrong_share : share_authorized plain_hashes secret_swept (text (codes "0d")) ≡ false
unfolding share_authorized
wrong_share = refl

hidden_as_missing_example :
    (accept plain_hashes 1000000 (codes "ip") (codes "token") take_body (codes "p") offers
      ≡ accept plain_hashes 1000000 (codes "ip") (codes "token") take_body (codes "q") offers)
    × (get plain_hashes 1000000 (codes "p") (text (codes "0d")) offers
        ≡ get plain_hashes 1000000 (codes "q") (text (codes "0d")) offers)
hidden_as_missing_example =
    hidden_as_missing plain_hashes 1000000 (codes "ip") (codes "token") (codes "p") (codes "q")
      take_body (text (codes "0d")) offers secret_swept finds_secret refl finds_nothing not_shared
      wrong_share
