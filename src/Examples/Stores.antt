-- ===== src/Examples/Stores.antt =====
-- The order book's store on concrete orders.
use quanta_swap.Prelude.{
  ◌≡◌, refl, true, false, none, some, [], ◌∷◌, codes, text_eq, All, sort_by, length,
}
use quanta_swap.Chain.{eth_to_qrl}
use quanta_swap.Server.Store.{
  StoredFillIntent, Order, OrderStore, opened, accepted, sweep, list_open, prune_intent_admissions,
  recent_admissions, retain_intents, is_over, is_removable, sweep_order, sweep_orders, sweep_book,
  is_offered, newest_first, has_runway,
}
use quanta_swap.Server.Store.Expiry.{Sweeps, sweep-Sweeps}
use quanta_swap.Server.Store.Offered.{IsOffered, list_open-AllOffered}

abbrev pub old_proposal : StoredFillIntent
old_proposal = record {
  intent_digest = codes "d1";
  taker_qrl_account = codes "Q1";
  nonce = codes "n";
  issued_at = 990000;
  expires_at = 990100;
  received_at = 990000;
  acceptor_ip_hash = codes "ip";
  release_commitment = codes "0x";
  released_at = none;
  release_secret = none;
}

abbrev pub fresh_order : Order
fresh_order = record {
  id = codes "a";
  direction = eth_to_qrl;
  asset = codes "ETH";
  from_amount = 2000;
  to_amount = 5000;
  status = opened;
  taker_eth_account = none;
  taker_qrl_account = none;
  hashlock = none;
  initiator_timeout = none;
  responder_timeout = none;
  prelocked = false;
  created_at = 999000;
  updated_at = 999000;
  is_public = true;
  share_token_hash = none;
  allowed_taker_eth = none;
  allowed_taker_qrl = none;
  maker_token_hash = codes "0a";
  taker_token_hash = none;
  acceptor_ip_hash = none;
  maker_auth = some 1000500;
  fill_intents = some (old_proposal ∷ []);
  equivocated = false;
  accepted_at = none;
  released_at = none;
  release_secret = none;
  order_digest = none;
  fill_digest = none;
  fill_commitment = none;
  selected_intent = none;
}

-- Its maker's signature has run out.
abbrev stale_order : Order
stale_order = record fresh_order { id = codes "b"; maker_auth = some 999500 }

-- Nobody locked it within the hour.
abbrev dropped_order : Order
dropped_order = record fresh_order { id = codes "c"; status = accepted; updated_at = 990000 }

abbrev pub book : OrderStore
book = record {
  presence_ttl = 90;
  orders = fresh_order ∷ stale_order ∷ dropped_order ∷ [];
  seen_at = (codes "a", 999900) ∷ [];
  intent_admissions = (codes "ip", 1 ∷ 999000 ∷ []) ∷ [];
  admissions_pruned_at = 0;
  persists = 0;
}

lists_one : length (list_open 1000000 book).1 ≡ 1
unfolding list_open sweep prune_intent_admissions recent_admissions sweep_book sweep_orders
    sweep_order retain_intents is_over is_removable is_offered newest_first has_runway sort_by
    text_eq
lists_one = refl

sweep-Sweeps_example :
    Sweeps 1000000 (fresh_order ∷ stale_order ∷ dropped_order ∷ []) (sweep 1000000 book).orders
    × (sweep 1000000 (sweep 1000000 book) ≡ sweep 1000000 book)
sweep-Sweeps_example = sweep-Sweeps 1000000 book

list_open-AllOffered_example : All (IsOffered 1000000) (list_open 1000000 book).1
list_open-AllOffered_example = list_open-AllOffered 1000000 book
