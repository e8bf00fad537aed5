-- ===== src/Server/Store.antt =====
-- The sweep of the order book's store and the open listing (`OrderStore` of server/src/store.ts).
-- Of an order the model keeps what these operations read or write; `maker_auth` is the expiry of
-- the maker's signature, `fill_commitment` is the
-- commitment of the signed fill, and an amount is the number that its decimal string stands for. The maps are lists of entries in their insertion order, and `persists`
-- counts the requests to write the file. Counted times never underflow: an age is compared with
-- its subtrahend moved to the other side.
pub mod Sweep
pub mod Offered
pub mod Expiry
use Prim.Native.Nat.{Ordering, compare}
use quanta_swap.Chain.{Direction}
use quanta_swap.Prelude.{
  sort_by, ℕ, ◌+◌, ◌*◌, Bool, true, false, not, ◌&&◌, ◌||◌, Option, none, some, List, [], ◌∷◌, Text,
  text_eq, ltb, leb, ◌==◌, if◌then◌else◌, is_null, on_option, filter_by, length,
}

pub data OrderStatus : Type 0 where
  opened accepted locking cancelled : OrderStatus

abbrev pub is_open : OrderStatus → Bool
is_open opened = true
is_open _ = false

pub record StoredFillIntent : Type 0 where
  pub intent_digest : Text
  pub taker_qrl_account : Text
  pub nonce : Text
  pub issued_at : ℕ
  pub expires_at : ℕ
  pub received_at : ℕ
  pub acceptor_ip_hash : Text
  pub release_commitment : Text
  pub released_at : Option ℕ
  pub release_secret : Option Text

-- Of the proposal that a fill selected, what a release reads.
pub record SelectedIntent : Type 0 where
  pub intent_digest : Text
  pub nonce : Text
  pub release_commitment : Text

pub record Order : Type 0 where
  pub id : Text
  pub direction : Direction
  pub asset : Text
  pub from_amount : ℕ
  pub to_amount : ℕ
  pub status : OrderStatus
  pub taker_eth_account : Option Text
  pub taker_qrl_account : Option Text
  pub hashlock : Option Text
  pub initiator_timeout : Option ℕ
  pub responder_timeout : Option ℕ
  pub prelocked : Bool
  pub created_at : ℕ
  pub updated_at : ℕ
  pub is_public : Bool
  pub share_token_hash : Option Text
  pub allowed_taker_eth : Option Text
  pub allowed_taker_qrl : Option Text
  pub maker_token_hash : Text
  pub taker_token_hash : Option Text
  pub acceptor_ip_hash : Option Text
  pub maker_auth : Option ℕ
  pub fill_intents : Option (List StoredFillIntent)
  pub equivocated : Bool
  pub accepted_at : Option ℕ
  pub released_at : Option ℕ
  pub release_secret : Option Text
  pub order_digest : Option Text
  pub fill_digest : Option Text
  pub fill_commitment : Option Text
  pub selected_intent : Option SelectedIntent

pub record OrderStore : Type 0 where
  pub presence_ttl : ℕ
  pub orders : List Order
  pub seen_at : List (Text × ℕ)
  pub intent_admissions : List (Text × List ℕ)
  pub admissions_pruned_at : ℕ
  pub persists : ℕ

abbrev pub open_ttl : ℕ
open_ttl = 48 * 3600

abbrev pub accepted_ttl : ℕ
accepted_ttl = 3600

abbrev pub cancelled_ttl : ℕ
cancelled_ttl = 3600

abbrev pub locking_linger : ℕ
locking_linger = 24 * 3600

abbrev pub take_window : ℕ
take_window = 24 * 3600

abbrev pub admission_prune_interval : ℕ
admission_prune_interval = 60

abbrev pub signed_terminal_grace : ℕ
signed_terminal_grace = 5 * 60

abbrev pub signed_intent_retention : ℕ
signed_intent_retention = 15 * 60 + signed_terminal_grace

abbrev pub min_takeable_runway : ℕ
min_takeable_runway = 2 * 3600 + 1800

abbrev pub defined_and {ℓ} : {A : Type ℓ} → Option A → (A → Bool) → Bool
defined_and none test = false
defined_and (some a) test = test a

-- The admissions of every source inside the window; a source with none is dropped.
unfoldable pub recent_admissions : ℕ → List (Text × List ℕ) → List (Text × List ℕ)
recent_admissions now [] = []
recent_admissions now ((ip, times) ∷ sources) =
    let rest = recent_admissions now sources in
    let recent = filter_by (λ received_at. ltb now (received_at + take_window)) times in
    if length recent == 0 then rest else (ip, recent) ∷ rest

unfoldable pub prune_intent_admissions : ℕ → OrderStore → OrderStore
unfolding recent_admissions
prune_intent_admissions now store =
    if ltb now (store.admissions_pruned_at + admission_prune_interval)
    then store
    else record store {
      admissions_pruned_at = now;
      intent_admissions = recent_admissions now store.intent_admissions;
    }

-- `intent.auth.expiresAt + SIGNED_INTENT_RETENTION_S > now`
abbrev pub is_retained : ℕ → StoredFillIntent → Bool
is_retained now intent = ltb now (intent.expires_at + signed_intent_retention)

-- The proposals that are kept, and whether some were dropped.
unfoldable pub retain_intents :
    ℕ → Option (List StoredFillIntent) → Option (List StoredFillIntent) × Bool
retain_intents now none = (none, false)
retain_intents now (some intents) =
    let retained = filter_by (is_retained now) intents in
    if length retained == length intents then (some intents, false) else (some retained, true)

unfoldable pub is_over : ℕ → Order → Bool
is_over now order = elim order.status [
  | opened ↦ ltb (order.updated_at + open_ttl) now || defined_and order.maker_auth (λ e. leb e now)
  | accepted ↦ ltb (order.updated_at + accepted_ttl) now
  | _ ↦ false
]

unfoldable pub is_removable : ℕ → Order → Bool
is_removable now order = elim order.status [
  | cancelled ↦ on_option order.maker_auth (ltb (order.updated_at + cancelled_ttl) now) (λ e.
      ltb (e + signed_terminal_grace) now && ltb (order.updated_at + signed_terminal_grace) now)
  | locking ↦ defined_and order.initiator_timeout (λ t. ltb (t + locking_linger) now)
  | _ ↦ false
]

-- What the sweep leaves of one order, and whether it changed.
unfoldable pub sweep_order : ℕ → Order → Option Order × Bool
unfolding retain_intents is_over is_removable
sweep_order now order =
    let kept = retain_intents now order.fill_intents in
    let trimmed = record order { fill_intents = kept.0 } in
    if is_over now order
    then (some (record trimmed { status = cancelled; updated_at = now }), true)
    else if is_removable now order
    then (none, true)
    else (some trimmed, kept.1)

abbrev pub without : Text → List (Text × ℕ) → List (Text × ℕ)
without id entries = filter_by (λ (e : Text × ℕ). not (text_eq e.0 id)) entries

-- The loop of `sweep`: the orders left, the entries of `seenAt` left, and whether it is dirty.
unfoldable pub sweep_orders :
    ℕ → List Order → List (Text × ℕ) → List Order × (List (Text × ℕ) × Bool)
unfolding sweep_order text_eq
sweep_orders now [] seen = ([], (seen, false))
sweep_orders now (order ∷ orders) seen =
    let swept = sweep_order now order in
    let gone = sweep_orders now orders (without order.id seen) in
    let left = sweep_orders now orders seen in
    on_option swept.0 (gone.0, (gone.1.0, true))
      (λ o. (o ∷ left.0, (left.1.0, swept.1 || left.1.1)))

-- From the loop to the end of `sweep`.
unfoldable pub sweep_book : ℕ → OrderStore → OrderStore
unfolding sweep_orders
sweep_book now store =
    let swept = sweep_orders now store.orders store.seen_at in
    record store {
      orders = swept.0;
      seen_at = swept.1.0;
      persists = if swept.1.1 then store.persists + 1 else store.persists;
    }

unfoldable pub sweep : ℕ → OrderStore → OrderStore
unfolding prune_intent_admissions sweep_book
sweep now store = sweep_book now (prune_intent_admissions now store)

-- `order.initiatorTimeout - now >= MIN_TAKEABLE_RUNWAY_S`
unfoldable pub has_runway : Order → ℕ → Bool
has_runway order now =
    not order.prelocked
    || on_option order.initiator_timeout true (λ t. leb (now + min_takeable_runway) t)

-- The two filters of `listOpen`.
unfoldable pub is_offered : ℕ → Order → Bool
unfolding has_runway
is_offered now order =
    (is_open order.status && (order.is_public && has_runway order now)) && not order.equivocated

unfoldable pub newest_first : Order → Order → Ordering
newest_first a b = compare b.created_at a.created_at

-- The store after the sweep, and the orders that are listed. The public view of an order, which
-- leaves out its secrets, is not the model's.
unfoldable pub list_open : ℕ → OrderStore → OrderStore × List Order
unfolding sweep is_offered newest_first
list_open now store =
    let swept = sweep now store in
    (swept, sort_by newest_first (filter_by (is_offered now) swept.orders))
