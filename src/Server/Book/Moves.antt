-- ===== src/Server/Book/Moves.antt =====
-- What a request may do to the book (server/src/store.ts): the moves of one order, with who may make
-- them and when.
use quanta_swap.Prelude.{ℕ, ◌<◌, ◌≡◌, ◌≢◌, ◌⊎◌, true, false, none, some, Text, text_eq, map, lower}
use quanta_swap.Address.{is_q_hex, is_0x_hex}
use quanta_swap.Prelude.Int.{ℤ}
use quanta_swap.Server.Wire.{Json, text, ApiError}
use quanta_swap.Server.Store.{
  opened, accepted, locking, cancelled, Order, OrderStore, SelectedIntent, has_runway,
}
use quanta_swap.Server.Tokens.{Hashes, maker_token_valid, taker_token_valid}
use quanta_swap.Server.Takes.{
  Answer, refused, shown, taken, find_order, save, taken_order, concurrent, recent, is_reserved,
  uses_portable_terminal_protocol,
}
use quanta_swap.Server.Takes.Keys.{IsDistinct}
use quanta_swap.Server.Release.{
  named_fill, named_intent, compute_release_commitment, freed_order, freed_proposal,
}
use quanta_swap.Server.Progress.{
  locked_order, relisted_order, abandoned_order, cancelled_order, equals_text, equals_number,
  responder_in_time, covers_twice, set_seen, is_hashlock,
}

-- A take: the order is open, unsigned, with time left, visible to the taker and not reserved for
-- another, and the taker's address has a free slot and a take left today.
pub record IsTake (hashes : Hashes) (now : ℕ) (ip token : Text) (s : OrderStore) (o p : Order)
    : Type 0 where
  pub eth : Text
  pub qrl : Text
  pub found : IsDistinct s.orders → find_order o.id s.orders ≡ some o
  pub still_open : o.status ≡ opened
  pub unsigned : uses_portable_terminal_protocol o ≡ false
  pub in_time : has_runway o now ≡ true
  pub free_slot : concurrent now (hashes.sha256_hex ip) s.orders < 4
  pub under_limit : recent now (hashes.sha256_hex ip) s.orders < 24
  pub eth_account : is_0x_hex 40 eth ≡ true
  pub qrl_account : is_q_hex 128 qrl ≡ true
  pub eth_allowed : is_reserved o.allowed_taker_eth eth ≡ false
  pub qrl_allowed : is_reserved o.allowed_taker_qrl qrl ≡ false
  pub result : p ≡ taken_order hashes now ip token o eth qrl

-- The announcement passes the tests of the hashlock and of the timeouts.
pub record IsAnnounced (now : ℕ) (o : Order) (hashlock : Text) (t1 t2 : ℤ) : Type 0 where
  pub well_formed : is_hashlock hashlock ≡ true
  pub same_hashlock : o.prelocked ≡ true → equals_text o.hashlock (map lower hashlock) ≡ true
  pub same_timeout : o.prelocked ≡ true → equals_number o.initiator_timeout t1 ≡ true
  pub late_enough : responder_in_time now t2 ≡ true
  pub twice : covers_twice now t1 t2 ≡ true

-- What a request shows to be let through: a bearer token, and the secret of a release.
pub record Credentials : Type 0 where
  pub token : Json
  pub secret : Json

-- A commitment of the order, with the nonce that it goes with: that of its fill, or of a proposal
-- that is stored or was selected.
abbrev pub HasCommitment : Order → (nonce commitment : Text) → Type 0
HasCommitment o nonce commitment =
    ((field : Json) × (named_fill field o ≡ some (commitment, nonce)))
    ⊎ ((digest : Text) × (i : SelectedIntent) × (named_intent digest o ≡ some i)
        × (i.nonce ≡ nonce)
        × (i.release_commitment ≡ commitment))

-- The secret that is presented opens a commitment of a signed order.
pub record IsOpened (hashes : Hashes) (presented : Credentials) (o : Order) (secret : Text)
    : Type 0 where
  pub order_digest : Text
  pub nonce : Text
  pub commitment : Text
  pub signed : uses_portable_terminal_protocol o ≡ true
  pub shown_secret : presented.secret ≡ text secret
  pub of_order : o.order_digest ≡ some order_digest
  pub committed : HasCommitment o nonce commitment
  pub opening :
      text_eq (compute_release_commitment hashes order_digest nonce secret) commitment ≡ true

-- A move of an order that was taken, or that its maker withdraws, by the token that a request
-- presents, or of a signed order by a release secret.
pub data Move (hashes : Hashes) (now : ℕ) (presented : Credentials) (o p : Order) : Type 0 where
  locks :
      (hashlock : Text) (t1 t2 : ℤ)
      → maker_token_valid hashes o presented.token ≡ true
      → o.status ≡ accepted
      → uses_portable_terminal_protocol o ≡ false
      → IsAnnounced now o hashlock t1 t2
      → p ≡ locked_order hashes now o hashlock t1 t2
      → Move hashes now presented o p
  relists :
      taker_token_valid hashes o presented.token ≡ true
      → uses_portable_terminal_protocol o ≡ false
      → o.status ≡ accepted
      → p ≡ relisted_order hashes now o
      → Move hashes now presented o p
  abandons :
      taker_token_valid hashes o presented.token ≡ true
      → uses_portable_terminal_protocol o ≡ false
      → o.status ≡ locking
      → o.released_at ≡ none
      → p ≡ abandoned_order hashes now o
      → Move hashes now presented o p
  withdraws :
      maker_token_valid hashes o presented.token ≡ true
      → o.status ≢ cancelled
      → uses_portable_terminal_protocol o ≡ false
      → p ≡ cancelled_order hashes now o
      → Move hashes now presented o p
  frees :
      (secret : Text)
      → IsOpened hashes presented o secret
      → (p ≡ freed_order now secret o)
        ⊎ ((digest : Text) × (p ≡ freed_proposal now secret digest o))
      → Move hashes now presented o p

-- What an answer does to a store.
pub data Effect (hashes : Hashes) (now : ℕ) (presented : Credentials) (s : OrderStore)
    (answer : Answer) : Type 0 where
  refuses : (e : ApiError) → answer ≡ (s, refused e) → Effect hashes now presented s answer
  repeats : (o : Order) → answer ≡ (s, shown o) → Effect hashes now presented s answer
  takes_one :
      (ip token : Text) (o p : Order)
      → IsTake hashes now ip token s o p
      → answer ≡ (save p s, taken p token)
      → Effect hashes now presented s answer
  moves :
      (o p : Order)
      → find_order o.id s.orders ≡ some o
      → Move hashes now presented o p
      → answer ≡ (save p s, shown p)
      → Effect hashes now presented s answer
  hears :
      (o : Order)
      → answer ≡ (record s { seen_at = set_seen o.id now s.seen_at }, shown o)
      → Effect hashes now presented s answer
