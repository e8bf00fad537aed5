-- ===== src/Server/Release.antt =====
-- The release of a signed order's fill or proposal by its secret (`releasePortable` of
-- server/src/store.ts, called with `federated` false). The digest and the nonces of a stored order
-- were tested when they were stored, so that `computeReleaseCommitment` does not throw.
use quanta_swap.Prelude.{
  ℕ, Bool, true, false, not, ◌&&◌, ◌||◌, Option, none, some, List, [], ◌∷◌, ◌++◌, Text, codes,
  text_eq, ◌==◌, if◌then◌else◌, is_null, on_option, all, length,
}
use quanta_swap.Server.Wire.{
  Json, absent, text, integer, other, order_not_found, ambiguous_release, unexpected_fields,
  bad_release_secret, not_portable, no_fill, fill_secret_mismatch, bad_intent_digest, no_intent,
  intent_secret_mismatch,
}
use quanta_swap.Server.Store.{StoredFillIntent, SelectedIntent, Order, OrderStore, defined_and}
use quanta_swap.Server.Tokens.{Hashes, hex_bytes, to_hex, slice_2, is_lower_hex, share_authorized}
use quanta_swap.Server.Takes.{Answer, refused, shown, require, save}

-- The fields that a release may have; `has_others` says that the body has another one.
pub record ReleaseBody : Type 0 where
  pub token : Json
  pub fill_digest : Json
  pub intent_digest : Json
  pub release_secret : Json
  pub share_token : Json
  pub has_others : Bool

abbrev pub is_present : Json → Bool
is_present absent = false
is_present (text _) = true
is_present (integer _) = true
is_present other = true

-- `/^0x[0-9a-f]{64}$/`
unfoldable pub is_bytes32 : Text → Bool
is_bytes32 [] = false
is_bytes32 (_ ∷ []) = false
is_bytes32 (z ∷ x ∷ body) = z == b'0' && (x == b'x' && (length body == 64 && all is_lower_hex body))

-- A field that is a string of this form.
unfoldable pub as_bytes32 : Json → Option Text
unfolding is_bytes32
as_bytes32 (text raw) = if is_bytes32 raw then some raw else none
as_bytes32 absent = none
as_bytes32 (integer _) = none
as_bytes32 other = none

-- `exactPayload`, after the test that the body names one of the two digests.
unfoldable pub has_exact_fields : Order → ReleaseBody → Bool
has_exact_fields order body =
    not (is_present body.token)
    && (not body.has_others
        && (is_present body.release_secret
            && (if order.is_public
                then not (is_present body.share_token)
                else is_present body.share_token)))

abbrev pub release_prefix : Text
release_prefix = codes "QuantaSwap ReleaseV2" ++ 0 ∷ []

unfoldable pub find_by_digest : Text → List StoredFillIntent → Option StoredFillIntent
unfolding text_eq
find_by_digest digest [] = none
find_by_digest digest (i ∷ is) =
    let rest = find_by_digest digest is in if text_eq i.intent_digest digest then some i else rest

abbrev pub stored_of : Text → Order → Option StoredFillIntent
stored_of digest order = on_option order.fill_intents none (find_by_digest digest)

-- The selected proposal has this digest.
unfoldable pub is_selected : Text → Order → Bool
unfolding text_eq
is_selected digest order = defined_and order.selected_intent (λ i. text_eq i.intent_digest digest)

-- The part of a stored proposal that a release reads.
abbrev pub as_selected : StoredFillIntent → SelectedIntent
as_selected i = record {
  intent_digest = i.intent_digest;
  nonce = i.nonce;
  release_commitment = i.release_commitment;
}

-- `storedIntent ?? selectedIntent`
unfoldable pub named_intent : Text → Order → Option SelectedIntent
unfolding find_by_digest is_selected
named_intent digest order =
    on_option (stored_of digest order)
      (if is_selected digest order then order.selected_intent else none) (λ i. some (as_selected i))

-- The commitment of the fill that the body names, with the nonce of the selected proposal.
unfoldable pub named_fill : Json → Order → Option (Text × Text)
unfolding as_bytes32 text_eq
named_fill field order = on_option (as_bytes32 field) none (λ digest.
    on_option order.fill_digest none (λ stored.
      if text_eq stored digest
      then on_option order.fill_commitment none
          (λ commitment. on_option order.selected_intent none (λ i. some (commitment, i.nonce)))
      else none))

unfoldable pub is_released_with : Text → Option Text → Option ℕ → Bool
unfolding text_eq
is_released_with secret kept at = defined_and kept (text_eq secret) && not (is_null at)

module _ (now : ℕ) (secret : Text) where
  abbrev pub freed_order : Order → Order
  freed_order order = record order {
    release_secret = some secret;
    released_at = some now;
    updated_at = now;
  }

  -- The first proposal of this digest is marked.
  unfoldable pub mark_intents : Text → List StoredFillIntent → List StoredFillIntent
  unfolding text_eq
  mark_intents digest [] = []
  mark_intents digest (i ∷ is) =
      let rest = mark_intents digest is in
      if text_eq i.intent_digest digest
      then record i { release_secret = some secret; released_at = some now } ∷ is
      else i ∷ rest

  -- What the release of a proposal does: the order is released too if its fill selected it.
  abbrev pub freed_proposal : Text → Order → Order
  freed_proposal digest order =
      let frees = is_selected digest order && not (is_null order.fill_commitment) in
      record order {
        fill_intents = on_option order.fill_intents none (λ is. some (mark_intents digest is));
        release_secret = if frees then some secret else order.release_secret;
        released_at = if frees then some now else order.released_at;
        updated_at = now;
      }

module _ (hashes : Hashes) where
  unfoldable pub compute_release_commitment : Text → Text → Text → Text
  unfolding hex_bytes to_hex
  compute_release_commitment order_digest nonce secret =
      codes "0x"
      ++ to_hex (
          hashes.sha256 (
            release_prefix
            ++ hex_bytes (slice_2 order_digest)
            ++ hex_bytes (slice_2 nonce)
            ++ hex_bytes (slice_2 secret)))

  module _ (now : ℕ) (secret order_digest : Text) (order : Order) (s : OrderStore) where
    abbrev pub opens : Text → Text → Bool
    opens nonce commitment =
        text_eq (compute_release_commitment order_digest nonce secret) commitment

    unfoldable pub release_fill : Json → Answer
    unfolding named_fill compute_release_commitment text_eq is_released_with save
    release_fill field =
        on_option (named_fill field order) (s, refused no_fill)
          (λ f. require (opens f.1 f.0) fill_secret_mismatch s (
            if is_released_with secret order.release_secret order.released_at
            then (s, shown order)
            else let o = freed_order now secret order in (save o s, shown o)))

    -- The stored proposal, or the order whose fill selected it, was released with this secret.
    unfoldable pub was_released : Text → Bool
    unfolding find_by_digest is_selected is_released_with
    was_released digest =
        defined_and (stored_of digest order)
          (λ i. is_released_with secret i.release_secret i.released_at)
        || (is_selected digest order
            && is_released_with secret order.release_secret order.released_at)

    unfoldable pub release_intent : Json → Answer
    unfolding as_bytes32 named_intent compute_release_commitment text_eq was_released mark_intents
        is_selected save
    release_intent field =
        on_option (as_bytes32 field) (s, refused bad_intent_digest)
          (λ digest.
            on_option (named_intent digest order) (s, refused no_intent)
              (λ i. require (opens i.nonce i.release_commitment) intent_secret_mismatch s (
                if was_released digest
                then (s, shown order)
                else let o = freed_proposal now secret digest order in (save o s, shown o))))

  unfoldable pub release_portable : ℕ → ReleaseBody → Order → OrderStore → Answer
  unfolding share_authorized has_exact_fields as_bytes32 release_fill release_intent
  release_portable now body order s =
      require (order.is_public || share_authorized hashes order body.share_token) order_not_found s
        (require
          (if is_present body.fill_digest
            then not (is_present body.intent_digest)
            else is_present body.intent_digest)
          ambiguous_release s
          (require (has_exact_fields order body) unexpected_fields s (
            on_option (as_bytes32 body.release_secret) (s, refused bad_release_secret)
              (λ secret.
                on_option order.order_digest (s, refused not_portable)
                  (λ order_digest.
                    if is_present body.fill_digest
                    then release_fill now secret order_digest order s body.fill_digest
                    else release_intent now secret order_digest order s body.intent_digest)))))
