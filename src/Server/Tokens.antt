-- ===== src/Server/Tokens.antt =====
-- The bearer tokens of the order book (server/src/store.ts and `capabilityCommitment` of
-- server/src/order-signing.ts). The hash functions are the platform's.
use quanta_swap.Prelude.{
  ℕ, ◌+◌, ◌-◌, ◌*◌, ◌/◌, ◌%◌, Bool, false, ◌&&◌, ◌||◌, List, [], ◌∷◌, ◌++◌, Text, codes, text_eq,
  ltb, leb, ◌==◌, if◌then◌else◌, all, length, is_hex, is_null, on_option,
}
use quanta_swap.Server.Wire.{Json, text, is_digit}
use quanta_swap.Server.Store.{Order}

-- `sha256Hex` of a string, SHA-256 of bytes, and SHAKE256 of a string.
pub record Hashes : Type 0 where
  pub sha256_hex : Text → Text
  pub sha256 : List ℕ → List ℕ
  pub shake256 : Text → List ℕ

-- The value of a hexadecimal digit.
unfoldable pub nibble : ℕ → ℕ
nibble c = if is_digit c then c - b'0' else if leb b'a' c then c - b'a' + 10 else c - b'A' + 10

-- `Buffer.from(hex, "hex")` stops at the first pair that is not hexadecimal.
unfoldable pub hex_bytes : Text → List ℕ
unfolding is_hex nibble
hex_bytes [] = []
hex_bytes (_ ∷ []) = []
hex_bytes (a ∷ b ∷ rest) =
    let bytes = hex_bytes rest in
    if is_hex a && is_hex b then (nibble a * 16 + nibble b) ∷ bytes else []

unfoldable pub hex_digit : ℕ → ℕ
hex_digit n = if ltb n 10 then b'0' + n else b'a' + (n - 10)

-- `Buffer.from(bytes).toString("hex")`
unfoldable pub to_hex : List ℕ → Text
unfolding hex_digit
to_hex [] = []
to_hex (b ∷ bytes) = hex_digit (b / 16) ∷ hex_digit (b % 16) ∷ to_hex bytes

abbrev pub is_lower_hex : ℕ → Bool
is_lower_hex c = is_digit c || (leb b'a' c && leb c b'f')

-- `/^[0-9a-f]{64}$/`
unfoldable pub is_raw_token : Text → Bool
is_raw_token raw = length raw == 64 && all is_lower_hex raw

-- `timingSafeEqual` of two buffers of one length.
unfoldable pub fixed_hex_matches : Text → Text → Bool
unfolding hex_bytes text_eq
fixed_hex_matches stored candidate =
    length (hex_bytes stored) == length (hex_bytes candidate)
    && text_eq (hex_bytes stored) (hex_bytes candidate)

-- `s.slice(2)`
abbrev pub slice_2 : Text → Text
slice_2 [] = []
slice_2 (_ ∷ []) = []
slice_2 (_ ∷ _ ∷ s) = s

abbrev pub maker_capability_prefix : Text
maker_capability_prefix = codes "QuantaSwap Maker capability V2" ++ 0 ∷ []

abbrev pub share_capability_prefix : Text
share_capability_prefix = codes "QuantaSwap Share capability V2" ++ 0 ∷ []

module _ (hashes : Hashes) where
  -- Of a token that the callers have tested.
  unfoldable pub capability_commitment : Text → Text → Text
  unfolding hex_bytes to_hex
  capability_commitment raw prefix = codes "0x" ++ to_hex (hashes.sha256 (prefix ++ hex_bytes raw))

  abbrev pub maker_token_commitment : Text → Text
  maker_token_commitment raw = capability_commitment raw maker_capability_prefix

  abbrev pub share_token_commitment : Text → Text
  share_token_commitment raw = capability_commitment raw share_capability_prefix

  unfoldable pub capability_matches : Text → Json → (Text → Text) → Bool
  unfolding is_raw_token fixed_hex_matches
  capability_matches stored (text raw) compute =
      is_raw_token raw && fixed_hex_matches stored (slice_2 (compute raw))
  capability_matches stored _ compute = false

  unfoldable pub legacy_token_matches : Text → Json → Bool
  unfolding fixed_hex_matches
  legacy_token_matches stored (text raw) = fixed_hex_matches stored (hashes.sha256_hex raw)
  legacy_token_matches stored _ = false

  unfoldable pub share_authorized : Order → Json → Bool
  unfolding legacy_token_matches capability_matches capability_commitment
  share_authorized order token = on_option order.share_token_hash false (λ stored.
      if is_null order.maker_auth
      then legacy_token_matches stored token
      else capability_matches stored token share_token_commitment)

  -- The test of `authorized` and of `matchesMakerCapability`.
  unfoldable pub maker_token_valid : Order → Json → Bool
  unfolding legacy_token_matches capability_matches capability_commitment
  maker_token_valid order token =
      if is_null order.maker_auth
      then legacy_token_matches order.maker_token_hash token
      else capability_matches order.maker_token_hash token maker_token_commitment

  -- The test of `release`.
  unfoldable pub taker_token_valid : Order → Json → Bool
  unfolding text_eq
  taker_token_valid order (text raw) =
      on_option order.taker_token_hash false (text_eq (hashes.sha256_hex raw))
  taker_token_valid order _ = false
