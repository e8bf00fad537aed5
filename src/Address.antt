-- ===== src/Address.antt =====
-- Addresses of both chains (marketmaker/src/qip55.ts and `sameAddr` of marketmaker/src/htlc.ts).
-- A text is tested and rewritten as its code units. SHAKE256 is the platform's: it enters as a
-- function from the hashed text to the digest's bytes.
pub mod Case
pub mod Canonical
pub mod Same
use quanta_swap.Prelude.{
  ℕ, ◌+◌, ◌-◌, ◌/◌, ◌%◌, Bool, true, false, ◌&&◌, ◌||◌, Option, none, some, List, [], ◌∷◌, ◌++◌,
  map, ◌>>=◌, ◌==◌, leb, if◌then◌else◌, Text, codes, text_eq, length, replicate, all, is_hex,
  is_a_to_f, lower, upper,
}

-- `/^Q[0-9a-fA-F]{n}$/`
unfoldable pub is_q_hex : ℕ → Text → Bool
is_q_hex n [] = false
is_q_hex n (c ∷ body) = c == b'Q' && (length body == n && all is_hex body)

-- `/^0x[0-9a-fA-F]{n}$/`
unfoldable pub is_0x_hex : ℕ → Text → Bool
is_0x_hex n [] = false
is_0x_hex n (z ∷ []) = false
is_0x_hex n (z ∷ x ∷ body) = z == b'0' && (x == b'x' && (length body == n && all is_hex body))

-- `hash[index] ?? 0`
byte_at : List ℕ → ℕ → ℕ
byte_at [] i = 0
byte_at (b ∷ bs) i = let rest = byte_at bs (i - 1) in if i == 0 then b else rest

nibble_at : List ℕ → ℕ → ℕ
unfolding byte_at
nibble_at hash index =
    let byte = byte_at hash (index / 2) in if index % 2 == 0 then byte / 16 else byte % 16

-- The loop of `checksummedHex` from `index` on.
unfoldable pub checksum_from : List ℕ → ℕ → Text → Text
unfolding nibble_at
checksum_from hash index [] = []
checksum_from hash index (c ∷ cs) =
    (if is_a_to_f c then if leb 8 (nibble_at hash index) then upper c else c else c)
    ∷ checksum_from hash (index + 1) cs

-- `value.slice(1)`
abbrev pub slice_1 : Text → Text
slice_1 [] = []
slice_1 (_ ∷ s) = s

module _ (shake256 : Text → List ℕ) where
  unfoldable pub checksummed_hex : Text → Text
  unfolding checksum_from
  checksummed_hex lower_hex = checksum_from (shake256 lower_hex) 0 lower_hex

  unfoldable pub is_qip55_qrl_address : Text → Bool
  unfolding is_q_hex checksummed_hex
  is_qip55_qrl_address value =
      is_q_hex 128 value
      && (text_eq (slice_1 value) (map lower (slice_1 value))
          || (text_eq (slice_1 value) (map upper (slice_1 value))
              || text_eq (slice_1 value) (checksummed_hex (map lower (slice_1 value)))))

  unfoldable pub canonical_qip55_qrl_address : Text → Option Text
  unfolding is_qip55_qrl_address
  canonical_qip55_qrl_address value =
      if is_qip55_qrl_address value
      then some (b'Q' ∷ checksummed_hex (map lower (slice_1 value)))
      else none

  unfoldable pub qrl_or_eth_hex : Text → Option Text
  unfolding is_qip55_qrl_address is_0x_hex
  qrl_or_eth_hex address =
      if is_qip55_qrl_address address
      then some (b'0' ∷ b'x' ∷ slice_1 address)
      else if is_0x_hex 128 address || is_0x_hex 40 address
      then some address
      else none

  unfoldable pub same_addr : Text → Text → Option Bool
  unfolding qrl_or_eth_hex
  same_addr a b = do
    x ← qrl_or_eth_hex a
    y ← qrl_or_eth_hex b
    some (text_eq (map lower x) (map lower y))

-- `address(0)` at each chain's width.
abbrev pub native_token : Text
native_token = codes "0x" ++ replicate 40 b'0'

abbrev pub qrl_native_token : Text
qrl_native_token = codes "0x" ++ replicate 128 b'0'
