-- ===== src/Prelude/Chars.antt =====
-- The character classes and case maps of the address tests, on ASCII code units.
use Prim.Native.Nat.{ℕ, ◌+◌, ◌-◌}
use mathlib.Core.Path.{◌≡◌}
use mathlib.Core.Bool.{Bool, true, ◌&&◌, ◌||◌}
use native.Mathlib.Omega.{arith}
use quanta_swap.Prelude.Tests.{leb, if◌then◌else◌}

-- `[0-9a-fA-F]`
unfoldable pub is_hex : ℕ → Bool
is_hex c = (leb b'0' c && leb c b'9') || (leb b'a' c && leb c b'f') || (leb b'A' c && leb c b'F')

-- `char >= "a" && char <= "f"`
unfoldable pub is_a_to_f : ℕ → Bool
is_a_to_f c = leb b'a' c && leb c b'f'

-- `toLowerCase` and `toUpperCase` of one ASCII character.
unfoldable pub lower : ℕ → ℕ
lower c = if leb b'A' c && leb c b'Z' then c + 32 else c

unfoldable pub upper : ℕ → ℕ
upper c = if leb b'a' c && leb c b'z' then c - 32 else c

pub lower_idem : (c : ℕ) → lower (lower c) ≡ lower c
unfolding lower
lower_idem c = ground arith

pub is_hex-lower : (c : ℕ) → is_hex c ≡ true → is_hex (lower c) ≡ true
unfolding is_hex lower
is_hex-lower c h = ground arith

pub is_hex-upper : (c : ℕ) → is_hex c ≡ true → is_hex (upper c) ≡ true
unfolding is_hex upper
is_hex-upper c h = ground arith

pub lower-upper : (c : ℕ) → is_a_to_f c ≡ true → lower (upper c) ≡ c
unfolding is_a_to_f lower upper
lower-upper c h = ground arith
