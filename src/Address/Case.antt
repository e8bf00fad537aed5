-- ===== src/Address/Case.antt =====
-- The checksum of marketmaker/src/qip55.ts changes the case of letters and nothing else.
use quanta_swap.Prelude.{
  ℕ, suc, ◌+◌, ◌≡◌, refl, true, List, [], ◌∷◌, map, arith, Text, length, all, ap, is_hex, lower,
  lower-upper, lower_idem, is_hex-lower, is_hex-upper, &&_parts,
}
use quanta_swap.Address.{checksum_from}

pub length-map : (f : ℕ → ℕ) (s : Text) → length (map f s) ≡ length s
length-map f [] = refl
length-map f (c ∷ s) = ap suc (length-map f s)

pub map-lower_idem : (s : Text) → map lower (map lower s) ≡ map lower s
map-lower_idem [] = refl
map-lower_idem (c ∷ s) = simp (lower_idem, map-lower_idem s)

pub all-map_hex : (s : Text) → all is_hex s ≡ true → all is_hex (map lower s) ≡ true
all-map_hex [] h = refl
all-map_hex (c ∷ s) h =
    let p = &&_parts (is_hex c) (all is_hex s) h in simp (is_hex-lower c p.0) (all-map_hex s p.1)

pub length-checksum_from :
    (hash : List ℕ) (i : ℕ) (s : Text) → length (checksum_from hash i s) ≡ length s
unfolding checksum_from
length-checksum_from hash i [] = refl
length-checksum_from hash i (c ∷ s) = ap suc (length-checksum_from hash (i + 1) s)

pub all-checksum_from :
    (hash : List ℕ) (i : ℕ) (s : Text)
    → all is_hex s ≡ true
    → all is_hex (checksum_from hash i s) ≡ true
unfolding checksum_from
all-checksum_from hash i [] h = refl
all-checksum_from hash i (c ∷ s) h =
    let p = &&_parts (is_hex c) (all is_hex s) h in
    ground (arith, p.0, is_hex-upper c, all-checksum_from hash (i + 1) s p.1)

-- Lowering the checksummed text gives the lower-case text back.
pub map-lower-checksum_from :
    (hash : List ℕ) (i : ℕ) (s : Text) → map lower s ≡ s → map lower (checksum_from hash i s) ≡ s
unfolding checksum_from
map-lower-checksum_from hash i [] h = refl
map-lower-checksum_from hash i (c ∷ s) h =
    ground (arith, lower-upper c, map-lower-checksum_from hash (i + 1) s)
