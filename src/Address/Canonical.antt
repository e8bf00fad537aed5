-- ===== src/Address/Canonical.antt =====
-- `canonicalQip55QrlAddress` of marketmaker/src/qip55.ts.
use quanta_swap.Prelude.{
  ℕ, ◌≡◌, Bool, true, ◌&&◌, ◌||◌, some, List, [], ◌∷◌, map, arith, Text, text_eq, text_eq_refl,
  lower, upper, Bool-cases, inl, inr, &&_parts, ◌==◌, ◌∙◌,
}
use quanta_swap.Address.{
  is_q_hex, checksummed_hex, checksum_from, is_qip55_qrl_address, canonical_qip55_qrl_address,
  slice_1, same_addr, qrl_or_eth_hex,
}
use quanta_swap.Address.Same.{same_addr_of_parts}
use quanta_swap.Address.Case.{
  length-map, map-lower_idem, all-map_hex, length-checksum_from, all-checksum_from,
  map-lower-checksum_from,
}

-- The body of an address that passes the pattern.
is_q_hex-checksum :
    (hash : List ℕ) (n : ℕ) (v : Text)
    → is_q_hex n v ≡ true
    → is_q_hex n (b'Q' ∷ checksum_from hash 0 (map lower (slice_1 v))) ≡ true
unfolding is_q_hex
is_q_hex-checksum hash n [] h = ground arith
is_q_hex-checksum hash n (c ∷ body) h = ground (
  arith,
  length-checksum_from hash 0 (map lower body),
  length-map lower body,
  &&_parts (c == b'Q') _ h,
  all-checksum_from hash 0 (map lower body),
  all-map_hex body,
)

third_of : (q a b c : Bool) → q ≡ true → c ≡ true → (q && (a || (b || c))) ≡ true
third_of q a b c h k = ground arith

module _ (shake256 : Text → List ℕ) where
  lower_canonical : (s : Text) → map lower (checksummed_hex shake256 (map lower s)) ≡ map lower s
  unfolding checksummed_hex
  lower_canonical s =
      map-lower-checksum_from (shake256 (map lower s)) 0 (map lower s) (map-lower_idem s)

  checksum_again :
      (s : Text)
      → checksummed_hex shake256 (map lower (checksummed_hex shake256 (map lower s)))
        ≡ checksummed_hex shake256 (map lower s)
  checksum_again s = rw (lower_canonical s)

  canonical_form :
      (v : Text) {c : Text}
      → canonical_qip55_qrl_address shake256 v ≡ some c
      → (is_qip55_qrl_address shake256 v ≡ true)
        × (c ≡ b'Q' ∷ checksummed_hex shake256 (map lower (slice_1 v)))
  unfolding canonical_qip55_qrl_address
  canonical_form v h = elim (Bool-cases (is_qip55_qrl_address shake256 v)) [
    | inl good ↦ (good, ground (arith, good))
    | inr bad ↦ ground (arith, bad)
  ]

  checksum-is_qip55 :
      (v : Text)
      → is_qip55_qrl_address shake256 v ≡ true
      → is_qip55_qrl_address shake256 (b'Q' ∷ checksummed_hex shake256 (map lower (slice_1 v)))
        ≡ true
  unfolding is_qip55_qrl_address
  checksum-is_qip55 v h =
      let cs : Text = checksummed_hex shake256 (map lower (slice_1 v)) in
      third_of (is_q_hex 128 (b'Q' ∷ cs)) (text_eq cs (map lower cs)) (text_eq cs (map upper cs))
        (text_eq cs (checksummed_hex shake256 (map lower cs)))
        (is_q_hex-checksum (shake256 (map lower (slice_1 v))) 128 v (&&_parts _ _ h).0)
        (rw (checksum_again (slice_1 v)) (text_eq_refl cs))

  hex_of_qip55 :
      (v : Text)
      → is_qip55_qrl_address shake256 v ≡ true
      → qrl_or_eth_hex shake256 v ≡ some (b'0' ∷ b'x' ∷ slice_1 v)
  unfolding qrl_or_eth_hex
  hex_of_qip55 v h = ground (arith, h)

  canonical_of_qip55 :
      (v : Text)
      → is_qip55_qrl_address shake256 v ≡ true
      → canonical_qip55_qrl_address shake256 v
        ≡ some (b'Q' ∷ checksummed_hex shake256 (map lower (slice_1 v)))
  unfolding canonical_qip55_qrl_address
  canonical_of_qip55 v h = ground (arith, h)

  -- The canonical spelling of an address is accepted, is its own canonical spelling, and names the
  -- same account as the spelling it was made from.
  pub canonical_address :
      (v c : Text)
      → canonical_qip55_qrl_address shake256 v ≡ some c
      → (is_qip55_qrl_address shake256 c ≡ true)
        × (canonical_qip55_qrl_address shake256 c ≡ some c)
        × (same_addr shake256 c v ≡ some true)
  canonical_address v c h =
      let (good, form) = canonical_form v h in
      let again = checksum-is_qip55 v good in
      rw form (
        again,
        canonical_of_qip55 _ again ∙ rw (checksum_again (slice_1 v)),
        same_addr_of_parts shake256 _ v _ _ (hex_of_qip55 _ again) (hex_of_qip55 v good)
            (rw (lower_canonical (slice_1 v))),
      )
