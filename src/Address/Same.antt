-- ===== src/Address/Same.antt =====
-- `sameAddr` of marketmaker/src/htlc.ts compares the lower-case hexadecimal forms.
use quanta_swap.Prelude.{
  ℕ, ◌≡◌, refl, sym, Bool, true, some, List, map, arith, Text, text_eq, text_eq_refl, text_eq→eq,
  lower, inl, inr, Option-cases,
}
use quanta_swap.Address.{qrl_or_eth_hex, same_addr}

module _ (shake256 : Text → List ℕ) where
  -- The texts that `qToHex` accepts.
  abbrev pub IsAddress : Text → Type 0
  IsAddress a = (x : Text) × (qrl_or_eth_hex shake256 a ≡ some x)

  pub same_addr_parts :
      (a b : Text)
      → same_addr shake256 a b ≡ some true
      → (x y : Text) × (qrl_or_eth_hex shake256 a ≡ some x)
        × (qrl_or_eth_hex shake256 b ≡ some y)
        × (map lower x ≡ map lower y)
  unfolding same_addr
  same_addr_parts a b h = elim (Option-cases (qrl_or_eth_hex shake256 a)) [
    | inl p ↦ ground (arith, p)
    | inr (x, p) ↦ elim (Option-cases (qrl_or_eth_hex shake256 b)) [
      | inl q ↦ ground (arith, p, q)
      | inr (y, q) ↦ (x, y, p, q, ground (arith, p, q, text_eq→eq (map lower x) (map lower y)))
    ]
  ]

  pub same_addr_of_parts :
      (a b x y : Text)
      → qrl_or_eth_hex shake256 a ≡ some x
      → qrl_or_eth_hex shake256 b ≡ some y
      → map lower x ≡ map lower y
      → same_addr shake256 a b ≡ some true
  unfolding same_addr
  same_addr_of_parts a b x y p q e = rw (p, q, e, text_eq_refl (map lower y))

  pub same_addr_returns :
      (a b : Text) → IsAddress a → IsAddress b → (r : Bool) × (same_addr shake256 a b ≡ some r)
  unfolding same_addr
  same_addr_returns a b (x, p) (y, q) = (text_eq (map lower x) (map lower y), rw (p, q))

  -- The comparison of addresses is an equivalence on the texts that are addresses: every address
  -- is the same as itself, the order of the arguments does not matter, and equality is passed on.
  pub same_addr_equivalence :
      (a b c : Text)
      → IsAddress a
      → (same_addr shake256 a a ≡ some true)
        × (same_addr shake256 a b ≡ some true → same_addr shake256 b a ≡ some true)
        × (same_addr shake256 a b ≡ some true
            → same_addr shake256 b c ≡ some true
            → same_addr shake256 a c ≡ some true)
  same_addr_equivalence a b c (x, p) = (
    same_addr_of_parts a a x x p p refl,
    λ h. let (y, z, q, r, e) = same_addr_parts a b h in same_addr_of_parts b a z y r q (sym e),
    λ h k.
        let (y, z, q, r, e) = same_addr_parts a b h in
        let (u, v, s, t, f) = same_addr_parts b c k in same_addr_of_parts a c y v q t (cc),
  )
