-- ===== src/Maker/Intents/Choice.antt =====
-- Which intent `earliestValidFillIntent` (marketmaker/src/policy.ts) chooses.
use Prim.Native.Nat.{Ordering}
use quanta_swap.Prelude.{
  ℕ, max, ◌≤◌, ◌<◌, ◌≡◌, refl, ◌⊎◌, inl, inr, Bool, true, false, Option, none, some, List, [], ◌∷◌,
  arith, Text, filter_by, All, All-sort_by, All-of-sort_by, All-filter_by, All-of-filter_by, is_gt,
  insert_sorted, sort_by, Bool-cases, sym,
}
use mathlib.Core.List.{Memᴰ}
use mathlib.Core.Path.{subst}
use quanta_swap.Maker.Order.{SelectedFillIntent}
use quanta_swap.Maker.Intents.{
  intent_priority, first, compare_intents, is_valid_intent, earliest_valid_fill_intent,
}

-- The time an intent can claim: the later of its signed issuance and its arrival at the book.
abbrev pub came_at : SelectedFillIntent → ℕ
came_at i = max i.auth.issued_at i.received_at

-- First by that time, then by signed issuance.
abbrev pub ComesFirst : SelectedFillIntent → SelectedFillIntent → Type 0
ComesFirst a b =
    (came_at a < came_at b) ⊎ (came_at a ≡ came_at b) × (a.auth.issued_at ≤ b.auth.issued_at)

ComesFirst-trans : (a b c : SelectedFillIntent) → ComesFirst a b → ComesFirst b c → ComesFirst a c
ComesFirst-trans a b c p q = ground arith

All-Memᴰ :
    {A : Type 0} (xs ys : List A) → ((a : A) → Memᴰ a ys → Memᴰ a xs) → All (λ a. Memᴰ a xs) ys
All-Memᴰ xs [] f = tt
All-Memᴰ xs (y ∷ ys) f = (f y (Memᴰ.head refl), All-Memᴰ xs ys (λ a m. f a (Memᴰ.tail m)))

never_valid :
    {A : Type 0} (test : A → Bool) (xs : List A)
    → All (λ x. test x ≡ true → ⊥) xs
    → All (λ x. test x ≡ false) xs
never_valid test [] h = tt
never_valid test (x ∷ xs) h = elim (Bool-cases (test x)) [
  | inl e ↦ absurd (h.0 e)
  | inr e ↦ (e, never_valid test xs h.1)
]

-- The outcome `chosen` of a choice among `intents`.
abbrev pub IsEarliest :
    Text
    → ℕ
    → (SelectedFillIntent → Bool)
    → List SelectedFillIntent
    → Option SelectedFillIntent
    → Type 0
IsEarliest order_digest now verify intents none =
    All (λ i. is_valid_intent order_digest now verify i ≡ false) intents
IsEarliest order_digest now verify intents (some chosen) =
    (is_valid_intent order_digest now verify chosen ≡ true)
    × Memᴰ chosen intents
    × All (λ i. is_valid_intent order_digest now verify i ≡ true → ComesFirst chosen i) intents

module _ (locale_compare : Text → Text → Ordering) where
  not_gt-ComesFirst :
      (a b : SelectedFillIntent)
      → is_gt (compare_intents locale_compare a b) ≡ false
      → ComesFirst a b
  unfolding compare_intents intent_priority
  not_gt-ComesFirst a b h = ground arith

  gt-ComesFirst :
      (a b : SelectedFillIntent)
      → is_gt (compare_intents locale_compare a b) ≡ true
      → ComesFirst b a
  unfolding compare_intents intent_priority
  gt-ComesFirst a b h = ground arith

  -- The head of a sorted list comes first, and the list holds what was inserted.
  abbrev LeadsAll : List SelectedFillIntent → Type 0
  LeadsAll [] = Unit
  LeadsAll (x ∷ xs) = All (ComesFirst x) (x ∷ xs)

  weaken :
      (a b : SelectedFillIntent) (xs : List SelectedFillIntent)
      → ComesFirst a b
      → All (ComesFirst b) xs
      → All (ComesFirst a) xs
  weaken a b [] p h = tt
  weaken a b (x ∷ xs) p h = (ComesFirst-trans a b x p h.0, weaken a b xs p h.1)

  insert-leads :
      (y x : SelectedFillIntent) (ys : List SelectedFillIntent)
      → ComesFirst y x
      → All (ComesFirst y) ys
      → All (ComesFirst y) (insert_sorted (compare_intents locale_compare) x ys)
  unfolding insert_sorted
  insert-leads y x [] p h = (p, tt)
  insert-leads y x (z ∷ zs) p h = elim (Bool-cases (is_gt (compare_intents locale_compare x z))) [
    | inl e ↦ rw e (h.0, insert-leads y x zs p h.1)
    | inr e ↦ rw e (p, h)
  ]

  insert_sorted-LeadsAll :
      (x : SelectedFillIntent) (ys : List SelectedFillIntent)
      → LeadsAll ys
      → LeadsAll (insert_sorted (compare_intents locale_compare) x ys)
  unfolding insert_sorted
  insert_sorted-LeadsAll x [] h = (inr (refl, omega arith), tt)
  insert_sorted-LeadsAll x (y ∷ ys) h =
      elim (Bool-cases (is_gt (compare_intents locale_compare x y))) [
        | inl e ↦ rw e (h.0, insert-leads y x ys (gt-ComesFirst x y e) h.1)
        | inr e ↦ rw e (inr (refl, omega arith), weaken x y (y ∷ ys) (not_gt-ComesFirst x y e) h)
      ]

  sort_by-LeadsAll :
      (xs : List SelectedFillIntent) → LeadsAll (sort_by (compare_intents locale_compare) xs)
  unfolding sort_by
  sort_by-LeadsAll [] = tt
  sort_by-LeadsAll (x ∷ xs) = insert_sorted-LeadsAll x _ (sort_by-LeadsAll xs)

  -- Among the intents of the order that are issued by now, unexpired and verified, the maker
  -- chooses one for which the later of issuance and arrival is least, and among those one whose
  -- signed issuance is least; it chooses none only if none is valid.
  pub earliest_valid_fill_intent-IsEarliest :
      (intents : List SelectedFillIntent) (order_digest : Text) (now : ℕ)
      (verify : SelectedFillIntent → Bool)
      → IsEarliest order_digest now verify intents
          (earliest_valid_fill_intent locale_compare intents order_digest now verify)
  unfolding earliest_valid_fill_intent
  earliest_valid_fill_intent-IsEarliest intents order_digest now verify =
      go (sort_by (compare_intents locale_compare) valid) refl
    where
      test : SelectedFillIntent → Bool
      test = is_valid_intent order_digest now verify

      valid : List SelectedFillIntent
      valid = filter_by test intents

      go :
          (ys : List SelectedFillIntent)
          → sort_by (compare_intents locale_compare) valid ≡ ys
          → IsEarliest order_digest now verify intents (first ys)
      go [] e = never_valid test intents (
          All-of-filter_by test (λ _. ⊥) intents
            (All-of-sort_by (compare_intents locale_compare) (λ _. ⊥) valid (rw e tt)))
      go (y ∷ ys) e =
          let lead : All (ComesFirst y) (y ∷ ys) = subst LeadsAll e (sort_by-LeadsAll valid) in
          let kept : All (λ i. (test i ≡ true) × Memᴰ i intents) (y ∷ ys) =
            subst (All (λ i. (test i ≡ true) × Memᴰ i intents)) e (
              All-sort_by (compare_intents locale_compare) (λ i. (test i ≡ true) × Memᴰ i intents)
                valid
                (All-filter_by test (λ i. Memᴰ i intents) intents
                  (All-Memᴰ intents intents (λ _ m. m)))) in
          (
            kept.0.0,
            kept.0.1,
            All-of-filter_by test (ComesFirst y) intents (
                All-of-sort_by (compare_intents locale_compare) (ComesFirst y) valid
                  (subst (All (ComesFirst y)) (sym e) lead)),
          )
