-- ===== src/Prelude/Sorting.antt =====
-- `Array.prototype.sort`, which is stable, by a comparison.
use Prim.Native.Nat.{Ordering}
use mathlib.Core.Path.{◌≡◌, sym, ◌∙◌}
use mathlib.Core.Logic.{inl, inr}
use mathlib.Core.Bool.{Bool, true, false, false≢true}
use mathlib.Core.List.{List, [], ◌∷◌}
use quanta_swap.Prelude.Tests.{if◌then◌else◌, Bool-cases}
use quanta_swap.Prelude.Lists.{All, filter_by}

abbrev pub is_gt : Ordering → Bool
is_gt Ordering.gt = true
is_gt _ = false

module _ {ℓ} {A : Type ℓ} (order : A → A → Ordering) where
  unfoldable pub insert_sorted : A → List A → List A
  insert_sorted x [] = x ∷ []
  insert_sorted x (y ∷ ys) =
      let later = y ∷ insert_sorted x ys in if is_gt (order x y) then later else x ∷ y ∷ ys

  unfoldable pub sort_by : List A → List A
  unfolding insert_sorted
  sort_by [] = []
  sort_by (x ∷ xs) = insert_sorted x (sort_by xs)

module _ {A : Type 0} (order : A → A → Ordering) (P : A → Type 0) where
  pub All-insert_sorted : (x : A) (ys : List A) → P x → All P ys → All P (insert_sorted order x ys)
  unfolding insert_sorted
  All-insert_sorted x [] p h = (p, tt)
  All-insert_sorted x (y ∷ ys) p h = elim (Bool-cases (is_gt (order x y))) [
    | inl e ↦ rw e (h.0, All-insert_sorted x ys p h.1)
    | inr e ↦ rw e (p, h)
  ]

  pub All-of-insert_sorted :
      (x : A) (ys : List A) → All P (insert_sorted order x ys) → P x × All P ys
  unfolding insert_sorted
  All-of-insert_sorted x [] h = h
  All-of-insert_sorted x (y ∷ ys) h = elim (Bool-cases (is_gt (order x y))) [
    | inl e ↦
        let k : All P (y ∷ insert_sorted order x ys) = rw e at h in
        let (p, q) = All-of-insert_sorted x ys k.1 in (p, (k.0, q))
    | inr e ↦ let k : All P (x ∷ y ∷ ys) = rw e at h in k
  ]

  pub All-sort_by : (xs : List A) → All P xs → All P (sort_by order xs)
  unfolding sort_by
  All-sort_by [] h = tt
  All-sort_by (x ∷ xs) h = All-insert_sorted x _ h.0 (All-sort_by xs h.1)

  pub All-of-sort_by : (xs : List A) → All P (sort_by order xs) → All P xs
  unfolding sort_by
  All-of-sort_by [] h = tt
  All-of-sort_by (x ∷ xs) h =
      let (p, q) = All-of-insert_sorted x (sort_by order xs) h in (p, All-of-sort_by xs q)

module _ {A : Type 0} (test : A → Bool) (P : A → Type 0) where
  pub All-filter_by :
      (xs : List A) → All P xs → All (λ x. (test x ≡ true) × P x) (filter_by test xs)
  All-filter_by [] h = tt
  All-filter_by (x ∷ xs) h = elim (Bool-cases (test x)) [
    | inl e ↦ rw e ((e, h.0), All-filter_by xs h.1)
    | inr e ↦ rw e (All-filter_by xs h.1)
  ]

  pub All-of-filter_by :
      (xs : List A) → All P (filter_by test xs) → All (λ x. test x ≡ true → P x) xs
  All-of-filter_by [] h = tt
  All-of-filter_by (x ∷ xs) h = elim (Bool-cases (test x)) [
    | inl e ↦
        let k : P x × All P (filter_by test xs) = rw e at h in ((λ _. k.0), All-of-filter_by xs k.1)
    | inr e ↦
        let k : All P (filter_by test xs) = rw e at h in
        ((λ t. absurd (false≢true (sym e ∙ t))), All-of-filter_by xs k)
  ]
