-- ===== src/Prelude/Ranking.antt =====
-- What `sort` by a comparison puts first: every element is ranked before those that follow it.
use Prim.Native.Nat.{Ordering}
use mathlib.Core.Path.{◌≡◌}
use mathlib.Core.Logic.{inl, inr}
use mathlib.Core.Bool.{true, false}
use mathlib.Core.List.{List, [], ◌∷◌}
use quanta_swap.Prelude.Tests.{Bool-cases}
use quanta_swap.Prelude.Lists.{All}
use quanta_swap.Prelude.Sorting.{is_gt, insert_sorted, sort_by, All-insert_sorted, All-sort_by}

abbrev pub IsRanked : {A : Type 0} → (A → A → Type 0) → List A → Type 0
IsRanked R [] = Unit
IsRanked R (x ∷ xs) = All (R x) xs × IsRanked R xs

-- A rank that the comparison decides, transitive on the elements of `P`.
module _ {A : Type 0} (order : A → A → Ordering) (P : A → Type 0) (R : A → A → Type 0)
    (before : (a b : A) → is_gt (order a b) ≡ false → R a b)
    (after : (a b : A) → is_gt (order a b) ≡ true → R b a)
    (trans : (a b c : A) → P a → P b → P c → R a b → R b c → R a c) where
  ranked_on : (x y : A) (ys : List A) → P x → P y → All P ys → R x y → All (R y) ys → All (R x) ys
  ranked_on x y [] p q h r k = tt
  ranked_on x y (z ∷ zs) p q h r k = (trans x y z p q h.0 r k.0, ranked_on x y zs p q h.1 r k.1)

  insert_sorted-IsRanked :
      (x : A) (ys : List A) → P x → All P ys → IsRanked R ys → IsRanked R (insert_sorted order x ys)
  unfolding insert_sorted
  insert_sorted-IsRanked x [] p h k = (tt, tt)
  insert_sorted-IsRanked x (y ∷ ys) p h k = elim (Bool-cases (is_gt (order x y))) [
    | inl e ↦ rw e (
      All-insert_sorted order (R y) x ys (after x y e) k.0,
      insert_sorted-IsRanked x ys p h.1 k.1,
    )
    | inr e ↦ let r = before x y e in rw e ((r, ranked_on x y ys p h.0 h.1 r k.0), k)
  ]

  pub sort_by-IsRanked : (xs : List A) → All P xs → IsRanked R (sort_by order xs)
  unfolding sort_by
  sort_by-IsRanked [] h = tt
  sort_by-IsRanked (x ∷ xs) h =
      insert_sorted-IsRanked x (sort_by order xs) h.0 (All-sort_by order P xs h.1)
        (sort_by-IsRanked xs h.1)
