-- ===== src/Server/Takes/Best.antt =====
-- Which order a take by terms gets (`take` of server/src/store.ts).
use mathlib.Core.Path.{subst}
use quanta_swap.Prelude.{
  ℕ, ◌≤◌, ◌<◌, ◌≡◌, refl, sym, inl, inr, Bool, true, false, not, ◌&&◌, none, some, List, [], ◌∷◌,
  text_eq, text_eq→eq, leb, leb→le, &&_parts, of_some, arith, All, filter_by, Bool-cases,
  All-filter_by, All-of-filter_by, All-sort_by, All-of-sort_by, IsRanked, sort_by-IsRanked,
}
use quanta_swap.Server.Store.{Order, OrderStore, is_open, has_runway}
use quanta_swap.Server.Takes.{uses_portable_terminal_protocol, find_order}
use quanta_swap.Server.Takes.Keys.{IsDistinct, All-found}
use quanta_swap.Server.Takes.Rate.{
  IsBetter, IsBetter-trans, best_first-IsBetter, best_last-IsBetter,
}
use quanta_swap.Server.Takes.Match.{
  TakeTerms, matches_terms, best_first, best_match, first, is_seen, same_direction,
}

pub first_all {ℓ κ} :
    {A : Type ℓ} (P : A → Type κ) (xs : List A) (a : A) → first xs ≡ some a → All P xs → P a
first_all P [] a e h = ground (arith, e)
first_all P (x ∷ xs) a e h = rw (sym (of_some e)) h.0

All-trivial : (xs : List Order) → All {0, 0} (λ _. Unit) xs
All-trivial [] = tt
All-trivial (x ∷ xs) = (tt, All-trivial xs)

pub best_match-matches_terms :
    (s : OrderStore) (now : ℕ) (terms : TakeTerms) (o : Order)
    → best_match s now terms ≡ some o
    → matches_terms s now terms o ≡ true
unfolding best_match
best_match-matches_terms s now terms o e =
    let test = matches_terms s now terms in
    let kept = All-filter_by test (λ _. Unit) s.orders (All-trivial s.orders) in
    (first_all (λ o. (test o ≡ true) × Unit) _ o e
      (All-sort_by best_first (λ o. (test o ≡ true) × Unit) _ kept)).0

-- The order is open, unsigned and public, of the pair and within the prices that the taker names,
-- its maker was seen lately, and a pre-funded one has time left for a whole swap.
pub record IsMatch (s : OrderStore) (now : ℕ) (terms : TakeTerms) (o : Order) : Type 0 where
  pub still_open : is_open o.status ≡ true
  pub unsigned : uses_portable_terminal_protocol o ≡ false
  pub public : o.is_public ≡ true
  pub pair : same_direction o.direction terms.direction ≡ true
  pub asset : o.asset ≡ terms.asset.symbol
  pub pays : o.to_amount ≤ terms.max_pay
  pub receives : terms.min_receive ≤ o.from_amount
  pub seen : is_seen s o now ≡ true
  pub in_time : has_runway o now ≡ true

not_signed : (b : Bool) → not b ≡ true → b ≡ false
not_signed b h = ground arith

pub matches_terms-IsMatch :
    (s : OrderStore) (now : ℕ) (terms : TakeTerms) (o : Order)
    → matches_terms s now terms o ≡ true
    → IsMatch s now terms o
unfolding matches_terms
matches_terms-IsMatch s now terms o h =
    let seen = is_seen s o now in
    let t6 = leb terms.min_receive o.from_amount && (seen && has_runway o now) in
    let t5 = leb o.to_amount terms.max_pay && t6 in
    let t4 = text_eq o.asset terms.asset.symbol && t5 in
    let t3 = same_direction o.direction terms.direction && t4 in
    let t2 = o.is_public && t3 in
    let t1 = not (uses_portable_terminal_protocol o) && t2 in
    let (a, b) = &&_parts (is_open o.status) t1 h in
    let (c, d) = &&_parts (not (uses_portable_terminal_protocol o)) t2 b in
    let (e, f) = &&_parts o.is_public t3 d in
    let (g, i) = &&_parts (same_direction o.direction terms.direction) t4 f in
    let (j, k) = &&_parts (text_eq o.asset terms.asset.symbol) t5 i in
    let (l, m) = &&_parts (leb o.to_amount terms.max_pay) t6 k in
    let (n, p) = &&_parts (leb terms.min_receive o.from_amount) (seen && has_runway o now) m in
    let (q, r) = &&_parts seen (has_runway o now) p in
    record {
      still_open = a;
      unsigned = not_signed _ c;
      public = e;
      pair = g;
      asset = text_eq→eq o.asset terms.asset.symbol j;
      pays = leb→le _ _ l;
      receives = leb→le _ _ n;
      seen = q;
      in_time = r;
    }

-- The order that is picked is the one under its id.
pub best_match-find_order :
    (s : OrderStore) (now : ℕ) (terms : TakeTerms) (o : Order)
    → best_match s now terms ≡ some o
    → IsDistinct s.orders
    → find_order o.id s.orders ≡ some o
unfolding best_match
best_match-find_order s now terms o e d =
    let test = matches_terms s now terms in
    let Found : Order → Type 0 = λ o. find_order o.id s.orders ≡ some o in
    let kept = All-filter_by test Found s.orders (All-found s.orders d) in
    let Both : Order → Type 0 = λ o. (test o ≡ true) × Found o in
    (first_all Both _ o e (All-sort_by best_first Both _ kept)).1

abbrev IsPriced : Order → Type 0
IsPriced o = 0 < o.to_amount

filtered :
    (p : Order → Bool) (P : Order → Type 0) (xs : List Order) → All P xs → All P (filter_by p xs)
filtered p P [] h = tt
filtered p P (x ∷ xs) h = elim (Bool-cases (p x)) [
  | inl e ↦ rw e (h.0, filtered p P xs h.1)
  | inr e ↦ rw e (filtered p P xs h.1)
]

head_ranked :
    (xs : List Order) (o : Order) → first xs ≡ some o → IsRanked IsBetter xs → All (IsBetter o) xs
head_ranked [] o e h = ground (arith, e)
head_ranked (x ∷ xs) o e h =
    subst (λ y. All (IsBetter y) (x ∷ xs)) (of_some e) (inr (refl, inr (refl, omega arith)), h.0)

no_head : (xs : List Order) (P : Order → Type 0) → first xs ≡ none → All P xs
no_head [] P e = tt
no_head (x ∷ xs) P e = ground (arith, e)

none_passes :
    (p : Order → Bool) (xs : List Order)
    → All (λ x. p x ≡ true → p x ≡ false) xs
    → All (λ x. p x ≡ false) xs
none_passes p [] h = tt
none_passes p (x ∷ xs) h =
    (elim (Bool-cases (p x)) [ inl e ↦ h.0 e | inr e ↦ e ], none_passes p xs h.1)

-- A take by terms picks an order that matches the taker's terms, and no matching order is better for
-- the taker, by the rate, then by the size, then by the age, if every order of the book asks for
-- some amount. It picks none only if no order matches.
pub best_match-IsBetter :
    (s : OrderStore) (now : ℕ) (terms : TakeTerms)
    → All IsPriced s.orders
    → ((o : Order)
        → best_match s now terms ≡ some o
        → IsMatch s now terms o
          × All (λ x. matches_terms s now terms x ≡ true → IsBetter o x) s.orders)
      × (best_match s now terms ≡ none → All (λ x. matches_terms s now terms x ≡ false) s.orders)
unfolding best_match
best_match-IsBetter s now terms h =
    let test = matches_terms s now terms in
    let priced = filtered test IsPriced s.orders h in
    let ranked =
      sort_by-IsRanked best_first IsPriced IsBetter best_first-IsBetter best_last-IsBetter
        IsBetter-trans (filter_by test s.orders) priced in
    (
      λ o e. (
        matches_terms-IsMatch s now terms o (best_match-matches_terms s now terms o e),
        All-of-filter_by test (IsBetter o) s.orders (
            All-of-sort_by best_first (IsBetter o) (filter_by test s.orders)
              (head_ranked _ o e ranked)),
      ),
      λ e. none_passes test s.orders (
          All-of-filter_by test (λ x. test x ≡ false) s.orders
            (All-of-sort_by best_first (λ x. test x ≡ false) (filter_by test s.orders)
              (no_head _ _ e))),
    )
