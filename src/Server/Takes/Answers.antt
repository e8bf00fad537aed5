-- ===== src/Server/Takes/Answers.antt =====
-- How the guards of the order book's methods answer (server/src/store.ts), and what a changed order
-- does to the book.
use quanta_swap.Prelude.{
  ℕ, ◌+◌, ◌≤◌, ◌≡◌, refl, sym, ap, ◌∙◌, inl, inr, Bool, true, false, none, some, List, [], ◌∷◌,
  Text, text_eq, text_eq→eq, text_eq_refl, if_true, if_false, if_cases, option_cases, filter_by,
  length, arith, Bool-cases, of_some,
}
use quanta_swap.Server.Wire.{ApiError, order_not_found, Checked, fails, passes}
use quanta_swap.Server.Store.{Order, OrderStore}
use quanta_swap.Server.Takes.{Answer, refused, require, check, find_order, put_order, with_order}

module _ (P : Answer → Type 0) where
  pub require_cases :
      (ok : Bool) (e : ApiError) (s : OrderStore) (rest : Answer)
      → P (s, refused e)
      → (ok ≡ true → P rest)
      → P (require ok e s rest)
  unfolding require
  require_cases ok e s rest h k = if_cases P ok _ _ k (λ _. h)

  pub check_cases :
      {A : Type 0} (c : Checked A) (s : OrderStore) (rest : A → Answer)
      → ((e : ApiError) → P (s, refused e))
      → ((a : A) → c ≡ passes a → P (rest a))
      → P (check c s rest)
  unfolding check
  check_cases (fails e) s rest h k = h e
  check_cases (passes a) s rest h k = k a refl

  pub with_order_cases :
      (id : Text) (s : OrderStore) (rest : Order → Answer)
      → P (s, refused order_not_found)
      → ((o : Order) → find_order id s.orders ≡ some o → P (rest o))
      → P (with_order id s rest)
  unfolding with_order
  with_order_cases id s rest h k = option_cases P (find_order id s.orders) _ _ (λ _. h) k

pub find_here :
    (id : Text) (o : Order) (os : List Order)
    → text_eq id o.id ≡ true
    → find_order id (o ∷ os) ≡ some o
unfolding find_order
find_here id o os h = if_true _ _ _ h

pub find_later :
    (id : Text) (o : Order) (os : List Order)
    → text_eq id o.id ≡ false
    → find_order id (o ∷ os) ≡ find_order id os
unfolding find_order
find_later id o os h = if_false _ _ _ h

pub put_here :
    (p o : Order) (os : List Order) → text_eq p.id o.id ≡ true → put_order p (o ∷ os) ≡ p ∷ os
unfolding put_order
put_here p o os h = if_true _ _ _ h

pub put_later :
    (p o : Order) (os : List Order)
    → text_eq p.id o.id ≡ false
    → put_order p (o ∷ os) ≡ o ∷ put_order p os
unfolding put_order
put_later p o os h = if_false _ _ _ h

pub put_nothing : (p : Order) → put_order p [] ≡ []
unfolding put_order
put_nothing p = refl

pub find_nothing : (id : Text) → find_order id [] ≡ none
unfolding find_order
find_nothing id = refl

-- The order that is found has the id that was asked for.
pub find_order_id :
    (id : Text) (os : List Order) (o : Order) → find_order id os ≡ some o → o.id ≡ id
find_order_id id [] o h = let k = sym (find_nothing id) ∙ h in ground (arith, k)
find_order_id id (x ∷ os) o h = elim (Bool-cases (text_eq id x.id)) [
  | inl e ↦
      let k = sym (find_here id x os e) ∙ h in
      ap (λ (y : Order). y.id) (sym (of_some k)) ∙ sym (text_eq→eq id x.id e)
  | inr e ↦ find_order_id id os o (sym (find_later id x os e) ∙ h)
]

-- The book after the change has the changed order under its id, and every other order is as it was.
pub find-put_order :
    (p : Order) (os : List Order) (o : Order)
    → find_order p.id os ≡ some o
    → find_order p.id (put_order p os) ≡ some p
find-put_order p [] o h = let k = sym (find_nothing p.id) ∙ h in ground (arith, k)
find-put_order p (x ∷ os) o h = elim (Bool-cases (text_eq p.id x.id)) [
  | inl e ↦ rw (put_here p x os e) (find_here p.id p os (text_eq_refl p.id))
  | inr e ↦ rw (put_later p x os e) (
      find_later p.id x (put_order p os) e
      ∙ find-put_order p os o (sym (find_later p.id x os e) ∙ h))
]

pub find-put_order_other :
    (id : Text) (p : Order) (os : List Order)
    → text_eq id p.id ≡ false
    → find_order id (put_order p os) ≡ find_order id os
find-put_order_other id p [] h = ap (find_order id) (put_nothing p)
find-put_order_other id p (x ∷ os) h = elim (Bool-cases (text_eq p.id x.id)) [
  | inl e ↦
      let same = text_eq→eq p.id x.id e in
      rw (put_here p x os e) (find_later id p os h ∙ sym (find_later id x os (rw (sym same) h)))
  | inr e ↦ rw (put_later p x os e) (elim (Bool-cases (text_eq id x.id)) [
    | inl f ↦ find_here id x _ f ∙ sym (find_here id x os f)
    | inr f ↦ find_later id x _ f ∙ find-put_order_other id p os h ∙ sym (find_later id x os f)
  ])
]

abbrev pub count : (Order → Bool) → List Order → ℕ
count p os = length (filter_by p os)

count_in :
    (p : Order → Bool) (o : Order) (os : List Order)
    → p o ≡ true
    → count p (o ∷ os) ≡ count p os + 1
count_in p o os h = rw h (omega arith)

count_out :
    (p : Order → Bool) (o : Order) (os : List Order) → p o ≡ false → count p (o ∷ os) ≡ count p os
count_out p o os h = rw h refl

count_cons :
    (p : Order → Bool) (o : Order) (os : List Order)
    → (count p os ≤ count p (o ∷ os)) × (count p (o ∷ os) ≤ count p os + 1)
count_cons p o os = elim (Bool-cases (p o)) [
  | inl e ↦ let k = count_in p o os e in (omega (arith, k), omega (arith, k))
  | inr e ↦ let k = count_out p o os e in (omega (arith, k), omega (arith, k))
]

-- A changed order counts once more at most, and not once more if it does not count.
pub count-put_order :
    (q : Order → Bool) (p : Order) (os : List Order)
    → (count q (put_order p os) ≤ count q os + 1)
      × (q p ≡ false → count q (put_order p os) ≤ count q os)
count-put_order q p [] = rw (put_nothing p) (omega arith, λ _. omega arith)
count-put_order q p (x ∷ os) = elim (Bool-cases (text_eq p.id x.id)) [
  | inl e ↦
      let (a, b) = count_cons q x os in
      let (c, d) = count_cons q p os in
      rw (put_here p x os e)
        (omega (arith, a, d), λ n. let k = count_out q p os n in omega (arith, a, k))
  | inr e ↦
      let (a, b) = count-put_order q p os in
      rw (put_later p x os e) (elim (Bool-cases (q x)) [
        | inl f ↦
            let k = count_in q x os f in
            let l = count_in q x (put_order p os) f in
            (omega (arith, a, k, l), λ n. let m = b n in omega (arith, m, k, l))
        | inr f ↦
            let k = count_out q x os f in
            let l = count_out q x (put_order p os) f in
            (omega (arith, a, k, l), λ n. let m = b n in omega (arith, m, k, l))
      ])
]

found :
    (q : Order → Bool) (p o : Order) (os : List Order)
    → find_order p.id os ≡ some o
    → q o ≡ true
    → count q (put_order p os) ≤ count q os
found q p o [] h k = let l = sym (find_nothing p.id) ∙ h in ground (arith, l)
found q p o (x ∷ os) h k = elim (Bool-cases (text_eq p.id x.id)) [
  | inl e ↦
      let same = of_some (sym (find_here p.id x os e) ∙ h) in
      let (c, d) = count_cons q p os in
      let l = count_in q x os (ap q same ∙ k) in rw (put_here p x os e) (omega (arith, d, l))
  | inr e ↦
      let a = found q p o os (sym (find_later p.id x os e) ∙ h) k in
      rw (put_later p x os e) (elim (Bool-cases (q x)) [
        | inl f ↦
            let l = count_in q x os f in
            let m = count_in q x (put_order p os) f in omega (arith, a, l, m)
        | inr f ↦
            let l = count_out q x os f in
            let m = count_out q x (put_order p os) f in omega (arith, a, l, m)
      ])
]

-- An order that counted and is changed does not count twice.
pub count-put_order_found :
    (q : Order → Bool) (p o : Order) (os : List Order)
    → find_order p.id os ≡ some o
    → (q p ≡ true → q o ≡ true)
    → count q (put_order p os) ≤ count q os
count-put_order_found q p o os h k = elim (Bool-cases (q p)) [
  | inr n ↦ (count-put_order q p os).1 n
  | inl y ↦ found q p o os h (k y)
]
