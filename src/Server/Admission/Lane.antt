-- ===== src/Server/Admission/Lane.antt =====
-- Who reaches the reserved lanes (`admissionLane` of server/src/admission.ts).
use quanta_swap.Prelude.{
  ℕ, ◌<◌, ◌≡◌, ◌≢◌, refl, sym, ap, ◌∙◌, inl, inr, Bool, true, false, not, Option, none, some, [],
  ◌∷◌, ◌++◌, arith, Text, codes, length, ◌==◌, if◌then◌else◌, if_true, if_false, on_option,
  &&_parts, ==_iff, Bool-cases, of_some,
}
use quanta_swap.Server.Admission.{
  AdmissionLane, maker, signed_create, taker, strip_prefix, split_slash, is_maker_action,
  maker_order_id, admission_lane,
}

on_option_parts {ℓ κ} :
    {A : Type ℓ} {B : Type κ} (o : Option A) (d : B) (f : A → B) {b : B}
    → d ≢ b
    → on_option o d f ≡ b
    → (a : A) × (o ≡ some a) × (f a ≡ b)
on_option_parts none d f n h = absurd (n h)
on_option_parts (some a) d f n h = (a, refl, h)

none_ne_some {ℓ} : {A : Type ℓ} (a : A) → none ≢ some a
none_ne_some a h = ground (arith, h)

taker_ne_maker : taker ≢ maker
taker_ne_maker h = ground (arith, h)

strip_prefix-append :
    (prefix path rest : Text) → strip_prefix prefix path ≡ some rest → path ≡ prefix ++ rest
unfolding strip_prefix
strip_prefix-append [] path rest h = of_some h
strip_prefix-append (p ∷ prefix) [] rest h = ground (arith, h)
strip_prefix-append (p ∷ prefix) (c ∷ path) rest h = elim (Bool-cases (p == c)) [
  | inl e ↦
      let tail = strip_prefix-append prefix path rest (sym (if_true _ _ _ e) ∙ h) in
      ap (λ x. x ∷ path) (sym ((==_iff p c).0 e)) ∙ ap (λ xs. p ∷ xs) tail
  | inr e ↦ absurd (none_ne_some rest (sym (if_false _ _ _ e) ∙ h))
]

split_slash-append :
    (s : Text) (parts : Text × Text) → split_slash s ≡ some parts → s ≡ parts.0 ++ (b'/' ∷ parts.1)
unfolding split_slash
split_slash-append [] parts h = ground (arith, h)
split_slash-append (c ∷ s) parts h = elim (Bool-cases (c == b'/')) [
  | inl e ↦
      let here : ([], s) ≡ parts = of_some (sym (if_true _ _ _ e) ∙ h) in
      ap (λ x. x ∷ s) ((==_iff c b'/').0 e) ∙ ap (λ (q : Text × Text). q.0 ++ (b'/' ∷ q.1)) here
  | inr e ↦
      let (rest, found, same) =
        on_option_parts (split_slash s) none _ (none_ne_some parts) (sym (if_false _ _ _ e) ∙ h) in
      ap (λ xs. c ∷ xs) (split_slash-append s rest found)
      ∙ ap (λ (q : Text × Text). q.0 ++ (b'/' ∷ q.1)) (of_some same)
]

-- A request that a maker may make: the path names an order and one of the maker's actions, and the
-- presented token matches the order's capability.
pub record IsCapable (path : Text) (token : Option Text) (matches : Text → Text → Bool)
    : Type 0 where
  pub id : Text
  pub action : Text
  pub presented : Text
  pub names_order : path ≡ codes "/api/orders/" ++ (id ++ (b'/' ∷ action))
  pub not_empty : 0 < length id
  pub maker_action : is_maker_action action ≡ true
  pub has_token : token ≡ some presented
  pub capable : matches id presented ≡ true

nonempty : (n : ℕ) → not (n == 0) ≡ true → 0 < n
nonempty n h = ground arith

guarded : (b : Bool) (id a : Text) → (if b then some id else none) ≡ some a → (b ≡ true) × (id ≡ a)
guarded true id a h = (refl, of_some h)
guarded false id a h = absurd (none_ne_some a h)

maker_order_id_parts :
    (path id : Text)
    → maker_order_id path ≡ some id
    → (action : Text) × (path ≡ codes "/api/orders/" ++ (id ++ (b'/' ∷ action)))
      × (0 < length id)
      × (is_maker_action action ≡ true)
unfolding maker_order_id
maker_order_id_parts path id h =
    let (rest, p, h1) =
      on_option_parts (strip_prefix (codes "/api/orders/") path) none _ (none_ne_some id) h in
    let (parts, q, h2) = on_option_parts (split_slash rest) none _ (none_ne_some id) h1 in
    let (t, e) = guarded _ parts.0 id h2 in
    let (n, m) = &&_parts _ _ t in
    (
      parts.1,
      strip_prefix-append (codes "/api/orders/") path rest p
          ∙ ap (λ r. codes "/api/orders/" ++ r)
              (split_slash-append rest parts q ∙ ap (λ a. a ++ (b'/' ∷ parts.1)) e),
      nonempty (length id) (rw (sym e) n),
      m,
    )

not_signed :
    (b : Bool) (rest : AdmissionLane) → (if b then signed_create else rest) ≡ maker → rest ≡ maker
not_signed true rest h = ground (arith, h)
not_signed false rest h = h

is_capable : (b : Bool) → (if b then maker else taker) ≡ maker → b ≡ true
is_capable true h = refl
is_capable false h = ground (arith, h)

-- A request reaches the makers' lane only if its path names an order and one of the maker's actions
-- on it, and it presents a token that matches that order's capability: naming a maker's route is
-- not enough.
pub admission_lane-IsCapable :
    (path : Text) (token : Option Text) (matches : Text → Text → Bool)
    → admission_lane path token matches ≡ maker
    → IsCapable path token matches
unfolding admission_lane
admission_lane-IsCapable path token matches h =
    let (id, p, h1) =
      on_option_parts (maker_order_id path) taker _ taker_ne_maker (not_signed _ _ h) in
    let (presented, q, h2) = on_option_parts token taker _ taker_ne_maker h1 in
    let (action, e, n, m) = maker_order_id_parts path id p in
    record {
      id = id;
      action = action;
      presented = presented;
      names_order = e;
      not_empty = n;
      maker_action = m;
      has_token = q;
      capable = is_capable (matches id presented) h2;
    }
