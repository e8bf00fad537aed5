-- ===== src/Server/Proposals/Room.antt =====
-- Which proposal gives way to a new one (the eviction of `storeFillIntent` in server/src/store.ts).
use Prim.Native.Nat.{Ordering}
use quanta_swap.Prelude.{
  ℕ, ◌+◌, ◌≤◌, ◌<◌, ◌≡◌, ◌≢◌, refl, sym, ap, ◌∙◌, inl, inr, Bool, true, false, not, ◌&&◌, ◌||◌,
  Option, none, some, List, [], ◌∷◌, ◌++◌, Text, text_eq, text_eq→eq, text_eq_refl, text_eq_sym,
  ltb, leb, leb→le, arith, All, if_false, if_true, Bool-cases, Option-cases, of_some, length,
  filter_by, sort_by, insert_sorted, is_gt, on_option, All-filter_by, All-sort_by,
}
use quanta_swap.Server.Store.{StoredFillIntent}
use quanta_swap.Server.Takes.Match.{first}
use quanta_swap.Server.Takes.Best.{first_all}
use quanta_swap.Server.Proposals.{
  VerifiedFillIntent, is_live, has_nonce, live_intent_count, remove_intent, is_evictable,
  eviction_order, candidate_for, make_room,
}

-- No nonce occurs twice among the proposals of an order.
abbrev pub IsNonceDistinct : List StoredFillIntent → Type 0
IsNonceDistinct [] = Unit
IsNonceDistinct (i ∷ is) = (has_nonce i.nonce is ≡ false) × IsNonceDistinct is

some_first :
    (order : StoredFillIntent → StoredFillIntent → Ordering) (x : StoredFillIntent)
    (ys : List StoredFillIntent)
    → (a : StoredFillIntent) × (first (insert_sorted order x ys) ≡ some a)
unfolding insert_sorted
some_first order x [] = (x, refl)
some_first order x (y ∷ ys) = elim (Bool-cases (is_gt (order x y))) [
  | inl e ↦ (y, rw e refl)
  | inr e ↦ (x, rw e refl)
]

some_sorted :
    (order : StoredFillIntent → StoredFillIntent → Ordering) (xs : List StoredFillIntent)
    → 0 < length xs
    → (a : StoredFillIntent) × (first (sort_by order xs) ≡ some a)
unfolding sort_by
some_sorted order [] h = ground (arith, h)
some_sorted order (x ∷ xs) h = some_first order x (sort_by order xs)

-- A live proposal may displace every one that is not live.
split_live :
    (now : ℕ) (v : VerifiedFillIntent) (is : List StoredFillIntent)
    → ltb now v.expires_at ≡ true
    → length (filter_by (is_evictable now v) is) + live_intent_count is now ≡ length is
split_live now v [] h = refl
split_live now v (i ∷ is) h = elim (Bool-cases (is_live now i)) [
  | inl e ↦ rw e (let k = split_live now v is h in omega (arith, k))
  | inr e ↦ rw (e, h) (let k = split_live now v is h in omega (arith, k))
]

room_enough :
    (now : ℕ) (v : VerifiedFillIntent) (is : List StoredFillIntent)
    → leb 8 (length is) ≡ false
    → make_room now v is ≡ some is
unfolding make_room
room_enough now v is h = if_false _ _ _ h

room_by :
    (now : ℕ) (v : VerifiedFillIntent) (is : List StoredFillIntent) (c : StoredFillIntent)
    → leb 8 (length is) ≡ true
    → candidate_for now v is ≡ some c
    → make_room now v is ≡ some (remove_intent c is)
unfolding make_room
room_by now v is c h e =
    if_true _ _ _ h
    ∙ ap (λ (o : Option StoredFillIntent). on_option o none (λ c. some (remove_intent c is))) e

room_none :
    (now : ℕ) (v : VerifiedFillIntent) (is : List StoredFillIntent)
    → leb 8 (length is) ≡ true
    → candidate_for now v is ≡ none
    → make_room now v is ≡ none
unfolding make_room
room_none now v is h e =
    if_true _ _ _ h
    ∙ ap (λ (o : Option StoredFillIntent). on_option o none (λ c. some (remove_intent c is))) e

some_candidate :
    (now : ℕ) (v : VerifiedFillIntent) (is : List StoredFillIntent)
    → 0 < length (filter_by (is_evictable now v) is)
    → (c : StoredFillIntent) × (candidate_for now v is ≡ some c)
unfolding candidate_for
some_candidate now v is h = some_sorted eviction_order _ h

-- A live proposal always finds room while fewer than eight are live: a full set then holds one that
-- is not live.
pub make_room-some :
    (now : ℕ) (v : VerifiedFillIntent) (is : List StoredFillIntent)
    → ltb now v.expires_at ≡ true
    → live_intent_count is now < 8
    → (room : List StoredFillIntent) × (make_room now v is ≡ some room)
make_room-some now v is live few = elim (Bool-cases (leb 8 (length is))) [
  | inr e ↦ (is, room_enough now v is e)
  | inl e ↦
      let k = split_live now v is live in
      let full = leb→le _ _ e in
      let (c, found) = some_candidate now v is (omega (arith, k, full, few)) in
      (remove_intent c is, room_by now v is c e found)
]

none_of : (a b : Bool) → a ≡ false → b ≡ false → (a || b) ≡ false
none_of a b h k = ground arith

neither : (a b : Bool) → (a || b) ≡ false → (a ≡ false) × (b ≡ false)
neither a b h = ground arith

either : (a b : Bool) → b ≡ true → (a || b) ≡ true
either a b h = ground arith

rest_has : (a b : Bool) → a ≡ false → (a || b) ≡ true → b ≡ true
rest_has a b h k = ground arith

clash : (b : Bool) → b ≡ true → b ≢ false
clash b h k = ground (arith, h, k)

same_nonce :
    (n : Text) (i : StoredFillIntent) (is : List StoredFillIntent)
    → has_nonce n (i ∷ is) ≡ false
    → (text_eq i.nonce n ≡ false) × (has_nonce n is ≡ false)
unfolding has_nonce
same_nonce n i is h = neither _ _ h

-- A proposal that is evicted, in a set where it is the only one of its nonce.
module _ (now : ℕ) where
  abbrev IsAlone : List StoredFillIntent → StoredFillIntent → Type 0
  IsAlone is c =
      (has_nonce c.nonce is ≡ true)
      × All
          (λ (i : StoredFillIntent). text_eq i.nonce c.nonce ≡ true → is_live now i ≡ is_live now c)
          is

  others :
      (c : StoredFillIntent) (is : List StoredFillIntent)
      → has_nonce c.nonce is ≡ false
      → All
          (λ (i : StoredFillIntent). text_eq i.nonce c.nonce ≡ true → is_live now i ≡ is_live now c)
          is
  others c [] h = tt
  others c (i ∷ is) h =
      let (a, b) = same_nonce c.nonce i is h in (λ e. absurd (clash _ e a), others c is b)

  IsAlone-later :
      (i : StoredFillIntent) (is cs : List StoredFillIntent)
      → has_nonce i.nonce is ≡ false
      → All (IsAlone is) cs
      → All (IsAlone (i ∷ is)) cs
  unfolding has_nonce
  IsAlone-later i is [] h k = tt
  IsAlone-later i is (c ∷ cs) h k = (
    (
      either _ _ k.0.0,
      (
        λ e. absurd (clash _ (ap (λ n. has_nonce n is) (text_eq→eq i.nonce c.nonce e) ∙ k.0.0) h),
        k.0.1,
      ),
    ),
    IsAlone-later i is cs h k.1,
  )

  all-IsAlone : (is : List StoredFillIntent) → IsNonceDistinct is → All (IsAlone is) is
  unfolding has_nonce
  all-IsAlone [] h = tt
  all-IsAlone (i ∷ is) h = (
    (ap (λ b. b || has_nonce i.nonce is) (text_eq_refl i.nonce), (λ _. refl, others i is h.0)),
    IsAlone-later i is is h.0 (all-IsAlone is h.1),
  )

  removed_here :
      (c i : StoredFillIntent) (is : List StoredFillIntent)
      → text_eq i.nonce c.nonce ≡ true
      → remove_intent c (i ∷ is) ≡ is
  unfolding remove_intent
  removed_here c i is h = if_true _ _ _ h

  removed_later :
      (c i : StoredFillIntent) (is : List StoredFillIntent)
      → text_eq i.nonce c.nonce ≡ false
      → remove_intent c (i ∷ is) ≡ i ∷ remove_intent c is
  unfolding remove_intent
  removed_later c i is h = if_false _ _ _ h

  -- The set is one shorter, and every live proposal stays in its place.
  removed :
      (c : StoredFillIntent) (is : List StoredFillIntent)
      → is_live now c ≡ false
      → IsAlone is c
      → (length (remove_intent c is) + 1 ≡ length is)
        × (filter_by (is_live now) (remove_intent c is) ≡ filter_by (is_live now) is)
  unfolding has_nonce
  removed c [] h k = ground (arith, k)
  removed c (i ∷ is) h k = elim (Bool-cases (text_eq i.nonce c.nonce)) [
    | inl e ↦ let dead = k.1.0 e ∙ h in rw (removed_here c i is e) (omega arith, rw dead refl)
    | inr e ↦
        let (a, b) = removed c is h (rest_has _ _ e k.0, k.1.1) in
        rw (removed_later c i is e) (
          omega (arith, a),
          elim (Bool-cases (is_live now i)) [ inl l ↦ rw l (ap (λ t. i ∷ t) b) | inr l ↦ rw l b ],
        )
  ]

candidate-IsAlone :
    (now : ℕ) (v : VerifiedFillIntent) (is : List StoredFillIntent) (c : StoredFillIntent)
    → IsNonceDistinct is
    → candidate_for now v is ≡ some c
    → (is_evictable now v c ≡ true) × IsAlone now is c
unfolding candidate_for
candidate-IsAlone now v is c d e =
    let Both : StoredFillIntent → Type 0 = λ i. (is_evictable now v i ≡ true) × IsAlone now is i in
    first_all Both _ c e (
      All-sort_by eviction_order Both _
        (All-filter_by (is_evictable now v) (IsAlone now is) is (all-IsAlone now is d)))

evictable_dead : (live more : Bool) → (not live && more) ≡ true → live ≡ false
evictable_dead live more h = ground arith

-- What an eviction leaves of a set of at most eight: fewer than eight, with every live proposal.
pub make_room-keeps :
    (now : ℕ) (v : VerifiedFillIntent) (is room : List StoredFillIntent)
    → length is ≤ 8
    → IsNonceDistinct is
    → make_room now v is ≡ some room
    → (length room < 8) × (filter_by (is_live now) room ≡ filter_by (is_live now) is)
make_room-keeps now v is room few d e = elim (Bool-cases (leb 8 (length is))) [
  | inr f ↦
      let same = of_some (sym (room_enough now v is f) ∙ e) in
      rw (sym same) (ground (arith, f), refl)
  | inl f ↦ elim (Option-cases (candidate_for now v is)) [
    | inl n ↦ let k = sym (room_none now v is f n) ∙ e in ground (arith, k)
    | inr (c, found) ↦
        let (out, alone) = candidate-IsAlone now v is c d found in
        let (a, b) = removed now c is (evictable_dead _ _ out) alone in
        let same = of_some (sym (room_by now v is c f found) ∙ e) in
        rw (sym same) (omega (arith, few, a), b)
  ]
]

missing_removed :
    (n : Text) (c : StoredFillIntent) (is : List StoredFillIntent)
    → has_nonce n is ≡ false
    → has_nonce n (remove_intent c is) ≡ false
unfolding has_nonce remove_intent
missing_removed n c [] h = h
missing_removed n c (i ∷ is) h = elim (Bool-cases (text_eq i.nonce c.nonce)) [
  | inl e ↦ rw (removed_here 0 c i is e) ((neither _ _ h).1)
  | inr e ↦
      let (a, b) = neither _ _ h in
      rw (removed_later 0 c i is e) (none_of _ _ a (missing_removed n c is b))
]

removed-IsNonceDistinct :
    (c : StoredFillIntent) (is : List StoredFillIntent)
    → IsNonceDistinct is
    → IsNonceDistinct (remove_intent c is)
unfolding remove_intent
removed-IsNonceDistinct c [] h = tt
removed-IsNonceDistinct c (i ∷ is) h = elim (Bool-cases (text_eq i.nonce c.nonce)) [
  | inl e ↦ rw (removed_here 0 c i is e) h.1
  | inr e ↦
      rw (removed_later 0 c i is e)
        (missing_removed i.nonce c is h.0, removed-IsNonceDistinct c is h.1)
]

pub make_room-IsNonceDistinct :
    (now : ℕ) (v : VerifiedFillIntent) (is room : List StoredFillIntent)
    → IsNonceDistinct is
    → has_nonce v.nonce is ≡ false
    → make_room now v is ≡ some room
    → IsNonceDistinct room × (has_nonce v.nonce room ≡ false)
make_room-IsNonceDistinct now v is room d h e = elim (Bool-cases (leb 8 (length is))) [
  | inr f ↦ rw (sym (of_some (sym (room_enough now v is f) ∙ e))) (d, h)
  | inl f ↦ elim (Option-cases (candidate_for now v is)) [
    | inl n ↦ let k = sym (room_none now v is f n) ∙ e in ground (arith, k)
    | inr (c, found) ↦
        rw (sym (of_some (sym (room_by now v is c f found) ∙ e)))
          (removed-IsNonceDistinct c is d, missing_removed v.nonce c is h)
  ]
]

missing_last :
    (n : Text) (is : List StoredFillIntent) (new : StoredFillIntent)
    → has_nonce n is ≡ false
    → text_eq new.nonce n ≡ false
    → has_nonce n (is ++ new ∷ []) ≡ false
unfolding has_nonce
missing_last n [] new h k = none_of _ _ k refl
missing_last n (i ∷ is) new h k =
    let (a, b) = neither _ _ h in none_of _ _ a (missing_last n is new b k)

pub last-IsNonceDistinct :
    (is : List StoredFillIntent) (new : StoredFillIntent)
    → IsNonceDistinct is
    → has_nonce new.nonce is ≡ false
    → IsNonceDistinct (is ++ new ∷ [])
unfolding has_nonce
last-IsNonceDistinct [] new d h = (refl, tt)
last-IsNonceDistinct (i ∷ is) new d h =
    let (a, b) = neither _ _ h in
    (
      missing_last i.nonce is new d.0 (text_eq_sym new.nonce i.nonce ∙ a),
      last-IsNonceDistinct is new d.1 b,
    )
