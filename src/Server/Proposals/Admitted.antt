-- ===== src/Server/Proposals/Admitted.antt =====
-- What the store does with a proposal (`storeFillIntent` of server/src/store.ts).
use quanta_swap.Prelude.{
  ℕ, ◌≤◌, ◌<◌, ◌≡◌, ◌≢◌, refl, sym, ap, ◌∙◌, ◌⊎◌, inl, inr, Bool, true, false, not, ◌&&◌, none,
  some, List, [], ◌∷◌, ◌++◌, Text, ltb, leb, arith, if_either, option_cases, length, length-append,
  if◌then◌else◌, filter_by, or_else,
}
use quanta_swap.Server.Wire.{
  ApiError, nonce_conflict, already_pending, requests_in_progress, daily_intents, too_many_pending,
  too_many_retained,
}
use quanta_swap.Server.Store.{StoredFillIntent, Order, OrderStore}
use quanta_swap.Server.Store.Sweep.{prune_orders}
use quanta_swap.Server.Takes.{Answer, refused, proposed, put_order, save}
use quanta_swap.Server.Takes.Answers.{require_cases}
use quanta_swap.Server.Proposals.{
  VerifiedFillIntent, is_live, find_intent, admissions_of, has_nonce, live_intent_count,
  recent_intent_admissions, record_source, record_intent_admission, make_room, stored_intent,
  proposed_order, admit, admit_direct, store_fill_intent,
}
use quanta_swap.Server.Proposals.Room.{
  IsNonceDistinct, make_room-some, make_room-keeps, make_room-IsNonceDistinct, last-IsNonceDistinct,
}

-- The proposals after a new one: at most eight, no nonce twice, every live one in its place, and
-- the new one at the end.
pub record IsFair (now : ℕ) (new : StoredFillIntent) (before after : List StoredFillIntent)
    : Type 0 where
  pub room : List StoredFillIntent
  pub last : after ≡ room ++ new ∷ []
  pub bounded : length after ≤ 8
  pub distinct : IsNonceDistinct after
  pub kept : filter_by (is_live now) room ≡ filter_by (is_live now) before

abbrev pub IsRefusal : Answer → Type 0
IsRefusal a = (e : ApiError) × (a.1 ≡ refused e)

-- A proposal of this digest is stored already, and is answered.
abbrev pub IsRepeat : StoredFillIntent → Order → Answer → Type 0
IsRepeat new order a =
    (i : StoredFillIntent) × (find_intent new.intent_digest (or_else order.fill_intents [])
      ≡ some i)
    × (a.1 ≡ proposed i)

-- In the store after the answer the order has the new proposal.
abbrev pub HasNew : ℕ → StoredFillIntent → Order → OrderStore → OrderStore → Type 0
HasNew now new order s t =
    (is : List StoredFillIntent) × (t.orders
      ≡ put_order (record order { fill_intents = some is; updated_at = now }) s.orders)
    × IsFair now new (or_else order.fill_intents []) is

-- A refused proposal, and one that was there before, leaves the orders as they were. Otherwise the
-- answer is the new proposal, and the order has it. A live proposal is not refused for the proposals
-- that are retained.
pub record IsAdmission (now : ℕ) (live : Bool) (new : StoredFillIntent) (order : Order)
    (s : OrderStore) (a : Answer) : Type 0 where
  pub orders :
      ((IsRefusal a ⊎ IsRepeat new order a) × (a.0.orders ≡ s.orders))
      ⊎ ((a.1 ≡ proposed new)
          × (find_intent new.intent_digest (or_else order.fill_intents []) ≡ none)
          × HasNew now new order s a.0)
  pub finds_room : live ≡ true → a.1 ≢ refused too_many_retained

source_orders : (ip : Text) (at : ℕ) (s : OrderStore) → (record_source ip at s).orders ≡ s.orders
unfolding record_source
source_orders ip at s =
    if_either (λ (t : OrderStore). t.orders ≡ s.orders) _ _ _
      (prune_orders at (record s { admissions_pruned_at = 0 })) refl

record_orders :
    (ip : Text) (at : ℕ) (s : OrderStore) → (record_intent_admission ip at s).orders ≡ s.orders
unfolding record_intent_admission
record_orders ip at s =
    option_cases (λ (t : OrderStore). t.orders ≡ s.orders) (admissions_of ip s.intent_admissions)
      (record_source ip at s) _ (λ _. source_orders ip at s) (λ _ _. refl)

saved_orders : (o : Order) (s : OrderStore) → (save o s).orders ≡ put_order o s.orders
unfolding save
saved_orders o s = refl

recent_orders :
    (ip : Text) (now : ℕ) (s : OrderStore) → (recent_intent_admissions ip now s).0.orders ≡ s.orders
unfolding recent_intent_admissions
recent_orders ip now s = refl

proposed_ne : (i : StoredFillIntent) → proposed i ≢ refused too_many_retained
proposed_ne i h = ground (arith, h)

error_of : {a b : ApiError} → refused a ≡ refused b → a ≡ b
error_of h = cc

none_ne : {a : List StoredFillIntent} → none ≢ some a
none_ne h = ground (arith, h)

other_ne : (e : ApiError) → e ≢ too_many_retained → refused e ≢ refused too_many_retained
other_ne e n h = n (error_of h)

not-true : (a : Bool) → not a ≡ true → a ≡ false
not-true a h = ground arith

uncrowded : (a : Bool) (n : ℕ) → a ≡ true → not (a && leb 8 n) ≡ true → n < 8
uncrowded a n h k = ground arith

module _ (now : ℕ) (mine : Text) (federated : Bool) (v : VerifiedFillIntent) (order : Order)
    (s : OrderStore) where
  abbrev intents : List StoredFillIntent
  intents = or_else order.fill_intents []

  abbrev new : StoredFillIntent
  new = stored_intent now mine federated v

  abbrev Admits : Answer → Type 0
  Admits = IsAdmission now (ltb now v.expires_at) new order s

  leaves :
      (t : OrderStore) (e : ApiError)
      → t.orders ≡ s.orders
      → e ≢ too_many_retained
      → Admits (t, refused e)
  leaves t e h n = record { orders = inl (inl (e, refl), h); finds_room = λ _. other_ne e n }

  module _ (few : length intents ≤ 8) (distinct : IsNonceDistinct intents)
      (fresh : has_nonce v.nonce intents ≡ false)
      (absent : find_intent v.intent_digest intents ≡ none) where
    fair :
        (room : List StoredFillIntent)
        → make_room now v intents ≡ some room
        → IsFair now new intents (room ++ new ∷ [])
    fair room e =
        let (a, b) = make_room-keeps now v intents room few distinct e in
        let (c, d) = make_room-IsNonceDistinct now v intents room distinct fresh e in
        record {
          room = room;
          last = refl;
          bounded = omega (arith, a, length-append room (new ∷ []));
          distinct = last-IsNonceDistinct room new c d;
          kept = b;
        }

    -- The store that the proposal is put in has the orders of the one before.
    admit-IsAdmission :
        (t : OrderStore)
        → t.orders ≡ s.orders
        → (ltb now v.expires_at ≡ true → live_intent_count intents now < 8)
        → Admits (admit now mine federated v order t)
    unfolding admit
    admit-IsAdmission t same room_left =
        option_cases Admits (make_room now v intents) (t, refused too_many_retained) _
          (λ n. record {
            orders = inl (inl (too_many_retained, refl), same);
            finds_room = λ l.
                let (room, e) = make_room-some now v intents l (room_left l) in
                absurd (none_ne (sym n ∙ e));
          })
          (λ room e.
            let u = if federated then t else record_intent_admission mine now t in
            let kept =
              if_either (λ (w : OrderStore). w.orders ≡ t.orders) federated t _ refl
                (record_orders mine now t) in
            record {
              orders = inr (
                refl,
                absent,
                (
                  room ++ new ∷ [],
                  saved_orders (proposed_order now mine federated v order room) u
                      ∙ ap (put_order (proposed_order now mine federated v order room))
                          (kept ∙ same),
                  fair room e,
                ),
              );
              finds_room = λ _. proposed_ne new;
            })

    admit_direct-IsAdmission :
        (ltb now v.expires_at ≡ true → live_intent_count intents now < 8)
        → Admits (admit_direct now mine federated v order s)
    unfolding admit_direct
    admit_direct-IsAdmission room_left =
        let r = recent_intent_admissions mine now s in
        let same = recent_orders mine now s in
        require_cases Admits _ _ s _ (leaves s already_pending refl (λ h. ground (arith, h))) (λ _.
          require_cases Admits _ _ s _ (leaves s requests_in_progress refl (λ h. ground (arith, h)))
            (λ _.
              require_cases Admits _ _ r.0 _
                (leaves r.0 daily_intents same (λ h. ground (arith, h)))
                (λ _. admit-IsAdmission r.0 same room_left)))

-- Of an order with at most eight proposals and no nonce twice. A proposal, direct or from another
-- book, is refused, or its digest was there before and the stored one is answered, and then the
-- orders stay as they were; or the new one is answered and is the last of the order's proposals,
-- which are again at most eight with no nonce twice, and every live one of before is still there in
-- its order, because only one that has run out gives way. A proposal that has not run out is never
-- refused for the number of proposals that are retained.
pub store_fill_intent-IsAdmission :
    (now : ℕ) (mine : Text) (federated : Bool) (v : VerifiedFillIntent) (order : Order)
    (s : OrderStore)
    → length (or_else order.fill_intents []) ≤ 8
    → IsNonceDistinct (or_else order.fill_intents [])
    → IsAdmission now
        (ltb now v.expires_at)
        (stored_intent now mine federated v)
        order
        s
        (store_fill_intent now mine federated v order s)
unfolding store_fill_intent
store_fill_intent-IsAdmission now mine federated v order s few distinct =
    let is = or_else order.fill_intents [] in
    let P = Admits now mine federated v order s in
    option_cases P (find_intent v.intent_digest is) _ _
      (λ absent.
        require_cases P _ _ s _
          (leaves now mine federated v order s s nonce_conflict refl (λ h. ground (arith, h)))
          (λ n.
            require_cases P _ _ s _
              (leaves now mine federated v order s s too_many_pending refl (λ h. ground (arith, h)))
              (λ c.
                let fresh = not-true _ n in
                let room_left = λ (l : ltb now v.expires_at ≡ true). uncrowded _ _ l c in
                if_either P federated _ _
                  (admit-IsAdmission now mine federated v order s few distinct fresh absent s refl
                    room_left)
                  (admit_direct-IsAdmission now mine federated v order s few distinct fresh absent
                    room_left))))
      (λ i e. record { orders = inl (inr (i, e, refl), refl); finds_room = λ _. proposed_ne i })
