-- ===== src/Server/Proposals/Shed.antt =====
-- The tests before the check of a signature repeat tests after it (`shedFillIntent` of
-- server/src/store.ts).
use quanta_swap.Prelude.{
  ℕ, ◌≡◌, ◌≢◌, refl, sym, ap, ◌∙◌, inl, inr, Bool, true, false, not, ◌&&◌, ◌||◌, Option, none, some,
  List, [], ◌∷◌, Text, text_eq, ltb, leb, arith, All, if_false, if_true, or_else, option_cases,
  Bool-cases, length,
}
use quanta_swap.Server.Wire.{
  ApiError, nonce_conflict, already_pending, requests_in_progress, daily_intents, too_many_pending,
  not_open, from_future, short_runway,
}
use quanta_swap.Server.Store.{StoredFillIntent, Order, OrderStore, is_open, has_runway}
use quanta_swap.Server.Takes.{Answer, refused}
use quanta_swap.Server.Takes.Answers.{require_cases}
use quanta_swap.Server.Proposals.{
  VerifiedFillIntent, find_intent, has_nonce, live_intent_count, source_live_intent_count,
  recent_intent_admissions, shed_fill_intent, store_fill_intent, submit_verified, admit_direct,
}

-- A refusal, whatever the error.
pub record IsRefused (a : Answer) : Type 0 where
  pub error : ApiError
  pub refuses : a.1 ≡ refused error

refusal : (s : OrderStore) (e : ApiError) → IsRefused (s, refused e)
refusal s e = record { error = e; refuses = refl }

-- A digest covers the nonce: a stored proposal of the same digest has the same nonce.
abbrev pub DigestsBind : VerifiedFillIntent → List StoredFillIntent → Type 0
DigestsBind v = All (λ (i : StoredFillIntent).
    text_eq i.intent_digest v.intent_digest ≡ true → text_eq i.nonce v.nonce ≡ true)

either : (a b : Bool) → b ≡ true → (a || b) ≡ true
either a b h = ground arith

found_here :
    (d : Text) (i : StoredFillIntent) (is : List StoredFillIntent)
    → text_eq i.intent_digest d ≡ false
    → find_intent d (i ∷ is) ≡ find_intent d is
unfolding find_intent
found_here d i is h = if_false _ _ _ h

found_none : (d : Text) → find_intent d [] ≡ none
unfolding find_intent
found_none d = refl

replay-has_nonce :
    (v : VerifiedFillIntent) (is : List StoredFillIntent) (i : StoredFillIntent)
    → DigestsBind v is
    → find_intent v.intent_digest is ≡ some i
    → has_nonce v.nonce is ≡ true
unfolding has_nonce
replay-has_nonce v [] i h e = let k = sym (found_none v.intent_digest) ∙ e in ground (arith, k)
replay-has_nonce v (x ∷ is) i h e = elim (Bool-cases (text_eq x.intent_digest v.intent_digest)) [
  | inl t ↦ let n = h.0 t in rw n refl
  | inr f ↦ either _ _ (replay-has_nonce v is i h.1 (sym (found_here v.intent_digest x is f) ∙ e))
]

open_again : (a b : Bool) → (a && not b) ≡ true → (not a || b) ≡ false
open_again a b h = ground arith

negated : (a : Bool) → a ≡ true → not a ≡ false
negated a h = ground arith

below : (m n : ℕ) → ltb n m ≡ true → leb m n ≡ false
below m n h = ground arith

uncrowded : (a b : Bool) → a ≡ true → not (a && b) ≡ true → b ≡ false
uncrowded a b h k = ground arith

module _ (now : ℕ) (mine : Text) (order : Order) (v : VerifiedFillIntent) (s : OrderStore) where
  abbrev intents : List StoredFillIntent
  intents = or_else order.fill_intents []

  abbrev sheds : OrderStore × Option ApiError
  sheds = shed_fill_intent now mine (some v.nonce) order s

  claimed_passes : has_nonce v.nonce intents ≡ true → sheds.1 ≡ none
  unfolding shed_fill_intent
  claimed_passes h = ap (λ (r : OrderStore × Option ApiError). r.1) (if_true _ _ _ h)

  clear_passes :
      has_nonce v.nonce intents ≡ false
      → (not (is_open order.status) || order.equivocated) ≡ false
      → not (has_runway order now) ≡ false
      → leb 8 (live_intent_count intents now) ≡ false
      → leb 4 (source_live_intent_count mine now s.orders) ≡ false
      → leb 24 (length (recent_intent_admissions mine now s).1) ≡ false
      → sheds.1 ≡ none
  unfolding shed_fill_intent
  clear_passes a b c d e f =
      ap (λ (r : OrderStore × Option ApiError). r.1)
        (if_false _ _ _ a
          ∙ if_false _ _ _ b
          ∙ if_false _ _ _ c
          ∙ if_false _ _ _ d
          ∙ if_false _ _ _ e
          ∙ if_false _ _ _ f)

  module _ (live : ltb now v.expires_at ≡ true) (bound : DigestsBind v intents) (e : ApiError)
      (shed : sheds.1 ≡ some e) where
    passes_not : sheds.1 ≢ none
    passes_not h = let k = sym shed ∙ h in ground (arith, k)

    unclaimed : has_nonce v.nonce intents ≡ false
    unclaimed = elim (Bool-cases (has_nonce v.nonce intents)) [
      | inl h ↦ absurd (passes_not (claimed_passes h))
      | inr h ↦ h
    ]

    no_replay : (i : StoredFillIntent) → find_intent v.intent_digest intents ≢ some i
    no_replay i h = passes_not (claimed_passes (replay-has_nonce v intents i bound h))

    direct_refuses :
        (is_open order.status && not order.equivocated) ≡ true
        → has_runway order now ≡ true
        → leb 8 (live_intent_count intents now) ≡ false
        → IsRefused (admit_direct now mine false v order s)
    unfolding admit_direct
    direct_refuses a b c = require_cases IsRefused _ _ s _ (refusal s already_pending) (λ _.
        require_cases IsRefused _ _ s _ (refusal s requests_in_progress) (λ f.
          require_cases IsRefused _ _ (recent_intent_admissions mine now s).0 _
            (refusal _ daily_intents)
            (λ g. absurd (
              passes_not (
                clear_passes unclaimed (open_again _ _ a) (negated _ b) c (below 4 _ f)
                  (below 24 _ g))))))

    store_refuses :
        (is_open order.status && not order.equivocated) ≡ true
        → has_runway order now ≡ true
        → IsRefused (store_fill_intent now mine false v order s)
    unfolding store_fill_intent
    store_refuses a b =
        option_cases IsRefused (find_intent v.intent_digest intents) _ _
          (λ _. require_cases IsRefused _ _ s _ (refusal s nonce_conflict) (λ _.
            require_cases IsRefused _ _ s _ (refusal s too_many_pending)
              (λ c. direct_refuses a b (uncrowded _ _ live c))))
          (λ i h. absurd (no_replay i h))

    submit_refuses : IsRefused (submit_verified now mine order v s)
    unfolding submit_verified
    submit_refuses =
        option_cases IsRefused (find_intent v.intent_digest intents) _ _
          (λ _. require_cases IsRefused _ _ s _ (refusal s not_open) (λ a.
            require_cases IsRefused _ _ s _ (refusal s from_future) (λ _.
              require_cases IsRefused _ _ s _ (refusal s short_runway) (λ b. store_refuses a b))))
          (λ i h. absurd (no_replay i h))

-- The tests that come before the check of the signature refuse only what the tests after it refuse
-- too: if they throw for a proposal that is live and presents its own nonce, then the proposal, with
-- a good signature, is refused without them as well, whatever its content. A digest is taken to
-- cover the nonce.
pub shed_fill_intent-IsRefused :
    (now : ℕ) (mine : Text) (order : Order) (v : VerifiedFillIntent) (s : OrderStore) (e : ApiError)
    → ltb now v.expires_at ≡ true
    → DigestsBind v (or_else order.fill_intents [])
    → (shed_fill_intent now mine (some v.nonce) order s).1 ≡ some e
    → IsRefused (submit_verified now mine order v s)
shed_fill_intent-IsRefused now mine order v s e live bound shed =
    submit_refuses now mine order v s live bound e shed
