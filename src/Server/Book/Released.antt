-- ===== src/Server/Book/Released.antt =====
-- What the release of a signed order does to the book (`releasePortable` of server/src/store.ts).
use quanta_swap.Prelude.{
  ℕ, ◌≡◌, refl, sym, ap, ◌∙◌, ◌⊎◌, inl, inr, Bool, true, some, Text, text_eq, of_some, arith,
  Bool-cases, if_either, if◌then◌else◌, option_cases, if_true, if_false,
}
use quanta_swap.Server.Wire.{
  Json, bad_release_secret, not_portable, no_fill, bad_intent_digest, no_intent, absent, text,
  integer, other,
}
use quanta_swap.Server.Store.{Order, OrderStore}
use quanta_swap.Server.Tokens.{Hashes}
use quanta_swap.Server.Takes.{refused, shown, find_order, save, uses_portable_terminal_protocol}
use quanta_swap.Server.Release.{
  ReleaseBody, is_present, is_bytes32, as_bytes32, named_fill, named_intent, is_released_with,
  freed_order, freed_proposal, compute_release_commitment, release_fill, was_released,
  release_intent, release_portable,
}
use quanta_swap.Server.Book.Moves.{
  Credentials, HasCommitment, IsOpened, frees, Effect, refuses, repeats, moves,
}
use quanta_swap.Server.Book.Guards.{guarded}

abbrev pub release_credentials : ReleaseBody → Credentials
release_credentials body = record { token = body.token; secret = body.release_secret }

as_bytes32-text : (field : Json) (a : Text) → as_bytes32 field ≡ some a → field ≡ text a
unfolding as_bytes32
as_bytes32-text absent a h = ground (arith, h)
as_bytes32-text (integer _) a h = ground (arith, h)
as_bytes32-text other a h = ground (arith, h)
as_bytes32-text (text raw) a h = elim (Bool-cases (is_bytes32 raw)) [
  | inl t ↦ ap text (of_some (sym (if_true _ _ _ t) ∙ h))
  | inr t ↦ let k = sym (if_false _ _ _ t) ∙ h in ground (arith, k)
]

module _ (hashes : Hashes) (now : ℕ) (s : OrderStore) where
  -- A secret that opens a commitment of the order frees it, or repeats an earlier release.
  freed :
      (shows : Credentials) (o p : Order) (secret : Text) (done : Bool)
      → find_order o.id s.orders ≡ some o
      → IsOpened hashes shows o secret
      → (p ≡ freed_order now secret o)
        ⊎ ((digest : Text) × (p ≡ freed_proposal now secret digest o))
      → Effect hashes now shows s (if done then (s, shown o) else (save p s, shown p))
  freed shows o p secret done f a r =
      if_either (Effect hashes now shows s) done (s, shown o) (save p s, shown p) (repeats o refl)
        (moves o p f (frees secret a r) refl)

  module _ (secret order_digest : Text) (o : Order) (shows : Credentials)
      (f : find_order o.id s.orders ≡ some o) (u : uses_portable_terminal_protocol o ≡ true)
      (e : shows.secret ≡ text secret) (d : o.order_digest ≡ some order_digest) where
    opens-IsOpened :
        (nonce commitment : Text)
        → HasCommitment o nonce commitment
        → text_eq (compute_release_commitment hashes order_digest nonce secret) commitment ≡ true
        → IsOpened hashes shows o secret
    opens-IsOpened nonce commitment c h = record {
      order_digest = order_digest;
      nonce = nonce;
      commitment = commitment;
      signed = u;
      shown_secret = e;
      of_order = d;
      committed = c;
      opening = h;
    }

    release_fill-Effect :
        (field : Json)
        → Effect hashes now shows s (release_fill hashes now secret order_digest o s field)
    unfolding release_fill
    release_fill-Effect field =
        option_cases (Effect hashes now shows s) (named_fill field o) (s, refused no_fill) _
          (λ _. refuses no_fill refl)
          (λ c n. guarded hashes now shows s _ _ _ (λ h.
            freed shows o (freed_order now secret o) secret
              (is_released_with secret o.release_secret o.released_at) f
              (opens-IsOpened c.1 c.0 (inl (field, n)) h) (inl refl)))

    release_intent-Effect :
        (field : Json)
        → Effect hashes now shows s (release_intent hashes now secret order_digest o s field)
    unfolding release_intent
    release_intent-Effect field =
        option_cases (Effect hashes now shows s) (as_bytes32 field) (s, refused bad_intent_digest) _
          (λ _. refuses bad_intent_digest refl)
          (λ digest _.
            option_cases (Effect hashes now shows s) (named_intent digest o) (s, refused no_intent)
              _ (λ _. refuses no_intent refl)
              (λ i n. guarded hashes now shows s _ _ _ (λ h.
                freed shows o (freed_proposal now secret digest o) secret
                  (was_released hashes now secret order_digest o s digest) f
                  (opens-IsOpened i.nonce i.release_commitment (inr (digest, i, n, refl, refl)) h)
                  (inr (digest, refl)))))

  pub release_portable-Effect :
      (body : ReleaseBody) (o : Order)
      → find_order o.id s.orders ≡ some o
      → uses_portable_terminal_protocol o ≡ true
      → Effect hashes now (release_credentials body) s (release_portable hashes now body o s)
  unfolding release_portable
  release_portable-Effect body o f u =
      let shows = release_credentials body in
      guarded hashes now shows s _ _ _ (λ _. guarded hashes now shows s _ _ _ (λ _.
        guarded hashes now shows s _ _ _ (λ _.
          option_cases (Effect hashes now shows s) (as_bytes32 body.release_secret)
            (s, refused bad_release_secret) _ (λ _. refuses bad_release_secret refl)
            (λ secret e.
              let k = as_bytes32-text body.release_secret secret e in
              option_cases (Effect hashes now shows s) o.order_digest (s, refused not_portable) _
                (λ _. refuses not_portable refl)
                (λ d n.
                  if_either (Effect hashes now shows s) (is_present body.fill_digest)
                    (release_fill hashes now secret d o s body.fill_digest)
                    (release_intent hashes now secret d o s body.intent_digest)
                    (release_fill-Effect secret d o shows f u k n body.fill_digest)
                    (release_intent-Effect secret d o shows f u k n body.intent_digest))))))
