-- ===== src/Server/Book/Effects.antt =====
-- What a request does to the book (server/src/store.ts): how each method
-- makes its moves.
use quanta_swap.Prelude.{
  ℕ, ◌≡◌, ◌≢◌, refl, sym, ap, ◌∙◌, ◌⊎◌, inl, inr, Bool, true, false, not, ◌||◌, Option, none, some,
  Text, arith, Bool-cases, if_cases, is_null, if_true, if_false,
}
use quanta_swap.Server.Wire.{Json, bad_taker_token, absent, text, integer, other, ApiError, passes}
use quanta_swap.Server.Store.{
  OrderStatus, opened, accepted, locking, cancelled, Order, OrderStore, sweep,
}
use quanta_swap.Server.Tokens.{Hashes, taker_token_valid}
use quanta_swap.Server.Takes.{
  Answer, shown, require, find_order, save, accept, is_accepted, uses_portable_terminal_protocol,
}
use quanta_swap.Server.Takes.Match.{take}
use quanta_swap.Server.Takes.Answers.{require_cases}
use quanta_swap.Server.Progress.{
  AnnounceBody, announce, announce_swept, announce_hashlock, release_as, release_swept, release,
  cancel_order, cancel_swept, cancel, heartbeat, is_cancelled, locked_order, relisted_order,
  abandoned_order, cancelled_order, require_hashlock, is_hashlock,
}
use quanta_swap.Server.Release.{ReleaseBody, release_portable}
use quanta_swap.Server.Book.{
  BookRequest, accepts, takes, announces, releases, cancels, beats, handle,
}
use quanta_swap.Server.Book.Moves.{
  Credentials, Effect, locks, relists, abandons, withdraws, refuses, repeats, moves, hears,
}
use quanta_swap.Server.Book.Guards.{guarded, checked, found, of_passes, not_signed}
use quanta_swap.Server.Book.Taken.{accept_swept-Effect, take_swept-Effect}
use quanta_swap.Server.Book.Released.{release_credentials, release_portable-Effect}

abbrev bearer : Json → Credentials
bearer token = record { token = token; secret = absent }

accepted_status : (c : OrderStatus) → is_accepted c ≡ true → c ≡ accepted
accepted_status c h = ground arith

hashlock_passes :
    (field : Json) (h : Text) → require_hashlock field ≡ passes h → is_hashlock h ≡ true
unfolding require_hashlock
hashlock_passes absent h e = ground (arith, e)
hashlock_passes (integer _) h e = ground (arith, e)
hashlock_passes other h e = ground (arith, e)
hashlock_passes (text raw) h e = elim (Bool-cases (is_hashlock raw)) [
  | inl t ↦ let k = sym (if_true _ _ _ t) ∙ e in ap is_hashlock (sym (of_passes k)) ∙ t
  | inr t ↦ let k = sym (if_false _ _ _ t) ∙ e in ground (arith, k)
]

null_none {ℓ} : {A : Type ℓ} (o : Option A) → is_null o ≡ true → o ≡ none
null_none none h = refl
null_none (some a) h = ground (arith, h)

not_cancelled : (c : OrderStatus) → is_cancelled c ≡ false → c ≢ cancelled
not_cancelled c h e = ground (arith, h, e)

prelocked_only : (a b : Bool) → (not a || b) ≡ true → a ≡ true → b ≡ true
prelocked_only a b h k = ground arith

module _ (hashes : Hashes) (now : ℕ) (s : OrderStore) where
  announce_swept-Effect :
      (id : Text) (body : AnnounceBody)
      → Effect hashes now (bearer body.token) s (announce_swept hashes now id body s)
  unfolding announce_swept announce
  announce_swept-Effect id body = found hashes now (bearer body.token) s id _ (λ o f.
      guarded hashes now (bearer body.token) s _ _ _ (λ t.
        guarded hashes now (bearer body.token) s _ _ _ (λ p.
          guarded hashes now (bearer body.token) s _ _ _ (λ a.
            checked hashes now (bearer body.token) s _ _ (λ h e.
              checked hashes now (bearer body.token) s _ _ (λ times _.
                guarded hashes now (bearer body.token) s _ _ _ (λ sh.
                  guarded hashes now (bearer body.token) s _ _ _ (λ st.
                    guarded hashes now (bearer body.token) s _ _ _ (λ late.
                      guarded hashes now (bearer body.token) s _ _ _ (λ twice.
                        moves o (locked_order hashes now o h times.0 times.1) f
                          (locks h times.0 times.1 t (accepted_status o.status a) (not_signed _ p)
                            (record {
                              well_formed = hashlock_passes body.hashlock h e;
                              same_hashlock = prelocked_only _ _ sh;
                              same_timeout = prelocked_only _ _ st;
                              late_enough = late;
                              twice = twice;
                            })
                            refl)
                          refl))))))))))

  release_as-Effect :
      (c : OrderStatus) (o : Order) (shows : Credentials)
      → o.status ≡ c
      → uses_portable_terminal_protocol o ≡ false
      → find_order o.id s.orders ≡ some o
      → taker_token_valid hashes o shows.token ≡ true
      → Effect hashes now shows s (release_as hashes now c o s)
  unfolding release_as
  release_as-Effect opened o shows e u f t = repeats o refl
  release_as-Effect accepted o shows e u f t =
      moves o (relisted_order hashes now o) f (relists t u e refl) refl
  release_as-Effect locking o shows e u f t =
      let p = abandoned_order hashes now o in
      if_cases (Effect hashes now shows s) (is_null o.released_at) (save p s, shown p) (s, shown o)
        (λ n. moves o p f (abandons t u e (null_none o.released_at n) refl) refl)
        (λ _. repeats o refl)
  release_as-Effect cancelled o shows e u f t = repeats o refl

  release_swept-Effect :
      (id : Text) (body : ReleaseBody)
      → Effect hashes now (release_credentials body) s (release_swept hashes now id body s)
  unfolding release_swept
  release_swept-Effect id body =
      let shows = release_credentials body in
      found hashes now shows s id _ (λ o f.
        if_cases (Effect hashes now shows s) (uses_portable_terminal_protocol o)
          (release_portable hashes now body o s)
          (require (taker_token_valid hashes o body.token) bad_taker_token s
            (release_as hashes now o.status o s))
          (λ u. release_portable-Effect hashes now s body o f u)
          (λ u.
            guarded hashes now shows s _ _ _ (λ t. release_as-Effect o.status o shows refl u f t)))

  cancel_swept-Effect :
      (id : Text) (token : Json)
      → Effect hashes now (bearer token) s (cancel_swept hashes now id token s)
  unfolding cancel_swept cancel_order
  cancel_swept-Effect id token = found hashes now (bearer token) s id _ (λ o f.
      guarded hashes now (bearer token) s _ _ _ (λ t.
        guarded hashes now (bearer token) s _ _ _ (λ p.
          let c = cancelled_order hashes now o in
          if_cases (Effect hashes now (bearer token) s) (is_cancelled o.status) (s, shown o)
            (save c s, shown c) (λ _. repeats o refl)
            (λ k.
              moves o c f (withdraws t (not_cancelled o.status k) (not_signed _ p) refl) refl))))

  heartbeat-Effect :
      (id : Text) (token : Json)
      → Effect hashes now (bearer token) s (heartbeat hashes now id token s).0
  unfolding heartbeat
  heartbeat-Effect id token =
      found hashes now (bearer token) s id _
        (λ o f. guarded hashes now (bearer token) s _ _ _ (λ t. hears o refl))

-- A request with a store that it starts from: the one before it, or the one that its sweep leaves.
abbrev pub Effects : Hashes → ℕ → Credentials → OrderStore → Answer → Type 0
Effects hashes now presented s answer =
    Effect hashes now presented s answer ⊎ Effect hashes now presented (sweep now s) answer

-- What a request presents for an order.
unfoldable pub credentials_of : BookRequest → Credentials
credentials_of (accepts id ip token body) = bearer absent
credentials_of (takes ip token body) = bearer absent
credentials_of (announces id body) = bearer body.token
credentials_of (releases id body) = release_credentials body
credentials_of (cancels id token) = bearer token
credentials_of (beats id token) = bearer token

module _ (hashes : Hashes) (now : ℕ) (s : OrderStore) where
  legacy_first :
      (presented : Credentials) (ok : Bool) (e : ApiError) (rest : Answer)
      → Effect hashes now presented (sweep now s) rest
      → Effects hashes now presented s (require ok e s rest)
  legacy_first presented ok e rest h =
      require_cases (Effects hashes now presented s) ok e s rest (inl (refuses e refl)) (λ _. inr h)

  -- Every request does one of the things that `Effect` lists, to the store before it or to the store
  -- that its sweep leaves: it refuses or repeats an answer and changes nothing, it takes an order that
  -- is open, unsigned, in time, not reserved for another and within the taker's caps, it makes a move
  -- of one order that the token or the secret it presents entitles to in the order's state, or it
  -- notes that the maker was seen.
  pub handle-Effects :
      (r : BookRequest) → Effects hashes now (credentials_of r) s (handle hashes now r s)
  unfolding credentials_of handle accept take announce_hashlock release cancel
  handle-Effects (accepts id ip token body) =
      legacy_first (bearer absent) _ _ _
        (accept_swept-Effect hashes now (bearer absent) (sweep now s) ip token body id)
  handle-Effects (takes ip token body) =
      legacy_first (bearer absent) _ _ _
        (take_swept-Effect hashes now (bearer absent) (sweep now s) ip token body)
  handle-Effects (announces id body) = inr (announce_swept-Effect hashes now (sweep now s) id body)
  handle-Effects (releases id body) = inr (release_swept-Effect hashes now (sweep now s) id body)
  handle-Effects (cancels id token) = inr (cancel_swept-Effect hashes now (sweep now s) id token)
  handle-Effects (beats id token) = inl (heartbeat-Effect hashes now s id token)
