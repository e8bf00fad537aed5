-- ===== src/Server/Book/Refusals.antt =====
-- What the order book does to its store when it refuses a request (server/src/store.ts).
use quanta_swap.Prelude.{ℕ, ◌≡◌, ◌≢◌, sym, ap, ◌∙◌, ◌⊎◌, inl, inr, Text, arith}
use quanta_swap.Server.Wire.{ApiError}
use quanta_swap.Server.Store.{Order, OrderStore, sweep}
use quanta_swap.Server.Tokens.{Hashes}
use quanta_swap.Server.Takes.{Answer, refused, shown, taken}
use quanta_swap.Server.Book.{BookRequest, handle}
use quanta_swap.Server.Book.Moves.{Credentials, Effect, refuses, repeats, takes_one, moves, hears}
use quanta_swap.Server.Book.Effects.{credentials_of, handle-Effects}

shown_ne : (o : Order) (e : ApiError) → shown o ≢ refused e
shown_ne o e h = ground (arith, h)

taken_ne : (o : Order) (t : Text) (e : ApiError) → taken o t ≢ refused e
taken_ne o t e h = ground (arith, h)

outcome : {a b : Answer} → a ≡ b → a.1 ≡ b.1
outcome h = ap (λ (x : Answer). x.1) h

refusal_keeps :
    (hashes : Hashes) (now : ℕ) (shows : Credentials) (s : OrderStore) (a : Answer) (e : ApiError)
    → Effect hashes now shows s a
    → a.1 ≡ refused e
    → a.0 ≡ s
refusal_keeps hashes now shows s a e (refuses _ k) h = ap (λ (x : Answer). x.0) k
refusal_keeps hashes now shows s a e (repeats _ k) h = ap (λ (x : Answer). x.0) k
refusal_keeps hashes now shows s a e (takes_one ip token o p t k) h =
    absurd (taken_ne p token e (sym (outcome k) ∙ h))
refusal_keeps hashes now shows s a e (moves o p f m k) h =
    absurd (shown_ne p e (sym (outcome k) ∙ h))
refusal_keeps hashes now shows s a e (hears o k) h = absurd (shown_ne o e (sym (outcome k) ∙ h))

-- An `accept`, `take`, `announceHashlock`, `release`, `cancel` or `heartbeat` that is refused changes
-- nothing: the store is as it was, or as the sweep of that moment leaves it, whichever test refuses
-- and whatever the body holds.
pub handle-refused :
    (hashes : Hashes) (now : ℕ) (r : BookRequest) (s : OrderStore) (e : ApiError)
    → (handle hashes now r s).1 ≡ refused e
    → ((handle hashes now r s).0 ≡ s) ⊎ ((handle hashes now r s).0 ≡ sweep now s)
handle-refused hashes now r s e h = elim (handle-Effects hashes now s r) [
  | inl k ↦ inl (refusal_keeps hashes now (credentials_of r) s _ e k h)
  | inr k ↦ inr (refusal_keeps hashes now (credentials_of r) (sweep now s) _ e k h)
]
