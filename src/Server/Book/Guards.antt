-- ===== src/Server/Book/Guards.antt =====
-- The tests that come before a change of the book (server/src/store.ts): one that fails changes nothing.
use quanta_swap.Prelude.{ℕ, ◌≡◌, refl, ap, ◌∙◌, Bool, true, false, not, some, Text, arith}
use quanta_swap.Server.Wire.{order_not_found, ApiError, Checked, passes}
use quanta_swap.Server.Store.{Order, OrderStore}
use quanta_swap.Server.Tokens.{Hashes}
use quanta_swap.Server.Takes.{Answer, require, check, with_order, find_order}
use quanta_swap.Server.Takes.Answers.{require_cases, check_cases, with_order_cases, find_order_id}
use quanta_swap.Server.Book.Moves.{Credentials, Effect, refuses}

module _ (hashes : Hashes) (now : ℕ) (presented : Credentials) (s : OrderStore) where
  abbrev Does : Answer → Type 0
  Does = Effect hashes now presented s

  pub guarded :
      (ok : Bool) (e : ApiError) (rest : Answer)
      → (ok ≡ true → Effect hashes now presented s rest)
      → Effect hashes now presented s (require ok e s rest)
  guarded ok e rest h = require_cases Does ok e s rest (refuses e refl) h

  pub checked :
      {A : Type 0} (c : Checked A) (rest : A → Answer)
      → ((a : A) → c ≡ passes a → Effect hashes now presented s (rest a))
      → Effect hashes now presented s (check c s rest)
  checked c rest h = check_cases Does c s rest (λ e. refuses e refl) h

  -- An order that is found, under its own id.
  pub found :
      (id : Text) (rest : Order → Answer)
      → ((o : Order) → find_order o.id s.orders ≡ some o → Effect hashes now presented s (rest o))
      → Effect hashes now presented s (with_order id s rest)
  found id rest h =
      with_order_cases Does id s rest (refuses order_not_found refl)
        (λ o e. h o (ap (λ k. find_order k s.orders) (find_order_id id s.orders o e) ∙ e))

pub of_passes {ℓ} : {A : Type ℓ} {a b : A} → passes a ≡ passes b → a ≡ b
of_passes h = cc

pub not_signed : (b : Bool) → not b ≡ true → b ≡ false
not_signed b h = ground arith
