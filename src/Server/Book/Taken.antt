-- ===== src/Server/Book/Taken.antt =====
-- What a take does to the book (`accept` and `take` of server/src/store.ts).
use quanta_swap.Prelude.{
  ℕ, ◌≡◌, refl, sym, ap, ◌∙◌, inl, inr, Bool, true, false, not, ◌||◌, some, Text, arith, Bool-cases,
  option_cases, ltb→lt, if_true, if_false,
}
use quanta_swap.Address.{is_q_hex, is_0x_hex}
use quanta_swap.Server.Wire.{Json, absent, text, integer, other, no_match, passes, require_address}
use quanta_swap.Server.Store.{OrderStatus, opened, Order, OrderStore, is_open, has_runway}
use quanta_swap.Server.Tokens.{Hashes}
use quanta_swap.Server.Takes.{
  refused, TakeBody, find_order, commit_take, accept_swept, taken_order,
  uses_portable_terminal_protocol,
}
use quanta_swap.Server.Takes.Match.{TakeTerms, best_match, take_best, take_swept}
use quanta_swap.Server.Takes.Keys.{IsDistinct}
use quanta_swap.Server.Takes.Best.{
  best_match-find_order, matches_terms-IsMatch, best_match-matches_terms,
}
use quanta_swap.Server.Book.Moves.{Credentials, Effect, refuses, takes_one}
use quanta_swap.Server.Book.Guards.{guarded, checked, found, of_passes, not_signed}

address_passes :
    (field : Json) (re : Text → Bool) (a : Text) → require_address field re ≡ passes a → re a ≡ true
unfolding require_address
address_passes absent re a h = ground (arith, h)
address_passes (integer _) re a h = ground (arith, h)
address_passes other re a h = ground (arith, h)
address_passes (text raw) re a h = elim (Bool-cases (re raw)) [
  | inl e ↦ let k = sym (if_true _ _ _ e) ∙ h in ap re (sym (of_passes k)) ∙ e
  | inr e ↦ let k = sym (if_false _ _ _ e) ∙ h in ground (arith, k)
]

unreserved : (a b : Bool) → not (a || b) ≡ true → (a ≡ false) × (b ≡ false)
unreserved a b h = ground arith

pub open_status : (c : OrderStatus) → is_open c ≡ true → c ≡ opened
open_status c h = ground arith

module _ (hashes : Hashes) (now : ℕ) (presented : Credentials) (s : OrderStore) (ip token : Text)
    (body : TakeBody) where
  commit_take-Effect :
      (o : Order)
      → (IsDistinct s.orders → find_order o.id s.orders ≡ some o)
      → o.status ≡ opened
      → uses_portable_terminal_protocol o ≡ false
      → has_runway o now ≡ true
      → Effect hashes now presented s (commit_take hashes now ip token body o s)
  unfolding commit_take
  commit_take-Effect o f a b c = guarded hashes now presented s _ _ _ (λ free.
      guarded hashes now presented s _ _ _ (λ under. checked hashes now presented s _ _ (λ eth e.
        checked hashes now presented s _ _ (λ qrl q. guarded hashes now presented s _ _ _ (λ u.
          let (v, w) = unreserved _ _ u in
          takes_one ip token o (taken_order hashes now ip token o eth qrl)
            (record {
              eth = eth;
              qrl = qrl;
              found = f;
              still_open = a;
              unsigned = b;
              in_time = c;
              free_slot = ltb→lt _ _ free;
              under_limit = ltb→lt _ _ under;
              eth_account = address_passes body.taker_eth_account (is_0x_hex 40) eth e;
              qrl_account = address_passes body.taker_qrl_account (is_q_hex 128) qrl q;
              eth_allowed = v;
              qrl_allowed = w;
              result = refl;
            })
            refl)))))

  pub accept_swept-Effect :
      (id : Text) → Effect hashes now presented s (accept_swept hashes now ip token body id s)
  unfolding accept_swept
  accept_swept-Effect id = found hashes now presented s id _ (λ o f.
      guarded hashes now presented s _ _ _ (λ _. guarded hashes now presented s _ _ _ (λ p.
        guarded hashes now presented s _ _ _ (λ a.
          guarded hashes now presented s _ _ _
            (λ r. commit_take-Effect o (λ _. f) (open_status o.status a) (not_signed _ p) r)))))

  take_best-Effect :
      (terms : TakeTerms)
      → Effect hashes now presented s (take_best hashes now ip token body terms s)
  unfolding take_best
  take_best-Effect terms =
      option_cases (Effect hashes now presented s) (best_match s now terms) (s, refused no_match) _
        (λ _. refuses no_match refl)
        (λ o e.
          let m = matches_terms-IsMatch s now terms o (best_match-matches_terms s now terms o e) in
          commit_take-Effect o (best_match-find_order s now terms o e)
            (open_status o.status m.still_open) m.unsigned m.in_time)

  pub take_swept-Effect : Effect hashes now presented s (take_swept hashes now ip token body s)
  unfolding take_swept
  take_swept-Effect = checked hashes now presented s _ _ (λ d _.
      checked hashes now presented s _ _ (λ a _. checked hashes now presented s _ _ (λ p _.
        checked hashes now presented s _ _ (λ r _.
          take_best-Effect (record { direction = d; asset = a; max_pay = p; min_receive = r })))))
