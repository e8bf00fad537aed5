-- ===== src/Taker/Decide/Leaving.antt =====
-- When `decideTaker` (marketmaker/src/taker-policy.ts) gives a take up, and when it is finished.
use quanta_swap.Prelude.{
  ℕ, ◌≤◌, ◌≡◌, refl, sym, ap, ◌∙◌, ◌⊎◌, ◌≢◌, inl, inr, Bool, true, false, Option, none, some, List,
  arith, Text,
}
use quanta_swap.Address.{same_addr}
use quanta_swap.Chain.{LegState, no_swap, opened, claimed, refunded, terminal}
use quanta_swap.Taker.Checks.{MakerLockCheck, OwnLockCheck, foreign}
use quanta_swap.Taker.Checks.Verified.{check_own_lock-absent, check_own_lock-foreign}
use quanta_swap.Taker.Decide.Inversion.{
  choose_cases, choose-needs_state, needs_state, with_state_cases, wind_down_cases, both_terminal,
  maker_lapsed, decide_taker-Rests,
}
use quanta_swap.Taker.Decide.{
  TakerDecideInput, TakerVerdict, Choice, Reason, both_settled, maker_expired, abort, finish,
  FillTerms, fund, on_own_lock, with_state, with_fill, choose, decide_taker, exposed,
  credits_settled, retired,
}

-- The take holds nothing of ours: no lock was sent and our leg reads empty, or it reads as another
-- account's escrow.
abbrev IsClear : TakerDecideInput → OwnLockCheck → Type 0
IsClear x ol = (x.sends.lock_sent_at ≡ none) × (ol ≡ OwnLockCheck.absent) ⊎ (ol ≡ foreign)

unexposed-IsClear :
    (x : TakerDecideInput) (ol : OwnLockCheck) (s : Option ℕ)
    → x.sends.lock_sent_at ≡ s
    → exposed x ol ≡ false
    → IsClear x ol
unfolding exposed
unexposed-IsClear x OwnLockCheck.absent none e h = inl (e, refl)
unexposed-IsClear x foreign none e h = inr refl
unexposed-IsClear x _ _ e h = ground arith

fund-abort :
    (x : TakerDecideInput) (ex : Bool) (ml : MakerLockCheck) (t2 : ℕ)
    → (fund x ex ml t2).0 ≡ abort
    → ex ≡ false
unfolding fund
fund-abort x ex ml t2 h = ground arith

on_own_lock-abort :
    (x : TakerDecideInput) (ex : Bool) (ml : MakerLockCheck) (ol : OwnLockCheck) (t2 : ℕ)
    → (on_own_lock x ex ml ol t2).0 ≡ abort
    → (ol ≡ foreign) ⊎ (ex ≡ false)
unfolding on_own_lock
on_own_lock-abort x ex ml foreign t2 h = inl refl
on_own_lock-abort x ex ml OwnLockCheck.absent t2 h = inr (fund-abort x ex ml t2 h)
on_own_lock-abort x ex ml _ t2 h = ground arith

retired-ne-abort : (x : TakerDecideInput) (w : Reason) → (retired x w).0 ≢ abort
unfolding retired
retired-ne-abort x w h = ground arith

wind_down-abort :
    (x : TakerDecideInput) (ex : Bool) (ml : MakerLockCheck) (ol : OwnLockCheck) (t2 : ℕ)
    (r : LegState)
    → (with_state x ex ml ol t2 r).0 ≡ abort
    → (on_own_lock x ex ml ol t2).0 ≡ abort
wind_down-abort x ex ml ol t2 r h = elim (with_state_cases x ex ml ol t2 r) [
  | inl p ↦ ground (arith, p.1)
  | inr (inl p) ↦ ground (arith, p.1)
  | inr (inr e) ↦ elim (wind_down_cases x ex ml ol t2 r) [
    | inl p ↦ ground (arith, e, p.1)
    | inr (inl p) ↦ ground (arith, e, p.1, retired-ne-abort x both_settled)
    | inr (inr (inl p)) ↦ ground (arith, e, p.1, retired-ne-abort x maker_expired)
    | inr (inr (inr (inl p))) ↦ ground (arith, e, p.1)
    | inr (inr (inr (inr p))) ↦ ap (λ (c : Choice). c.0) (sym p ∙ sym e) ∙ h
  ]
]

with_fill-abort :
    (x : TakerDecideInput) (ex : Bool) (ml : MakerLockCheck) (ol : OwnLockCheck)
    (f : Option FillTerms) (s : Option LegState)
    → (with_fill x ex ml ol f s).0 ≡ abort
    → (ol ≡ foreign) ⊎ (ex ≡ false)
unfolding with_fill
with_fill-abort x ex ml ol none s h = ground arith
with_fill-abort x ex ml ol (some fill) none h = ground arith
with_fill-abort x ex ml ol (some fill) (some r) h =
    on_own_lock-abort x ex ml ol fill.responder_timeout
      (wind_down-abort x ex ml ol fill.responder_timeout r h)

choose-abort :
    (x : TakerDecideInput) (ml : MakerLockCheck) (ol : OwnLockCheck)
    → (choose x ml ol).0 ≡ abort
    → IsClear x ol
choose-abort x ml ol h = elim (choose_cases x ml ol) [
  | inl (e, w) ↦ unexposed-IsClear x ol x.sends.lock_sent_at refl e
  | inr e ↦
      elim (with_fill-abort x (exposed x ol) ml ol x.fill x.r_state
        (ap (λ (c : Choice). c.0) (sym e) ∙ h)) [
          | inl f ↦ inr f
          | inr u ↦ unexposed-IsClear x ol x.sends.lock_sent_at refl u
        ]
]

fund-ne-finish :
    (x : TakerDecideInput) (ex : Bool) (ml : MakerLockCheck) (t2 : ℕ) → (fund x ex ml t2).0 ≢ finish
unfolding fund
fund-ne-finish x ex ml t2 h = ground arith

on_own_lock-ne-finish :
    (x : TakerDecideInput) (ex : Bool) (ml : MakerLockCheck) (ol : OwnLockCheck) (t2 : ℕ)
    → (on_own_lock x ex ml ol t2).0 ≢ finish
unfolding on_own_lock
on_own_lock-ne-finish x ex ml OwnLockCheck.absent t2 h = fund-ne-finish x ex ml t2 h
on_own_lock-ne-finish x ex ml _ t2 h = ground arith

retired-finish :
    (x : TakerDecideInput) (w : Reason) → (retired x w).0 ≡ finish → credits_settled x ≡ true
unfolding retired
retired-finish x w h = ground arith

with_state-finish :
    (x : TakerDecideInput) (ex : Bool) (ml : MakerLockCheck) (ol : OwnLockCheck) (t2 : ℕ)
    (r : LegState)
    → (with_state x ex ml ol t2 r).0 ≡ finish
    → ((both_terminal x r ≡ true) ⊎ (maker_lapsed x r ≡ true)) × (credits_settled x ≡ true)
with_state-finish x ex ml ol t2 r h = elim (with_state_cases x ex ml ol t2 r) [
  | inl p ↦ ground (arith, p.1)
  | inr (inl p) ↦ ground (arith, p.1)
  | inr (inr e) ↦ elim (wind_down_cases x ex ml ol t2 r) [
    | inl p ↦ ground (arith, e, p.1)
    | inr (inl p) ↦
        (inl p.0, retired-finish x both_settled (ap (λ (c : Choice). c.0) (sym p.1 ∙ sym e) ∙ h))
    | inr (inr (inl p)) ↦
        (inr p.0, retired-finish x maker_expired (ap (λ (c : Choice). c.0) (sym p.1 ∙ sym e) ∙ h))
    | inr (inr (inr (inl p))) ↦ ground (arith, e, p.1)
    | inr (inr (inr (inr p))) ↦
        absurd (on_own_lock-ne-finish x ex ml ol t2 (ap (λ (c : Choice). c.0) (sym p ∙ sym e) ∙ h))
  ]
]

credits_zero :
    (x : TakerDecideInput) (a b : Option ℕ)
    → x.initiator_credit ≡ a
    → x.responder_credit ≡ b
    → credits_settled x ≡ true
    → (a ≡ some 0) × (b ≡ some 0)
unfolding credits_settled
credits_zero x (some a) (some b) e f h = ground arith
credits_zero x none b e f h = ground arith
credits_zero x (some a) none e f h = ground arith

-- The maker's escrow can no longer pay us, or has.
abbrev pub MakerLegDone : TakerDecideInput → Option LegState → Type 0
MakerLegDone x s =
    (i : LegState) × (s ≡ some i)
    × (((i.status ≡ claimed) ⊎ (i.status ≡ refunded)) ⊎ (i.status ≡ opened) × (i.timeout ≤ x.now))

legs_done :
    (x : TakerDecideInput) (r : LegState) (s : Option LegState)
    → x.i_state ≡ s
    → (both_terminal x r ≡ true) ⊎ (maker_lapsed x r ≡ true)
    → ((r.status ≡ claimed) ⊎ (r.status ≡ refunded)) × MakerLegDone x s
unfolding terminal
legs_done x r none e h = ground arith
legs_done x r (some i) e h = (ground arith, (i, refl, ground arith))

module _ (shake256 : Text → List ℕ) where
  -- No lock of ours was ever sent and our leg reads as empty or could not be read, or it reads as
  -- another account's escrow.
  abbrev pub IsUnexposed : TakerDecideInput → Type 0
  IsUnexposed x =
      ((x.sends.lock_sent_at ≡ none)
        × ((x.r_state ≡ none) ⊎ ((r : LegState) × (x.r_state ≡ some r) × (r.status ≡ no_swap))))
      ⊎ ((r : LegState) × (x.r_state ≡ some r)
          × (same_addr shake256 r.initiator x.our_responder_address ≡ some false))

  -- Whatever the book and the operator say, a take is given up only when no lock of ours was ever
  -- sent and our leg of the snapshot is empty or could not be read, or when that leg names another
  -- account as its initiator.
  pub decide_taker-abort :
      (x : TakerDecideInput) (v : TakerVerdict)
      → decide_taker shake256 x ≡ some v
      → v.decision ≡ abort
      → IsUnexposed x
  decide_taker-abort x v h d =
      let rests = decide_taker-Rests shake256 x v h in
      elim (choose-abort x v.maker_lock v.own_lock (ap (λ (c : Choice). c.0) rests.choice ∙ d)) [
        | inl (unsent, none_there) ↦ inl (
          unsent,
          check_own_lock-absent shake256 x.r_state x.plans.responder x.our_responder_address
              (rests.own_lock ∙ ap some none_there),
        )
        | inr squatted ↦ inr (
            check_own_lock-foreign shake256 x.r_state x.plans.responder x.our_responder_address
              (rests.own_lock ∙ ap some squatted))
      ]

  -- A take is reported finished only when our own leg is claimed or refunded, the maker's is too or
  -- has expired, and both legs' credits were read and are zero.
  pub decide_taker-finish :
      (x : TakerDecideInput) (v : TakerVerdict)
      → decide_taker shake256 x ≡ some v
      → v.decision ≡ finish
      → (r : LegState) × (x.r_state ≡ some r)
        × ((r.status ≡ claimed) ⊎ (r.status ≡ refunded))
        × MakerLegDone x x.i_state
        × (x.initiator_credit ≡ some 0)
        × (x.responder_credit ≡ some 0)
  decide_taker-finish x v h d =
      let rests = decide_taker-Rests shake256 x v h in
      let (fill, r, f, s, w) =
        choose-needs_state x v.maker_lock v.own_lock _ rests.choice (ap needs_state d) in
      let (done, zero) =
        with_state-finish x (exposed x v.own_lock) v.maker_lock v.own_lock fill.responder_timeout r
          (ap (λ (c : Choice). c.0) w ∙ d) in
      let (a, b) = credits_zero x x.initiator_credit x.responder_credit refl refl zero in
      let (t, m) = legs_done x r x.i_state refl done in (r, s, t, m, a, b)
