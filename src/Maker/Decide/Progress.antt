-- ===== src/Maker/Decide/Progress.antt =====
-- `decide` (marketmaker/src/policy.ts) returns, an expired escrow of ours is acted on, and sends
-- are spaced.
use quanta_swap.Prelude.{
  ℕ, ◌≤◌, ◌≡◌, ◌≢◌, ◌⊎◌, inl, inr, refl, Bool, true, false, Option, none, some, List, arith, Text,
  if◌then◌else◌, ◌&&◌, Option-cases,
}
use quanta_swap.Chain.{LegState, opened}
use quanta_swap.Address.Same.{IsAddress, same_addr_returns}
use quanta_swap.Maker.Decide.{
  BookStatus, DecideInput, Decision, claim, sponsor, refund, abort, exposure_excluded, decide,
  on_book, on_chain, settle, collect, claim_gate, sponsor_gate, lock_gate, refund_gate,
  pushable_taker_credit, is_released, is_gone,
}
use quanta_swap.Chain.Spacing.{MaySend, MaySend-retry_ok}

-- The test of a nullable value, where the value is there.
abbrev pub Each {ℓ} : {A : Type ℓ} → Option A → (A → Type 0) → Type 0
Each none P = Unit
Each (some a) P = P a

two_tests :
    (g r e : Bool) (rest : Option Decision)
    → rest ≢ none
    → (if g && e then some abort else if r && e then some abort else rest) ≢ none
two_tests g r e rest h = ground arith

lock_gate_unfunded :
    (x : DecideInput) (i : LegState) (t2 : ℕ) → i.status ≡ opened → lock_gate x i t2 ≡ false
unfolding lock_gate
lock_gate_unfunded x i t2 h = rw h refl

refund_gate_of :
    (x : DecideInput) (i : LegState) (t1 : ℕ)
    → i.status ≡ opened
    → t1 ≤ x.now
    → MaySend x.managed.refund_sent_at x.now x.resend_after
    → refund_gate x i t1 ≡ true
unfolding refund_gate
refund_gate_of x i t1 o late may =
    ground (arith, MaySend-retry_ok x.managed.refund_sent_at x.now x.resend_after may)

-- The book says that the fill is announced, or no longer knows the order.
abbrev pub has_settlement : BookStatus → Bool
has_settlement BookStatus.opened = false
has_settlement BookStatus.accepted = false
has_settlement _ = true

module _ (shake256 : Text → List ℕ) where
  -- Every address that the decision compares is one: the RPC decoder and the configuration give
  -- such texts.
  pub record HasAddresses (x : DecideInput) : Type 0 where
    pub token : IsAddress shake256 x.expected_token
    pub recipient : IsAddress shake256 x.expected_recipient
    pub ours : IsAddress shake256 x.our_initiator
    pub taker : Each x.taker_on_initiator_leg (IsAddress shake256)
    pub own : Each x.i_state (λ s. IsAddress shake256 s.initiator × IsAddress shake256 s.recipient)
    pub theirs :
        Each x.r_confirmed (λ s. IsAddress shake256 s.token × IsAddress shake256 s.recipient)

  claim_gate-ne-none :
      (x : DecideInput) (i : LegState) (t2 : ℕ) (c : Option LegState)
      → x.r_confirmed ≡ c
      → Each c (λ s. IsAddress shake256 s.token × IsAddress shake256 s.recipient)
      → HasAddresses x
      → claim_gate shake256 x i t2 ≢ none
  unfolding claim_gate
  claim_gate-ne-none x i t2 none e k h = ground arith
  claim_gate-ne-none x i t2 (some c) e k h = ground (
    arith,
    same_addr_returns shake256 c.token x.expected_token k.0 h.token,
    same_addr_returns shake256 c.recipient x.expected_recipient k.1 h.recipient,
  )

  sponsor_gate-ne-none :
      (x : DecideInput) (i : LegState) (t : Option Text)
      → x.taker_on_initiator_leg ≡ t
      → Each t (IsAddress shake256)
      → HasAddresses x
      → IsAddress shake256 i.initiator
      → IsAddress shake256 i.recipient
      → sponsor_gate shake256 x i ≢ none
  unfolding sponsor_gate
  sponsor_gate-ne-none x i none e k h a b =
      ground (arith, same_addr_returns shake256 i.initiator x.our_initiator a h.ours)
  sponsor_gate-ne-none x i (some t) e k h a b = ground (
    arith,
    same_addr_returns shake256 i.initiator x.our_initiator a h.ours,
    same_addr_returns shake256 i.recipient t b k,
  )

  pushable-ne-none :
      (x : DecideInput) (i : LegState) (t : Option Text)
      → x.taker_on_initiator_leg ≡ t
      → Each t (IsAddress shake256)
      → HasAddresses x
      → IsAddress shake256 i.initiator
      → IsAddress shake256 i.recipient
      → pushable_taker_credit shake256 x i ≢ none
  unfolding pushable_taker_credit
  pushable-ne-none x i none e k h a b = ground arith
  pushable-ne-none x i (some t) e k h a b = ground (
    arith,
    same_addr_returns shake256 i.initiator x.our_initiator a h.ours,
    same_addr_returns shake256 i.recipient t b k,
  )

  collect-ne-none :
      (x : DecideInput) (i : LegState) (t2 : ℕ)
      → pushable_taker_credit shake256 x i ≢ none
      → collect shake256 x i t2 ≢ none
  unfolding collect
  collect-ne-none x i t2 h = ground arith

  settle-ne-none :
      (x : DecideInput) (i : LegState) (t1 t2 : ℕ)
      → HasAddresses x
      → IsAddress shake256 i.initiator
      → IsAddress shake256 i.recipient
      → settle shake256 x i t1 t2 ≢ none
  unfolding settle
  settle-ne-none x i t1 t2 h a b = ground (
    arith,
    claim_gate-ne-none x i t2 x.r_confirmed refl h.theirs h,
    sponsor_gate-ne-none x i x.taker_on_initiator_leg refl h.taker h a b,
    collect-ne-none x i t2 (pushable-ne-none x i x.taker_on_initiator_leg refl h.taker h a b),
  )

  on_chain-ne-none :
      (x : DecideInput) (p q : Option Text) (t u : Option ℕ) (s : Option LegState)
      → Each s (λ i. IsAddress shake256 i.initiator × IsAddress shake256 i.recipient)
      → HasAddresses x
      → on_chain shake256 x p q t u s ≢ none
  unfolding on_chain
  on_chain-ne-none x (some p) (some q) (some t) (some u) (some s) k h =
      settle-ne-none x s t u h k.0 k.1
  on_chain-ne-none x _ _ _ _ _ k h = ground arith

  on_book-ne-none :
      (x : DecideInput) (b : BookStatus) → HasAddresses x → on_book shake256 x b ≢ none
  unfolding on_book
  on_book-ne-none x BookStatus.opened h = ground arith
  on_book-ne-none x BookStatus.accepted h = ground arith
  on_book-ne-none x _ h =
      on_chain-ne-none x x.managed.preimage x.managed.hashlock x.managed.initiator_timeout
        x.managed.responder_timeout x.i_state h.own h

  decide-ne-none : (x : DecideInput) → HasAddresses x → decide shake256 x ≢ none
  unfolding decide
  decide-ne-none x h =
      two_tests (is_gone x.book_status) (is_released x) (exposure_excluded x)
        (on_book shake256 x x.book_status) (on_book-ne-none x x.book_status h)

  -- With well-formed addresses a decision is always made.
  pub decide-returns :
      (x : DecideInput) → HasAddresses x → (d : Decision) × (decide shake256 x ≡ some d)
  decide-returns x h = elim (Option-cases (decide shake256 x)) [
    | inl e ↦ absurd (decide-ne-none x h e)
    | inr p ↦ p
  ]

  settle_expired :
      (x : DecideInput) (i : LegState) (t1 t2 : ℕ)
      → i.status ≡ opened
      → refund_gate x i t1 ≡ true
      → settle shake256 x i t1 t2 ≢ none
      → (settle shake256 x i t1 t2 ≡ some claim)
        ⊎ ((settle shake256 x i t1 t2 ≡ some sponsor) ⊎ (settle shake256 x i t1 t2 ≡ some refund))
  unfolding settle
  settle_expired x i t1 t2 o g n = ground (arith, lock_gate_unfunded x i t2 o)

  chain_governs :
      (x : DecideInput) (i : LegState) (t1 t2 : ℕ) (secret hash : Text) (b : BookStatus)
      → x.book_status ≡ b
      → has_settlement b ≡ true
      → x.managed.preimage ≡ some secret
      → x.managed.hashlock ≡ some hash
      → x.managed.initiator_timeout ≡ some t1
      → x.managed.responder_timeout ≡ some t2
      → x.i_state ≡ some i
      → i.status ≡ opened
      → decide shake256 x ≡ settle shake256 x i t1 t2
  unfolding decide
  chain_governs x i t1 t2 secret hash BookStatus.opened e k a b c d f o = ground arith
  chain_governs x i t1 t2 secret hash _ e k a b c d f o = rw (e, a, b, c, d, f) (ground arith)

  -- An escrow of ours that is open at or past the initiator timeout never waits: whatever the book
  -- reports once the fill is announced and stored, the decision is to claim the taker's escrow, to
  -- hand ours to the taker, or to take it back, provided that the addresses are well-formed and no
  -- refund was sent within the resend interval.
  pub decide_expired :
      (x : DecideInput) (i : LegState) (t1 t2 : ℕ) (secret hash : Text)
      → has_settlement x.book_status ≡ true
      → x.managed.preimage ≡ some secret
      → x.managed.hashlock ≡ some hash
      → x.managed.initiator_timeout ≡ some t1
      → x.managed.responder_timeout ≡ some t2
      → x.i_state ≡ some i
      → i.status ≡ opened
      → t1 ≤ x.now
      → MaySend x.managed.refund_sent_at x.now x.resend_after
      → HasAddresses x
      → (decide shake256 x ≡ some claim)
        ⊎ ((decide shake256 x ≡ some sponsor) ⊎ (decide shake256 x ≡ some refund))
  decide_expired x i t1 t2 secret hash k a b c d f o late may h =
      let e = chain_governs x i t1 t2 secret hash x.book_status refl k a b c d f o in
      rw e (
        settle_expired x i t1 t2 o (refund_gate_of x i t1 o late may)
          (rw e at (decide-ne-none x h)))
