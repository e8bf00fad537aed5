-- ===== src/Maker/Decide/Fund.antt =====
-- When `decide` (marketmaker/src/policy.ts) escrows our leg, and when it takes it back.
use quanta_swap.Prelude.{
  ℕ, ◌+◌, ◌<◌, ◌≤◌, ◌≡◌, refl, true, false, Option, none, some, List, arith, Text, or_else,
}
use quanta_swap.Chain.{LegState, no_swap, opened, retry_ok}
use quanta_swap.Maker.Order.{ManagedProtocol}
use quanta_swap.Maker.Decide.{
  BookStatus, locking, DecideInput, lock, refund, lock_gate, refund_gate, is_released, decide,
}
use quanta_swap.Maker.Decide.Inversion.{Made, by_lock, by_refund, settle-Made, decide-Settles}
use quanta_swap.Chain.Spacing.{MaySend, retry_ok-MaySend}

-- A portable listing is funded only after its fill was acknowledged.
abbrev pub IsAcknowledged : Option ManagedProtocol → Type 0
IsAcknowledged none = Unit
IsAcknowledged (some p) = p.fill_acknowledged ≡ true

pub record FundingIsSafe (x : DecideInput) : Type 0 where
  pub own : LegState
  pub t2 : ℕ
  pub hash : Text
  pub secret : Text
  pub has_own : x.i_state ≡ some own
  pub has_t2 : x.managed.responder_timeout ≡ some t2
  pub has_hash : x.managed.hashlock ≡ some hash
  pub has_secret : x.managed.preimage ≡ some secret
  pub unfunded : own.status ≡ no_swap
  pub announced : x.book_status ≡ locking
  pub not_released : is_released x ≡ false
  pub acknowledged : IsAcknowledged x.managed.protocol
  pub after_grace : or_else x.managed.announced_at 0 + x.lock_grace ≤ x.now
  pub in_window : x.now + x.claim_safety < t2
  pub spaced : MaySend x.managed.lock_sent_at x.now x.resend_after

lock_gate_acknowledged :
    (x : DecideInput) (own : LegState) (t2 : ℕ) (p : Option ManagedProtocol)
    → x.managed.protocol ≡ p
    → lock_gate x own t2 ≡ true
    → IsAcknowledged p
unfolding lock_gate
lock_gate_acknowledged x own t2 none e g = tt
lock_gate_acknowledged x own t2 (some p) e g = ground arith

lock_gate_status :
    (x : DecideInput) (own : LegState) (t2 : ℕ) (b : BookStatus)
    → x.book_status ≡ b
    → lock_gate x own t2 ≡ true
    → b ≡ locking
unfolding lock_gate
lock_gate_status x own t2 BookStatus.opened e g = ground arith
lock_gate_status x own t2 _ e g = ground arith

lock_gate_parts :
    (x : DecideInput) (own : LegState) (t2 : ℕ)
    → lock_gate x own t2 ≡ true
    → (own.status ≡ no_swap)
      × (is_released x ≡ false)
      × (or_else x.managed.announced_at 0 + x.lock_grace ≤ x.now)
      × (x.now + x.claim_safety < t2)
      × (retry_ok x.managed.lock_sent_at x.now x.resend_after ≡ true)
unfolding lock_gate
lock_gate_parts x own t2 g = (ground arith, ground arith, ground arith, ground arith, ground arith)

module _ (shake256 : Text → List ℕ) where
  lock-Made :
      (x : DecideInput) (i : LegState) (t1 t2 : ℕ)
      → Made shake256 x i t1 t2 lock
      → lock_gate x i t2 ≡ true
  lock-Made x i t1 t2 (by_lock g) = g

  -- The maker escrows its leg only with the secret and the hashlock stored, while the chain shows no
  -- escrow under it, the book says `locking`, the taker has not released, a portable fill is
  -- acknowledged, the grace period has passed, the responder window still holds the safety margin,
  -- and no other attempt was made within the resend interval.
  pub decide-lock : (x : DecideInput) → decide shake256 x ≡ some lock → FundingIsSafe x
  decide-lock x h =
      let s = decide-Settles shake256 x lock h refl in
      let g = lock-Made x s.own s.t1 s.t2 (settle-Made shake256 x s.own s.t1 s.t2 lock s.settled) in
      let (unfunded, fresh, grace, window, retry) = lock_gate_parts x s.own s.t2 g in
      record {
        own = s.own;
        t2 = s.t2;
        hash = s.hash;
        secret = s.secret;
        has_own = s.has_own;
        has_t2 = s.has_t2;
        has_hash = s.has_hash;
        has_secret = s.has_secret;
        unfunded = unfunded;
        announced = lock_gate_status x s.own s.t2 x.book_status refl g;
        not_released = fresh;
        acknowledged = lock_gate_acknowledged x s.own s.t2 x.managed.protocol refl g;
        after_grace = grace;
        in_window = window;
        spaced = retry_ok-MaySend x.managed.lock_sent_at x.now x.resend_after retry;
      }

  refund_gate_parts :
      (x : DecideInput) (i : LegState) (t1 t2 : ℕ)
      → Made shake256 x i t1 t2 refund
      → (i.status ≡ opened) × (t1 ≤ x.now) × MaySend x.managed.refund_sent_at x.now x.resend_after
  unfolding refund_gate
  refund_gate_parts x i t1 t2 (by_refund g) = (
    ground arith,
    ground arith,
    retry_ok-MaySend x.managed.refund_sent_at x.now x.resend_after (ground arith),
  )

  -- The maker sends a refund only for its own open escrow, at or past the announced initiator
  -- timeout, and not within the resend interval of another attempt.
  pub decide-refund :
      (x : DecideInput)
      → decide shake256 x ≡ some refund
      → (own : LegState) × (t1 : ℕ) × (x.i_state ≡ some own)
        × (x.managed.initiator_timeout ≡ some t1)
        × (own.status ≡ opened)
        × (t1 ≤ x.now)
        × MaySend x.managed.refund_sent_at x.now x.resend_after
  decide-refund x h =
      let s = decide-Settles shake256 x refund h refl in
      let (a, b, c) =
        refund_gate_parts x s.own s.t1 s.t2
          (settle-Made shake256 x s.own s.t1 s.t2 refund s.settled) in
      (s.own, s.t1, s.has_own, s.has_t1, a, b, c)
