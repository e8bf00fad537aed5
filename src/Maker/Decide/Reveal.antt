-- ===== src/Maker/Decide/Reveal.antt =====
-- When `decide` (marketmaker/src/policy.ts) publishes the secret, or claims on the taker's behalf.
use quanta_swap.Prelude.{ℕ, ◌+◌, ◌<◌, ◌≡◌, refl, true, Option, none, some, List, arith, Text}
use quanta_swap.Chain.{LegState, opened, claimed}
use quanta_swap.Address.{same_addr}
use quanta_swap.Chain.Spacing.{MaySend, retry_ok-MaySend}
use quanta_swap.Maker.Decide.{DecideInput, claim, sponsor, claim_gate, sponsor_gate, decide}
use quanta_swap.Maker.Decide.Inversion.{Made, by_claim, by_sponsor, settle-Made, decide-Settles}

module _ (shake256 : Text → List ℕ) where
  -- The taker's escrow at confirmation depth is the agreed one, and its own deadline is far away.
  pub record IsAgreed (x : DecideInput) (theirs : LegState) : Type 0 where
    pub locked : theirs.status ≡ opened
    pub right_token : same_addr shake256 theirs.token x.expected_token ≡ some true
    pub right_recipient : same_addr shake256 theirs.recipient x.expected_recipient ≡ some true
    pub right_amount : theirs.amount ≡ x.expected_amount_wei
    pub in_window : x.now + x.claim_safety < theirs.timeout

  pub record RevealIsSafe (x : DecideInput) : Type 0 where
    pub own : LegState
    pub theirs : LegState
    pub head : LegState
    pub t2 : ℕ
    pub secret : Text
    pub has_own : x.i_state ≡ some own
    pub has_head : x.r_state ≡ some head
    pub has_theirs : x.r_confirmed ≡ some theirs
    pub has_t2 : x.managed.responder_timeout ≡ some t2
    pub has_secret : x.managed.preimage ≡ some secret
    pub own_locked : own.status ≡ opened
    pub head_locked : head.status ≡ opened
    pub agreed : IsAgreed x theirs
    pub before_t2 : x.now + x.claim_safety < t2
    pub spaced : MaySend x.managed.claim_sent_at x.now x.resend_after

  claim_gate_reveal :
      (x : DecideInput) (own : LegState) (t2 : ℕ) (secret : Text)
      → x.i_state ≡ some own
      → x.managed.responder_timeout ≡ some t2
      → x.managed.preimage ≡ some secret
      → (r c : Option LegState) → x.r_state ≡ r
      → x.r_confirmed ≡ c
      → claim_gate shake256 x own t2 ≡ some true
      → RevealIsSafe x
  unfolding claim_gate
  claim_gate_reveal x own t2 secret a b s (some head) (some theirs) p q g = record {
    own = own;
    theirs = theirs;
    head = head;
    t2 = t2;
    secret = secret;
    has_own = a;
    has_head = p;
    has_theirs = q;
    has_t2 = b;
    has_secret = s;
    own_locked = ground arith;
    head_locked = ground arith;
    agreed = record {
      locked = ground arith;
      right_token = ground arith;
      right_recipient = ground arith;
      right_amount = ground arith;
      in_window = ground arith;
    };
    before_t2 = ground arith;
    spaced = retry_ok-MaySend x.managed.claim_sent_at x.now x.resend_after (ground arith);
  }
  claim_gate_reveal x own t2 secret a b s none c p q g = ground arith
  claim_gate_reveal x own t2 secret a b s (some head) none p q g = ground arith

  -- The maker publishes the secret only while its own escrow is open, the taker's escrow is open at
  -- the head and at confirmation depth with the agreed token, recipient and amount, the safety
  -- margin fits before that escrow's own deadline and before the announced one, and no other
  -- attempt was made within the resend interval.
  pub decide-claim : (x : DecideInput) → decide shake256 x ≡ some claim → RevealIsSafe x
  decide-claim x h =
      let s = decide-Settles shake256 x claim h refl in
      claim_gate_reveal x s.own s.t2 s.secret s.has_own s.has_t2 s.has_secret x.r_state
        x.r_confirmed refl refl
        (made s.own s.t1 s.t2 (settle-Made shake256 x s.own s.t1 s.t2 claim s.settled))
    where
      made :
          (i : LegState) (t1 t2 : ℕ)
          → Made shake256 x i t1 t2 claim
          → claim_gate shake256 x i t2 ≡ some true
      made i t1 t2 (by_claim g) = g

  -- The escrow that a sponsored claim or a push acts on: funded by us, for this order's taker.
  pub record IsOurs (x : DecideInput) (own : LegState) : Type 0 where
    pub taker : Text
    pub opted_in : x.sponsor_claims ≡ true
    pub knows_taker : x.taker_on_initiator_leg ≡ some taker
    pub funded_by_us : same_addr shake256 own.initiator x.our_initiator ≡ some true
    pub pays_taker : same_addr shake256 own.recipient taker ≡ some true

  sponsor_gate-IsOurs :
      (x : DecideInput) (own : LegState) (t : Option Text)
      → x.taker_on_initiator_leg ≡ t
      → sponsor_gate shake256 x own ≡ some true
      → IsOurs x own
  unfolding sponsor_gate
  sponsor_gate-IsOurs x own none p g = ground arith
  sponsor_gate-IsOurs x own (some t) p g = record {
    taker = t;
    opted_in = ground arith;
    knows_taker = p;
    funded_by_us = ground arith;
    pays_taker = ground arith;
  }

  sponsor_gate_public :
      (x : DecideInput) (own : LegState) (c : Option LegState)
      → x.r_confirmed ≡ c
      → sponsor_gate shake256 x own ≡ some true
      → (theirs : LegState) × (x.r_confirmed ≡ some theirs)
        × (theirs.status ≡ claimed)
        × (own.status ≡ opened)
        × (x.now + x.sponsor_margin < own.timeout)
  unfolding sponsor_gate
  sponsor_gate_public x own none p g = ground arith
  sponsor_gate_public x own (some c) p g = (c, p, ground arith, ground arith, ground arith)

  -- A sponsored claim spends gas only on the open escrow that we funded for this taker, only when
  -- the operator opted in, after our own claim of the taker's escrow is confirmed (so the secret is
  -- public already), and with the transaction margin left before the escrow's deadline.
  pub decide-sponsor :
      (x : DecideInput)
      → decide shake256 x ≡ some sponsor
      → (own theirs : LegState) × (x.i_state ≡ some own)
        × IsOurs x own
        × (x.r_confirmed ≡ some theirs)
        × (theirs.status ≡ claimed)
        × (own.status ≡ opened)
        × (x.now + x.sponsor_margin < own.timeout)
  decide-sponsor x h =
      let s = decide-Settles shake256 x sponsor h refl in
      let g = made s.own s.t1 s.t2 (settle-Made shake256 x s.own s.t1 s.t2 sponsor s.settled) in
      let (theirs, a, b, c, d) = sponsor_gate_public x s.own x.r_confirmed refl g in
      (
        s.own,
        theirs,
        s.has_own,
        sponsor_gate-IsOurs x s.own x.taker_on_initiator_leg refl g,
        a,
        b,
        c,
        d,
      )
    where
      made :
          (i : LegState) (t1 t2 : ℕ)
          → Made shake256 x i t1 t2 sponsor
          → sponsor_gate shake256 x i ≡ some true
      made i t1 t2 (by_sponsor g) = g
