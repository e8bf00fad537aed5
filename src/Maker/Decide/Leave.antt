-- ===== src/Maker/Decide/Leave.antt =====
-- When `decide` (marketmaker/src/policy.ts) forgets an order: `abort` and `finish`.
use quanta_swap.Prelude.{
  ℕ, ◌≤◌, ◌≡◌, ◌⊎◌, inl, inr, refl, Bool, true, not, Option, none, some, List, arith, Text, is_null,
  if◌then◌else◌, ◌&&◌, ◌||◌, leb,
}
use quanta_swap.Chain.{LegState, no_swap, claimed, refunded, is_no_swap, terminal}
use quanta_swap.Maker.Credits.{withdraw_parked, push_parked}
use quanta_swap.Maker.Decide.{
  DecideInput, abort, finish, wait, retire, exposure_excluded, credits_settled, responder_settled,
  decide, is_zero, pushable_taker_credit,
}
use quanta_swap.Maker.Decide.Inversion.{
  Made, by_abort, by_finish, settle-Made, decide-Settles, decide_cases,
}

-- Nothing of ours can be on chain: no lock was ever sent, and no hashlock exists or the chain shows
-- no escrow under it.
abbrev pub IsUnexposed : DecideInput → Type 0
IsUnexposed x =
    (x.managed.lock_sent_at ≡ none)
    × ((x.managed.hashlock ≡ none)
        ⊎ ((own : LegState) × (x.i_state ≡ some own) × (own.status ≡ no_swap)))

exposure_excluded-IsUnexposed :
    (x : DecideInput) (lock : Option ℕ) (hash : Option Text) (own : Option LegState)
    → x.managed.lock_sent_at ≡ lock
    → x.managed.hashlock ≡ hash
    → x.i_state ≡ own
    → exposure_excluded x ≡ true
    → IsUnexposed x
unfolding exposure_excluded
exposure_excluded-IsUnexposed x none none own a b c h = (a, inl b)
exposure_excluded-IsUnexposed x none (some p) (some s) a b c h = (a, inr (s, c, ground arith))
exposure_excluded-IsUnexposed x none (some p) none a b c h = ground arith
exposure_excluded-IsUnexposed x (some l) hash own a b c h = ground arith

retire-abort :
    (x : DecideInput) (i : LegState) (t2 : ℕ) (p : Bool) (lock : Option ℕ)
    → x.managed.lock_sent_at ≡ lock
    → retire x i t2 p ≡ abort
    → (i.status ≡ no_swap) × (x.managed.lock_sent_at ≡ none)
unfolding retire
retire-abort x i t2 p none e h = (ground arith, e)
retire-abort x i t2 p (some l) e h = ground arith

three_tests :
    (a b c d e : Bool)
    → (if a && (b && c) then finish else if d && e then abort else wait) ≡ finish
    → (a ≡ true) × (b ≡ true) × (c ≡ true)
three_tests a b c d e h = ground arith

finish_parts :
    (x : DecideInput) (i : LegState) (t2 : ℕ) (p : Bool)
    → retire x i t2 p ≡ finish
    → (terminal (some i) ≡ true) × (responder_settled x t2 ≡ true) × (credits_settled x p ≡ true)
unfolding retire
finish_parts x i t2 p h =
    three_tests (terminal (some i)) (responder_settled x t2) (credits_settled x p)
      (is_no_swap i.status) (leb t2 x.now && is_null x.managed.lock_sent_at) h

credit_tests :
    (w a b p q t : Bool)
    → ((w || (a && b)) && (not p || (q || t))) ≡ true
    → ((w ≡ true) ⊎ (a ≡ true) × (b ≡ true)) × (p ≡ true → (q ≡ true) ⊎ (t ≡ true))
credit_tests w a b p q t h = (ground arith, λ e. ground arith)

credits_settled_parts :
    (x : DecideInput) (p : Bool)
    → credits_settled x p ≡ true
    → ((withdraw_parked x.managed x.now ≡ true)
        ⊎ (is_zero x.our_responder_credit ≡ true) × (is_zero x.our_initiator_credit ≡ true))
      × (p ≡ true → (push_parked x.managed x.now ≡ true) ⊎ (is_zero x.taker_credit ≡ true))
unfolding credits_settled
credits_settled_parts x p h =
    credit_tests (withdraw_parked x.managed x.now) (is_zero x.our_responder_credit)
      (is_zero x.our_initiator_credit) p (push_parked x.managed x.now) (is_zero x.taker_credit) h

module _ (shake256 : Text → List ℕ) where
  abort-Made :
      (x : DecideInput) (i : LegState) (t1 t2 : ℕ)
      → Made shake256 x i t1 t2 abort
      → (i.status ≡ no_swap) × (x.managed.lock_sent_at ≡ none)
  abort-Made x i t1 t2 (by_abort p r) = retire-abort x i t2 p x.managed.lock_sent_at refl r

  -- Whatever the book reports, an order is dropped only when nothing of ours can be on chain: no
  -- lock was ever sent, and either no hashlock exists or the chain shows no escrow under it.
  pub decide-abort : (x : DecideInput) → decide shake256 x ≡ some abort → IsUnexposed x
  decide-abort x h = elim (decide_cases shake256 x abort h) [
    | inl p ↦
        exposure_excluded-IsUnexposed x x.managed.lock_sent_at x.managed.hashlock x.i_state refl
          refl refl p.1
    | inr (inl (inl p)) ↦ ground arith
    | inr (inl (inr p)) ↦ ground arith
    | inr (inr s) ↦
        let (unfunded, unsent) =
          abort-Made x s.own s.t1 s.t2 (settle-Made shake256 x s.own s.t1 s.t2 abort s.settled) in
        (unsent, inr (s.own, s.has_own, unfunded))
  ]

  -- Our credits are gone, or the contract refused to move them until the order was parked.
  abbrev pub OwnCreditsDone : DecideInput → Type 0
  OwnCreditsDone x =
      (withdraw_parked x.managed x.now ≡ true)
      ⊎ (x.our_responder_credit ≡ some 0) × (x.our_initiator_credit ≡ some 0)

  -- The taker's leg is claimed or refunded, or was never funded and its window has closed.
  abbrev pub TheirLegDone : DecideInput → ℕ → Type 0
  TheirLegDone x t2 =
      (theirs : LegState) × (x.r_state ≡ some theirs)
      × (((theirs.status ≡ claimed) ⊎ (theirs.status ≡ refunded))
          ⊎ (theirs.status ≡ no_swap) × (t2 ≤ x.now))

  pub record FinishIsSafe (x : DecideInput) : Type 0 where
    pub own : LegState
    pub t2 : ℕ
    pub pushable : Bool
    pub has_own : x.i_state ≡ some own
    pub has_t2 : x.managed.responder_timeout ≡ some t2
    pub own_done : (own.status ≡ claimed) ⊎ (own.status ≡ refunded)
    pub theirs_done : TheirLegDone x t2
    pub own_credits : OwnCreditsDone x
    pub is_pushable : pushable_taker_credit shake256 x own ≡ some pushable
    pub taker_credit :
        pushable ≡ true → (push_parked x.managed x.now ≡ true) ⊎ (x.taker_credit ≡ some 0)

  terminal_status :
      (i : LegState) → terminal (some i) ≡ true → (i.status ≡ claimed) ⊎ (i.status ≡ refunded)
  unfolding terminal
  terminal_status i h = ground arith

  theirs_done_of :
      (x : DecideInput) (t2 : ℕ) (r : Option LegState)
      → x.r_state ≡ r
      → responder_settled x t2 ≡ true
      → TheirLegDone x t2
  unfolding responder_settled
  theirs_done_of x t2 none e h = ground arith
  theirs_done_of x t2 (some r) e h = (r, e, ground arith)

  zero_credit : (c : Option ℕ) → is_zero c ≡ true → c ≡ some 0
  zero_credit none h = ground arith
  zero_credit (some n) h = ground arith

  own_credits_of : (x : DecideInput) (p : Bool) → credits_settled x p ≡ true → OwnCreditsDone x
  own_credits_of x p h = elim (credits_settled_parts x p h).0 [
    | inl w ↦ inl w
    | inr (a, b) ↦ inr (zero_credit x.our_responder_credit a, zero_credit x.our_initiator_credit b)
  ]

  taker_credit_of :
      (x : DecideInput) (p : Bool)
      → credits_settled x p ≡ true
      → p ≡ true
      → (push_parked x.managed x.now ≡ true) ⊎ (x.taker_credit ≡ some 0)
  taker_credit_of x p h e = elim ((credits_settled_parts x p h).1 e) [
    | inl q ↦ inl q
    | inr z ↦ inr (zero_credit x.taker_credit z)
  ]

  finish-Made :
      (x : DecideInput) (i : LegState) (t1 t2 : ℕ)
      → Made shake256 x i t1 t2 finish
      → (p : Bool) × (pushable_taker_credit shake256 x i ≡ some p) × (retire x i t2 p ≡ finish)
  finish-Made x i t1 t2 (by_finish p q r) = (p, q, r)

  -- The maker retires a record only when its own escrow is claimed or refunded, the taker's is too
  -- or was never funded and the window has closed, both its credits are provably zero or parked, and
  -- the taker's credit, where it is ours to deliver, is provably zero or parked.
  pub decide-finish : (x : DecideInput) → decide shake256 x ≡ some finish → FinishIsSafe x
  decide-finish x h =
      let s = decide-Settles shake256 x finish h refl in
      let (p, q, r) =
        finish-Made x s.own s.t1 s.t2 (settle-Made shake256 x s.own s.t1 s.t2 finish s.settled) in
      let (own, theirs, credits) = finish_parts x s.own s.t2 p r in
      record {
        own = s.own;
        t2 = s.t2;
        pushable = p;
        has_own = s.has_own;
        has_t2 = s.has_t2;
        own_done = terminal_status s.own own;
        theirs_done = theirs_done_of x s.t2 x.r_state refl theirs;
        own_credits = own_credits_of x p credits;
        is_pushable = q;
        taker_credit = taker_credit_of x p credits;
      }
