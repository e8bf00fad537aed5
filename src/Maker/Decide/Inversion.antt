-- ===== src/Maker/Decide/Inversion.antt =====
-- What a decision of the maker was made from: the branch of `decide` (marketmaker/src/policy.ts)
-- that returned it.
use quanta_swap.Prelude.{
  sym, ℕ, ◌≡◌, refl, ◌⊎◌, inl, inr, Bool, true, false, ◌&&◌, Option, none, some, List, arith, Text,
  ◌>>=◌, when, if◌then◌else◌, Bool-cases, of_some, ◌∙◌, when_cases,
}
use quanta_swap.Chain.{LegState}
use quanta_swap.Maker.Decide.{
  DecideInput, BookStatus, Decision, wait, announce, lock, claim, sponsor, refund, withdraw, push,
  finish, abort, claim_gate, sponsor_gate, lock_gate, refund_gate, withdraw_gate, push_gate,
  pushable_taker_credit, retire, collect, settle, on_chain, on_book, decide, is_released,
  exposure_excluded, is_gone,
}

-- The decisions that only `settle` makes.
abbrev pub is_settling : Decision → Bool
is_settling wait = false
is_settling announce = false
is_settling abort = false
is_settling _ = true

three_way :
    (a b : Bool) (d : Decision)
    → (if a then finish else if b then abort else wait) ≡ d
    → (d ≡ finish) ⊎ ((d ≡ abort) ⊎ (d ≡ wait))
three_way a b d h = ground arith

retire_cases :
    (x : DecideInput) (i : LegState) (t2 : ℕ) (p : Bool) (d : Decision)
    → retire x i t2 p ≡ d
    → (d ≡ finish) ⊎ ((d ≡ abort) ⊎ (d ≡ wait))
unfolding retire
retire_cases x i t2 p d h = three_way _ _ d h

collect_cases :
    (w : Bool) (p : Option Bool) (g : Bool → Bool) (r : Bool → Decision) (d : Decision)
    → when (some w) (some withdraw) (p >>= λ b. when (some (g b)) (some push) (some (r b))) ≡ some d
    → ((w ≡ true) × (d ≡ withdraw))
      ⊎ ((b : Bool) × (w ≡ false)
          × (p ≡ some b)
          × ((g b ≡ true) × (d ≡ push) ⊎ (g b ≡ false) × (r b ≡ d)))
collect_cases true p g r d h = inl (refl, ground arith)
collect_cases false none g r d h = ground arith
collect_cases false (some b) g r d h = elim (Bool-cases (g b)) [
  | inl e ↦ inr (b, refl, refl, inl (e, ground (arith, e)))
  | inr e ↦ inr (b, refl, refl, inr (e, ground (arith, e)))
]

early_abort :
    (g r excluded : Bool) (rest : Option Decision) (d : Decision)
    → (if g && excluded then some abort else if r && excluded then some abort else rest) ≡ some d
    → ((d ≡ abort) × (excluded ≡ true)) ⊎ (rest ≡ some d)
early_abort g r excluded rest d h = ground arith

module _ (shake256 : Text → List ℕ) where
  pub record Settles (x : DecideInput) (d : Decision) : Type 0 where
    pub secret : Text
    pub hash : Text
    pub t1 : ℕ
    pub t2 : ℕ
    pub own : LegState
    pub has_secret : x.managed.preimage ≡ some secret
    pub has_hash : x.managed.hashlock ≡ some hash
    pub has_t1 : x.managed.initiator_timeout ≡ some t1
    pub has_t2 : x.managed.responder_timeout ≡ some t2
    pub has_own : x.i_state ≡ some own
    pub settled : settle shake256 x own t1 t2 ≡ some d

  on_chain-Settles :
      (x : DecideInput) (d : Decision) (p h : Option Text) (t u : Option ℕ) (s : Option LegState)
      → x.managed.preimage ≡ p
      → x.managed.hashlock ≡ h
      → x.managed.initiator_timeout ≡ t
      → x.managed.responder_timeout ≡ u
      → x.i_state ≡ s
      → on_chain shake256 x p h t u s ≡ some d
      → (d ≡ wait) ⊎ Settles x d
  unfolding on_chain
  on_chain-Settles x d (some p) (some h) (some t) (some u) (some s) a b c e f k = inr (record {
    secret = p;
    hash = h;
    t1 = t;
    t2 = u;
    own = s;
    has_secret = a;
    has_hash = b;
    has_t1 = c;
    has_t2 = e;
    has_own = f;
    settled = k;
  })
  on_chain-Settles x d _ _ _ _ _ a b c e f k = inl (ground arith)

  on_book-Settles :
      (x : DecideInput) (d : Decision) (b : BookStatus)
      → on_book shake256 x b ≡ some d
      → ((d ≡ wait) ⊎ (d ≡ announce)) ⊎ Settles x d
  unfolding on_book
  on_book-Settles x d BookStatus.opened k = inl (inl (ground arith))
  on_book-Settles x d BookStatus.accepted k = inl (inr (ground arith))
  on_book-Settles x d _ k = elim (on_chain-Settles x d _ _ _ _ _ refl refl refl refl refl k) [
    | inl p ↦ inl (inl p)
    | inr s ↦ inr s
  ]

  -- Every decision is an early one of the book, or `abort` with our exposure excluded, or is made
  -- by the chain's rules.
  pub decide_cases :
      (x : DecideInput) (d : Decision)
      → decide shake256 x ≡ some d
      → ((d ≡ abort) × (exposure_excluded x ≡ true)) ⊎ (((d ≡ wait) ⊎ (d ≡ announce)) ⊎ Settles x d)
  unfolding decide
  decide_cases x d k =
      elim (early_abort (is_gone x.book_status) (is_released x) (exposure_excluded x)
        (on_book shake256 x x.book_status) d k) [
          | inl p ↦ inl p
          | inr rest ↦ inr (on_book-Settles x d x.book_status rest)
        ]

  pub decide-Settles :
      (x : DecideInput) (d : Decision)
      → decide shake256 x ≡ some d
      → is_settling d ≡ true
      → Settles x d
  decide-Settles x d k s = elim (decide_cases x d k) [
    | inl p ↦ ground (arith, p.0)
    | inr (inl (inl p)) ↦ ground (arith, p)
    | inr (inl (inr p)) ↦ ground (arith, p)
    | inr (inr q) ↦ q
  ]

  -- The gate that a decision of `settle` passed, and for the last ones the gates that it failed.
  pub data Made (x : DecideInput) (i : LegState) (t1 t2 : ℕ) : Decision → Type 0 where
    by_claim : claim_gate shake256 x i t2 ≡ some true → Made x i t1 t2 claim
    by_sponsor : sponsor_gate shake256 x i ≡ some true → Made x i t1 t2 sponsor
    by_lock : lock_gate x i t2 ≡ true → Made x i t1 t2 lock
    by_refund : refund_gate x i t1 ≡ true → Made x i t1 t2 refund
    by_withdraw : withdraw_gate x ≡ true → Made x i t1 t2 withdraw
    by_push :
        (p : Bool)
        → pushable_taker_credit shake256 x i ≡ some p
        → push_gate x p ≡ true
        → Made x i t1 t2 push
    by_finish :
        (p : Bool)
        → pushable_taker_credit shake256 x i ≡ some p
        → retire x i t2 p ≡ finish
        → Made x i t1 t2 finish
    by_abort : (p : Bool) → retire x i t2 p ≡ abort → Made x i t1 t2 abort
    by_wait :
        (p : Bool)
        → claim_gate shake256 x i t2 ≡ some false
        → sponsor_gate shake256 x i ≡ some false
        → lock_gate x i t2 ≡ false
        → refund_gate x i t1 ≡ false
        → withdraw_gate x ≡ false
        → pushable_taker_credit shake256 x i ≡ some p
        → push_gate x p ≡ false
        → retire x i t2 p ≡ wait
        → Made x i t1 t2 wait

  retire-Made :
      (x : DecideInput) (i : LegState) (t1 t2 : ℕ) (d : Decision) (p : Bool)
      → claim_gate shake256 x i t2 ≡ some false
      → sponsor_gate shake256 x i ≡ some false
      → lock_gate x i t2 ≡ false
      → refund_gate x i t1 ≡ false
      → withdraw_gate x ≡ false
      → pushable_taker_credit shake256 x i ≡ some p
      → push_gate x p ≡ false
      → retire x i t2 p ≡ d
      → Made x i t1 t2 d
  retire-Made x i t1 t2 d p a b c e w q g r = elim (retire_cases x i t2 p d r) [
    | inl f ↦ rw f (by_finish p q (r ∙ f))
    | inr (inl f) ↦ rw f (by_abort p (r ∙ f))
    | inr (inr f) ↦ rw f (by_wait p a b c e w q g (r ∙ f))
  ]

  collect-Made :
      (x : DecideInput) (i : LegState) (t1 t2 : ℕ) (d : Decision)
      → claim_gate shake256 x i t2 ≡ some false
      → sponsor_gate shake256 x i ≡ some false
      → lock_gate x i t2 ≡ false
      → refund_gate x i t1 ≡ false
      → collect shake256 x i t2 ≡ some d
      → Made x i t1 t2 d
  unfolding collect
  collect-Made x i t1 t2 d a b c e k = elim (collect_cases _ _ (push_gate x) (retire x i t2) d k) [
    | inl (w, f) ↦ rw f (by_withdraw w)
    | inr (p, w, q, inl (g, f)) ↦ rw f (by_push p q g)
    | inr (p, w, q, inr (g, r)) ↦ retire-Made x i t1 t2 d p a b c e w q g r
  ]

  pub settle-Made :
      (x : DecideInput) (i : LegState) (t1 t2 : ℕ) (d : Decision)
      → settle shake256 x i t1 t2 ≡ some d
      → Made x i t1 t2 d
  unfolding settle
  settle-Made x i t1 t2 d k =
      let late = collect shake256 x i t2 in
      let refunds = when (some (refund_gate x i t1)) (some refund) late in
      let locks = when (some (lock_gate x i t2)) (some lock) refunds in
      let sponsors = when (sponsor_gate shake256 x i) (some sponsor) locks in
      elim (when_cases (claim_gate shake256 x i t2) (some claim) sponsors k) [
        | inl (g, f) ↦ rw (sym (of_some f)) (by_claim g)
        | inr (a, k) ↦ elim (when_cases (sponsor_gate shake256 x i) (some sponsor) locks k) [
          | inl (g, f) ↦ rw (sym (of_some f)) (by_sponsor g)
          | inr (b, k) ↦ elim (when_cases (some (lock_gate x i t2)) (some lock) refunds k) [
            | inl (g, f) ↦ rw (sym (of_some f)) (by_lock (of_some g))
            | inr (c, k) ↦ elim (when_cases (some (refund_gate x i t1)) (some refund) late k) [
              | inl (g, f) ↦ rw (sym (of_some f)) (by_refund (of_some g))
              | inr (e, k) ↦ collect-Made x i t1 t2 d a b (of_some c) (of_some e) k
            ]
          ]
        ]
      ]
