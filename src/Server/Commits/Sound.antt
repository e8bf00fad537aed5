-- ===== src/Server/Commits/Sound.antt =====
-- The invariant of the group commit (server/src/store.ts) at every point of the event loop.
use quanta_swap.Prelude.{
  ℕ, ◌+◌, ◌≤◌, ◌≡◌, refl, sym, ap, ◌∙◌, Bool, true, false, Option, none, some, List, [], ◌∷◌, ◌++◌,
  Text, All, length, length-append, arith, if_either, if_cases, option_either, not, is_null,
}
use quanta_swap.Server.Commits.{
  CommitWaiter, FederationEvent, Commits, CommitFault, persist, publish, mutate, flush, Request,
  request, requests, mutates, flushes, wait_next,
}

abbrev pub WaitersBy : ℕ → List CommitWaiter → Type 0
WaitersBy n = All (λ (w : CommitWaiter). w.since ≤ n)

abbrev pub EventsBy : ℕ → List FederationEvent → Type 0
EventsBy n = All (λ (e : FederationEvent). e.since ≤ n)

-- The callers that `flush` has not answered.
abbrev pub waiting : Commits → ℕ
waiting s = length s.next_commit_waiters + length s.running_commit_waiters

abbrev pub answered : Commits → ℕ
answered s = length s.resolved + length s.rejected

pub record IsSound (s : Commits) : Type 0 where
  pub behind : s.file ≤ s.memory
  pub kept : WaitersBy s.file s.resolved
  pub covered : WaitersBy s.file s.running_commit_waiters
  pub queued : WaitersBy s.memory s.next_commit_waiters
  pub fed : EventsBy s.file s.feed
  pub pending : EventsBy s.memory s.pending_federation_events
  pub clean : s.commit_failure ≡ none → s.dirty ≡ false → s.file ≡ s.memory
  pub idle : s.commit_failure ≡ none → s.dirty ≡ false → s.next_commit_waiters ≡ []
  pub quiet : s.commit_failure ≡ none → s.dirty ≡ false → s.pending_federation_events ≡ []
  pub refused : (f : CommitFault) → s.commit_failure ≡ some f → waiting s ≡ 0
  pub ordered : s.commit_failure ≡ none → s.feed ++ s.pending_federation_events ≡ s.published
  pub prefix : (rest : List FederationEvent) × (s.feed ++ rest ≡ s.published)
  pub counted : s.asked ≡ answered s + waiting s

All-append {ℓ κ} :
    {A : Type ℓ} (P : A → Type κ) (xs ys : List A) → All P xs → All P ys → All P (xs ++ ys)
All-append P [] ys h k = k
All-append P (x ∷ xs) ys h k = (h.0, All-append P xs ys h.1 k)

pub WaitersBy-append :
    (n : ℕ) (xs ys : List CommitWaiter) → WaitersBy n xs → WaitersBy n ys → WaitersBy n (xs ++ ys)
WaitersBy-append n xs ys h k = All-append _ xs ys h k

pub EventsBy-append :
    (n : ℕ) (xs ys : List FederationEvent) → EventsBy n xs → EventsBy n ys → EventsBy n (xs ++ ys)
EventsBy-append n xs ys h k = All-append _ xs ys h k

pub WaitersBy-later : {m n : ℕ} (xs : List CommitWaiter) → m ≤ n → WaitersBy m xs → WaitersBy n xs
WaitersBy-later [] h k = tt
WaitersBy-later (x ∷ xs) h k = (omega (arith, h, k.0), WaitersBy-later xs h k.1)

pub EventsBy-later : {m n : ℕ} (xs : List FederationEvent) → m ≤ n → EventsBy m xs → EventsBy n xs
EventsBy-later [] h k = tt
EventsBy-later (x ∷ xs) h k = (omega (arith, h, k.0), EventsBy-later xs h k.1)

pub append_assoc {ℓ} : {A : Type ℓ} (xs ys zs : List A) → (xs ++ ys) ++ zs ≡ xs ++ (ys ++ zs)
append_assoc [] ys zs = refl
append_assoc (x ∷ xs) ys zs = ap (λ l. x ∷ l) (append_assoc xs ys zs)

-- The marks of the loop do not matter here.
pub remarked :
    (s : Commits) (c d : Bool) → IsSound s → IsSound (record s { committing = c; scheduled = d })
remarked s c d h = record {
  behind = h.behind;
  kept = h.kept;
  covered = h.covered;
  queued = h.queued;
  fed = h.fed;
  pending = h.pending;
  clean = h.clean;
  idle = h.idle;
  quiet = h.quiet;
  refused = h.refused;
  ordered = h.ordered;
  prefix = h.prefix;
  counted = h.counted;
}

abbrev touched : Commits → Commits
touched s = record s { memory = s.memory + 1; dirty = true }

touched-IsSound : (s : Commits) → IsSound s → IsSound (touched s)
touched-IsSound s h = record {
  behind = omega (arith, h.behind);
  kept = h.kept;
  covered = h.covered;
  queued = WaitersBy-later _ (omega arith) h.queued;
  fed = h.fed;
  pending = EventsBy-later _ (omega arith) h.pending;
  clean = λ _ d. ground (arith, d);
  idle = λ _ d. ground (arith, d);
  quiet = λ _ d. ground (arith, d);
  refused = h.refused;
  ordered = h.ordered;
  prefix = h.prefix;
  counted = h.counted;
}

persist-IsSound : (s : Commits) → IsSound s → IsSound (persist (record s { memory = s.memory + 1 }))
unfolding persist
persist-IsSound s h =
    let t = touched-IsSound s h in if_either IsSound _ _ _ t (remarked (touched s) true true t)

persist_memory : (s : Commits) → (persist s).memory ≡ s.memory
unfolding persist
persist_memory s = if_either (λ (t : Commits). t.memory ≡ s.memory) _ _ _ refl refl

persist_dirty : (s : Commits) → (persist s).dirty ≡ true
unfolding persist
persist_dirty s = if_either (λ (t : Commits). t.dirty ≡ true) _ _ _ refl refl

publish-IsSound :
    (e : FederationEvent) (s : Commits)
    → e.since ≤ s.memory
    → s.dirty ≡ true
    → IsSound s
    → IsSound (publish e s)
unfolding publish
publish-IsSound e s m d h = record {
  behind = h.behind;
  kept = h.kept;
  covered = h.covered;
  queued = h.queued;
  fed = h.fed;
  pending = EventsBy-append _ _ _ h.pending (m, tt);
  clean = h.clean;
  idle = h.idle;
  quiet = λ _ e. ground (arith, d, e);
  refused = h.refused;
  ordered = λ n. sym (append_assoc s.feed _ _) ∙ ap (λ l. l ++ e ∷ []) (h.ordered n);
  prefix = (h.prefix.0 ++ e ∷ [], sym (append_assoc s.feed _ _) ∙ ap (λ l. l ++ e ∷ []) h.prefix.1);
  counted = h.counted;
}

pub mutate-IsSound : (event : Option Text) (s : Commits) → IsSound s → IsSound (mutate event s)
unfolding mutate
mutate-IsSound event s h =
    let grown = record s { memory = s.memory + 1 } in
    let p = persist-IsSound s h in
    let m = persist_memory grown in
    option_either IsSound event _ _ p
      (λ e _. publish-IsSound _ (persist grown) (omega (arith, m)) (persist_dirty grown) p)

-- A call of `flush` is answered, or it joins one of the two queues.
module _ (s : Commits) (w : CommitWaiter) (at : w.since ≡ s.memory) (h : IsSound s) where
  abbrev asking : Commits
  asking = record s { asked = s.asked + 1 }

  refused-IsSound : IsSound (record asking { rejected = s.rejected ++ w ∷ [] })
  refused-IsSound = record {
    behind = h.behind;
    kept = h.kept;
    covered = h.covered;
    queued = h.queued;
    fed = h.fed;
    pending = h.pending;
    clean = h.clean;
    idle = h.idle;
    quiet = h.quiet;
    refused = h.refused;
    ordered = h.ordered;
    prefix = h.prefix;
    counted = omega (arith, h.counted, length-append s.rejected (w ∷ []));
  }

  joins_next-IsSound :
      s.commit_failure ≡ none
      → s.dirty ≡ true
      → IsSound (record asking { next_commit_waiters = s.next_commit_waiters ++ w ∷ [] })
  joins_next-IsSound n d = record {
    behind = h.behind;
    kept = h.kept;
    covered = h.covered;
    queued = WaitersBy-append _ _ _ h.queued (omega (arith, at), tt);
    fed = h.fed;
    pending = h.pending;
    clean = h.clean;
    idle = λ _ e. ground (arith, d, e);
    quiet = h.quiet;
    refused = λ f e. ground (arith, n, e);
    ordered = h.ordered;
    prefix = h.prefix;
    counted = omega (arith, h.counted, length-append s.next_commit_waiters (w ∷ []));
  }

  joins_running-IsSound :
      s.commit_failure ≡ none
      → s.dirty ≡ false
      → IsSound (record asking { running_commit_waiters = s.running_commit_waiters ++ w ∷ [] })
  joins_running-IsSound n d = record {
    behind = h.behind;
    kept = h.kept;
    covered = WaitersBy-append _ _ _ h.covered (omega (arith, at, h.clean n d), tt);
    queued = h.queued;
    fed = h.fed;
    pending = h.pending;
    clean = h.clean;
    idle = h.idle;
    quiet = h.quiet;
    refused = λ f e. ground (arith, n, e);
    ordered = h.ordered;
    prefix = h.prefix;
    counted = omega (arith, h.counted, length-append s.running_commit_waiters (w ∷ []));
  }

  resolved-IsSound :
      s.commit_failure ≡ none
      → s.dirty ≡ false
      → IsSound (record asking { resolved = s.resolved ++ w ∷ [] })
  resolved-IsSound n d = record {
    behind = h.behind;
    kept = WaitersBy-append _ _ _ h.kept (omega (arith, at, h.clean n d), tt);
    covered = h.covered;
    queued = h.queued;
    fed = h.fed;
    pending = h.pending;
    clean = h.clean;
    idle = h.idle;
    quiet = h.quiet;
    refused = h.refused;
    ordered = h.ordered;
    prefix = h.prefix;
    counted = omega (arith, h.counted, length-append s.resolved (w ∷ []));
  }

pub not_null-false {ℓ} : {A : Type ℓ} (o : Option A) → not (is_null o) ≡ false → o ≡ none
not_null-false none h = refl
not_null-false (some a) h = ground (arith, h)

pub flush-IsSound : (caller : ℕ) (s : Commits) → IsSound s → IsSound (flush caller s)
unfolding flush
flush-IsSound caller s h =
    let w : CommitWaiter = record { caller = caller; since = s.memory } in
    if_cases IsSound _ _ _ (λ _. refused-IsSound s w refl h)
      (λ k.
        let n = not_null-false s.commit_failure k in
        if_cases IsSound s.dirty _ _
          (λ d.
            let j = joins_next-IsSound s w refl h n d in
            if_either IsSound s.committing _ _ j
              (remarked (wait_next w (record s { asked = s.asked + 1 })) true true j))
          (λ d.
            if_cases IsSound s.committing _ _ (λ _. joins_running-IsSound s w refl h n d)
              (λ _. resolved-IsSound s w refl h n d)))

pub request-IsSound : (r : Request) (s : Commits) → IsSound s → IsSound (request r s)
unfolding request
request-IsSound (mutates event) s h = mutate-IsSound event s h
request-IsSound (flushes caller) s h = flush-IsSound caller s h

pub requests-IsSound : (rs : List Request) (s : Commits) → IsSound s → IsSound (requests rs s)
unfolding requests
requests-IsSound [] s h = h
requests-IsSound (r ∷ rs) s h = requests-IsSound rs (request r s) (request-IsSound r s h)
