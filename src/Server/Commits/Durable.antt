-- ===== src/Server/Commits/Durable.antt =====
-- What the callers of the order book's store are promised (`flush` of server/src/store.ts).
use quanta_swap.Prelude.{
  ℕ, ◌+◌, ◌≡◌, refl, sym, ap, ◌∙◌, inl, inr, Bool, true, false, ◌&&◌, ◌||◌, ◌⊎◌, Option, none, some,
  List, [], ◌∷◌, ◌++◌, Text, arith, Bool-cases, Option-cases, is_null, not, length, option_either,
  if_true, length-append,
}
use quanta_swap.Server.Commits.{
  FederationEvent, Commits, CommitFault, loaded, flush, mutate, persist, publish, Request, request,
  mutates, flushes, Pass, commit_loop, run_commits, has_work, Step, asks, runs, Reach, here, next,
}
use quanta_swap.Server.Commits.Sound.{WaitersBy, EventsBy, answered}
use quanta_swap.Server.Commits.Resting.{IsResting, request-IsResting, run_commits-IsResting}
use quanta_swap.Server.Commits.Enough.{only_flushes, commit_loop-returns}

loaded-IsResting : (n : ℕ) → IsResting (loaded n)
loaded-IsResting n = record {
  sound = record {
    behind = omega arith;
    kept = tt;
    covered = tt;
    queued = tt;
    fed = tt;
    pending = tt;
    clean = λ _ _. refl;
    idle = λ _ _. refl;
    quiet = λ _ _. refl;
    refused = λ f e. refl;
    ordered = λ _. refl;
    prefix = ([], refl);
    counted = refl;
  };
  marked = record { alone = refl; due = refl; busy = refl };
}

Step-IsResting : (s t : Commits) → Step s t → IsResting s → IsResting t
Step-IsResting s t (asks r e) h = rw e (request-IsResting r s h)
Step-IsResting s t (runs ps d e) h = (run_commits-IsResting ps s t h d e).0

Reach-IsResting : {s t : Commits} → IsResting s → Reach s t → IsResting t
Reach-IsResting h here = h
Reach-IsResting h (next {t} {u} r st) = Step-IsResting t u st (Reach-IsResting h r)

-- The file is behind no promise that was resolved and no event that was handed over, and the feed
-- has a prefix of the public events.
pub record IsDurable (s : Commits) : Type 0 where
  pub resolved : WaitersBy s.file s.resolved
  pub handed_over : EventsBy s.file s.feed
  pub prefix : (rest : List FederationEvent) × (s.feed ++ rest ≡ s.published)
  pub waiting : s.commit_failure ≡ none → s.feed ++ s.pending_federation_events ≡ s.published

-- Durability: at every moment between two callbacks of the event loop, whatever was asked and
-- however the writes ended, the orders file holds every mutation that came before a `flush` that
-- was resolved, and every mutation whose event the federation feed has taken. The feed has taken
-- a prefix of the public events in the order of their mutations, and as long as no commit has
-- failed the rest of them wait for a commit.
pub Reach-IsDurable : (n : ℕ) (s : Commits) → Reach (loaded n) s → IsDurable s
Reach-IsDurable n s r =
    let h = (Reach-IsResting (loaded-IsResting n) r).sound in
    record { resolved = h.kept; handed_over = h.fed; prefix = h.prefix; waiting = h.ordered }

unmarked_work : (d n : Bool) → n ≡ true → (d && n) ≡ false → d ≡ false
unmarked_work d n h k = ground arith

append_nil {ℓ} : {A : Type ℓ} (xs : List A) → xs ++ [] ≡ xs
append_nil [] = refl
append_nil (x ∷ xs) = ap (λ l. x ∷ l) (append_nil xs)

-- Nothing is left to do: every call is answered, and unless a commit has failed the file holds
-- every mutation and the feed every public event.
pub record IsDone (s : Commits) : Type 0 where
  pub all_answered : s.asked ≡ length s.resolved + length s.rejected
  pub written : s.commit_failure ≡ none → s.file ≡ s.memory
  pub fed : s.commit_failure ≡ none → s.feed ≡ s.published

resting-IsDone : (s : Commits) → IsResting s → s.scheduled ≡ false → IsDone s
resting-IsDone s h d =
    let clean : s.commit_failure ≡ none → s.dirty ≡ false = λ e.
      unmarked_work s.dirty (is_null s.commit_failure) (ap is_null e)
        (sym h.marked.busy ∙ sym h.marked.due ∙ d) in
    record {
      all_answered = elim (Option-cases s.commit_failure) [
        | inr (f, e) ↦ omega (arith, h.sound.counted, h.sound.refused f e)
        | inl e ↦
            omega (
              arith,
              h.sound.counted,
              ap length (h.sound.idle e (clean e)),
              ap length h.marked.alone,
            )
      ];
      written = λ e. h.sound.clean e (clean e);
      fed = λ e.
          sym (append_nil s.feed)
          ∙ sym (ap (λ l. s.feed ++ l) (h.sound.quiet e (clean e)))
          ∙ h.sound.ordered e;
    }

-- No commit is forgotten: between two callbacks either a commit is scheduled, or every call of
-- `flush` is answered and, unless a commit has failed, the file holds every mutation and the feed
-- every public event.
pub Reach-IsDone : (n : ℕ) (s : Commits) → Reach (loaded n) s → (s.scheduled ≡ true) ⊎ IsDone s
Reach-IsDone n s r = elim (Bool-cases s.scheduled) [
  | inl e ↦ inl e
  | inr e ↦ inr (resting-IsDone s (Reach-IsResting (loaded-IsResting n) r) e)
]

run_returns :
    (ps : List Pass) (s t : Commits)
    → commit_loop ps (record s { scheduled = false }) ≡ some t
    → run_commits ps s ≡ some (record t { committing = false })
unfolding run_commits
run_returns ps s t e = rw e refl

-- A scheduled commit ends, however its writes and the feed behave, once its observers ask for no
-- more mutations, and then every call of `flush` is answered and, unless it has failed, the file
-- holds every mutation and the feed every public event.
pub run_commits-returns :
    (n : ℕ) (s : Commits) (ps : List Pass) (p : Pass)
    → Reach (loaded n) s
    → s.scheduled ≡ true
    → only_flushes p.observers ≡ true
    → (t : Commits) × (run_commits (ps ++ p ∷ []) s ≡ some t) × IsDone t
run_commits-returns n s ps p r d q =
    let h = Reach-IsResting (loaded-IsResting n) r in
    let (t, e) = commit_loop-returns ps p (record s { scheduled = false }) q in
    let ends = run_returns (ps ++ p ∷ []) s t e in
    let u = record t { committing = false } in
    let (rests, answered) = run_commits-IsResting (ps ++ p ∷ []) s u h d ends in
    (u, ends, resting-IsDone u rests (rests.marked.due))

-- What a failed commit leaves for good: the file, the feed and the answers that were given.
pub record IsStopped (f : CommitFault) (s t : Commits) : Type 0 where
  pub failed : t.commit_failure ≡ some f
  pub unwritten : t.file ≡ s.file
  pub unfed : t.feed ≡ s.feed
  pub unresolved : t.resolved ≡ s.resolved
  pub none_due : t.scheduled ≡ false
  pub all_refused : length t.rejected + s.asked ≡ length s.rejected + t.asked

failed_guard :
    (s : Commits) (f : CommitFault)
    → s.commit_failure ≡ some f
    → not (is_null s.commit_failure) ≡ true
failed_guard s f e = rw e refl

or_true : (a b : Bool) → b ≡ true → (a || b) ≡ true
or_true a b h = ground arith

persist_failed :
    (s : Commits) (f : CommitFault)
    → s.commit_failure ≡ some f
    → persist s ≡ record s { dirty = true }
unfolding persist
persist_failed s f e = if_true _ _ _ (or_true s.committing _ (failed_guard s f e))

flush_failed :
    (caller : ℕ) (s : Commits) (f : CommitFault)
    → s.commit_failure ≡ some f
    → flush caller s ≡ record s {
      asked = s.asked + 1;
      rejected = s.rejected ++ record { caller = caller; since = s.memory } ∷ [];
    }
unfolding flush
flush_failed caller s f e = if_true _ _ _ (failed_guard s f e)

mutate-IsStopped :
    (event : Option Text) (f : CommitFault) (s t : Commits)
    → IsStopped f s t
    → IsStopped f s (mutate event t)
unfolding mutate publish
mutate-IsStopped event f s t h =
    let grown = record t { memory = t.memory + 1 } in
    let p : IsStopped f s (persist grown) = rw (persist_failed grown f h.failed) (record {
      failed = h.failed;
      unwritten = h.unwritten;
      unfed = h.unfed;
      unresolved = h.unresolved;
      none_due = h.none_due;
      all_refused = h.all_refused;
    }) in
    option_either (IsStopped f s) event (persist grown) _ p (λ e _. record {
      failed = p.failed;
      unwritten = p.unwritten;
      unfed = p.unfed;
      unresolved = p.unresolved;
      none_due = p.none_due;
      all_refused = p.all_refused;
    })

request-IsStopped :
    (r : Request) (f : CommitFault) (s t : Commits) → IsStopped f s t → IsStopped f s (request r t)
unfolding request
request-IsStopped (mutates event) f s t h = mutate-IsStopped event f s t h
request-IsStopped (flushes caller) f s t h = rw (flush_failed caller t f h.failed) (record {
  failed = h.failed;
  unwritten = h.unwritten;
  unfed = h.unfed;
  unresolved = h.unresolved;
  none_due = h.none_due;
  all_refused = omega (
    arith,
    h.all_refused,
    length-append t.rejected (record { caller = caller; since = t.memory } ∷ []),
  );
})

Step-IsStopped : (f : CommitFault) (s t u : Commits) → Step t u → IsStopped f s t → IsStopped f s u
Step-IsStopped f s t u (asks r e) h = rw e (request-IsStopped r f s t h)
Step-IsStopped f s t u (runs ps d e) h = let k = h.none_due in ground (arith, d, k)

Reach-IsStopped :
    (f : CommitFault) (s : Commits) {t u : Commits} → IsStopped f s t → Reach t u → IsStopped f s u
Reach-IsStopped f s h here = h
Reach-IsStopped f s h (next {t} {u} r st) = Step-IsStopped f s t u st (Reach-IsStopped f s h r)

no_more_work : (s : Commits) (f : CommitFault) → s.commit_failure ≡ some f → has_work s ≡ false
no_more_work s f e = rw e (ground arith)

-- A failed commit stops the store for good: whatever is asked of it afterwards, the failure stays
-- the first one, the file is not written again, the feed is handed nothing, no call of `flush` is
-- resolved, no commit is scheduled, and every call is refused.
pub failure_stops :
    (n : ℕ) (s t : Commits) (f : CommitFault)
    → Reach (loaded n) s
    → s.commit_failure ≡ some f
    → Reach s t
    → IsStopped f s t
failure_stops n s t f r e q =
    let h = Reach-IsResting (loaded-IsResting n) r in
    let d = h.marked.due ∙ h.marked.busy ∙ no_more_work s f e in
    Reach-IsStopped f s
      (record {
        failed = e;
        unwritten = refl;
        unfed = refl;
        unresolved = refl;
        none_due = d;
        all_refused = refl;
      })
      q
