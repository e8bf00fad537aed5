-- ===== src/Server/Commits/Batch.antt =====
-- One round of the commit loop, and the loop (`runCommits` of server/src/store.ts).
use quanta_swap.Prelude.{
  ℕ, ◌+◌, ◌≤◌, ◌≡◌, ◌≢◌, refl, sym, ap, ◌∙◌, inl, inr, Bool, true, false, ◌||◌, Option, none, some,
  List, [], ◌∷◌, ◌++◌, Text, length, length-append, arith, Bool-cases, if_either, if_cases,
  option_either, option_cases, not, is_null, &&_parts, of_some, if_true, if_false,
}
use quanta_swap.Server.Commits.{
  CommitWaiter, FederationEvent, Commits, CommitFault, persist, publish, mutate, flush, Request,
  request, requests, mutates, flushes, start_commit_loop, Pass, WriteOutcome, replaced, disowned,
  unrenamed, unsynced, write_snapshot, fail_commit, take_batch, settle, deliver, commit_pass,
  has_work, reject, resolve, wait_next, wait_running, commit_loop,
}
use quanta_swap.Server.Commits.Sound.{
  IsSound, WaitersBy-append, EventsBy-append, WaitersBy-later, EventsBy-later, requests-IsSound,
}

append_nil {ℓ} : {A : Type ℓ} (xs : List A) → xs ++ [] ≡ xs
append_nil [] = refl
append_nil (x ∷ xs) = ap (λ l. x ∷ l) (append_nil xs)

module _ (s : Commits) (h : IsSound s) (alone : s.running_commit_waiters ≡ [])
    (n : s.commit_failure ≡ none) where
  -- The batch fails: the file is as it was, or it is replaced.
  failed-IsSound :
      (f : CommitFault) (file : ℕ)
      → s.file ≤ file
      → file ≤ s.memory
      → IsSound (fail_commit f (record (take_batch s) { file = file }))
  unfolding take_batch fail_commit
  failed-IsSound f file lo hi = record {
    behind = hi;
    kept = WaitersBy-later _ lo h.kept;
    covered = tt;
    queued = tt;
    fed = EventsBy-later _ lo h.fed;
    pending = tt;
    clean = λ e. ground (arith, e);
    idle = λ e. ground (arith, e);
    quiet = λ e. ground (arith, e);
    refused = λ _ _. refl;
    ordered = λ e. ground (arith, e);
    prefix = (s.pending_federation_events, h.ordered n);
    counted = omega (
      arith,
      h.counted,
      ap length alone,
      length-append s.rejected (s.next_commit_waiters ++ []),
      length-append s.next_commit_waiters [],
    );
  }

  -- The batch is on the file and in the feed.
  taken-IsSound :
      IsSound
        (record (take_batch s) { file = s.memory; feed = s.feed ++ s.pending_federation_events })
  unfolding take_batch
  taken-IsSound = record {
    behind = omega arith;
    kept = WaitersBy-later _ h.behind h.kept;
    covered = h.queued;
    queued = tt;
    fed = EventsBy-append _ _ _ (EventsBy-later _ h.behind h.fed) h.pending;
    pending = tt;
    clean = λ _ _. refl;
    idle = λ _ _. refl;
    quiet = λ _ _. refl;
    refused = λ f e. ground (arith, n, e);
    ordered = λ e. append_nil _ ∙ h.ordered n;
    prefix = ([], append_nil _ ∙ h.ordered n);
    counted = omega (arith, h.counted, ap length alone);
  }

settle-IsSound : (s : Commits) → IsSound s → IsSound (settle s)
unfolding settle
settle-IsSound s h = record {
  behind = h.behind;
  kept = WaitersBy-append _ _ _ h.kept h.covered;
  covered = tt;
  queued = h.queued;
  fed = h.fed;
  pending = h.pending;
  clean = h.clean;
  idle = h.idle;
  quiet = h.quiet;
  refused = λ f e. omega (arith, h.refused f e);
  ordered = h.ordered;
  prefix = h.prefix;
  counted = omega (arith, h.counted, length-append s.resolved s.running_commit_waiters);
}

deliver-none :
    (es : List FederationEvent) (takes : Bool) (s : Commits)
    → (deliver es takes s).1 ≡ none
    → (deliver es takes s).0 ≡ record s { feed = s.feed ++ es }
unfolding deliver
deliver-none [] takes s h = ap (λ l. record s { feed = l }) (sym (append_nil s.feed))
deliver-none (e ∷ es) true s h = refl
deliver-none (e ∷ es) false s h = ground (arith, h)

deliver-some :
    (es : List FederationEvent) (takes : Bool) (s : Commits) {f : CommitFault}
    → (deliver es takes s).1 ≡ some f
    → (deliver es takes s).0 ≡ s
unfolding deliver
deliver-some [] takes s h = refl
deliver-some (e ∷ es) true s h = ground (arith, h)
deliver-some (e ∷ es) false s h = refl

write_none :
    (w : WriteOutcome) (s : Commits)
    → (write_snapshot w s).1 ≡ none
    → (write_snapshot w s).0 ≡ record s { file = s.memory }
unfolding write_snapshot
write_none replaced s h = refl
write_none disowned s h = ground (arith, h)
write_none unrenamed s h = ground (arith, h)
write_none unsynced s h = ground (arith, h)

write_some :
    (w : WriteOutcome) (s : Commits)
    → s.file ≤ s.memory
    → (n : ℕ) × ((write_snapshot w s).0 ≡ record s { file = n }) × (s.file ≤ n) × (n ≤ s.memory)
unfolding write_snapshot
write_some replaced s h = (s.memory, refl, h, omega arith)
write_some disowned s h = (s.file, refl, omega arith, h)
write_some unrenamed s h = (s.file, refl, omega arith, h)
write_some unsynced s h = (s.memory, refl, h, omega arith)

write_some_batch :
    (w : WriteOutcome) (s : Commits)
    → s.file ≤ s.memory
    → (n : ℕ) × ((write_snapshot w (take_batch s)).0 ≡ record (take_batch s) { file = n })
      × (s.file ≤ n)
      × (n ≤ s.memory)
unfolding take_batch
write_some_batch w s h = write_some w (take_batch s) h

failed_alone : (f : CommitFault) (s : Commits) → (fail_commit f s).running_commit_waiters ≡ []
unfolding fail_commit
failed_alone f s = refl

settled_alone : (s : Commits) → (settle s).running_commit_waiters ≡ []
unfolding settle
settled_alone s = refl

-- Between two rounds nobody waits for a running commit.
abbrev pub IsBetween : Commits → Type 0
IsBetween s = IsSound s × (s.running_commit_waiters ≡ [])

commit_pass-IsBetween :
    (p : Pass) (s : Commits) → IsBetween s → s.commit_failure ≡ none → IsBetween (commit_pass p s)
unfolding commit_pass
commit_pass-IsBetween p s (h, alone) n =
    let t = take_batch s in
    let w = write_snapshot p.write t in
    let d = deliver s.pending_federation_events p.feed_takes w.0 in
    let (file, same, lo, hi) = write_some_batch p.write s h.behind in
    option_cases IsBetween w.1 _ _
      (λ e.
        let written = write_none p.write t e in
        option_cases IsBetween d.1 _ _
          (λ k. (
            settle-IsSound (requests p.observers d.0) (
                requests-IsSound p.observers d.0
                  (rw (deliver-none _ _ _ k, written) (taken-IsSound s h alone n))),
            settled_alone (requests p.observers d.0),
          ))
          (λ f k. (
            rw (deliver-some _ _ _ k, written)
                (failed-IsSound s h alone n f s.memory h.behind (omega arith)),
            failed_alone f d.0,
          )))
      (λ f _. (rw same (failed-IsSound s h alone n f file lo hi), failed_alone f w.0))

-- Inside the callback the loop is marked as running, and no other callback is due.
pub record IsLooping (s : Commits) : Type 0 where
  pub marked : s.committing ≡ true
  pub alone : s.scheduled ≡ false

unmarked : {s : Commits} → IsLooping s → s.committing ≢ false
unmarked h k = ground (arith, k, h.marked)

unguarded : {s : Commits} (b : Bool) → IsLooping s → (s.committing || b) ≢ false
unguarded b h k = ground (arith, k, h.marked)

-- The marks are all that counts.
as_marked :
    {s : Commits} (t : Commits)
    → IsLooping s
    → t.committing ≡ s.committing
    → t.scheduled ≡ s.scheduled
    → IsLooping t
as_marked t h c d = record { marked = c ∙ h.marked; alone = d ∙ h.alone }

persist-IsLooping : (s : Commits) → IsLooping s → IsLooping (persist s)
unfolding persist
persist-IsLooping s h =
    let d = record s { dirty = true } in
    let stays = s.committing || not (is_null s.commit_failure) in
    if_cases IsLooping stays d (start_commit_loop d) (λ _. as_marked d h refl refl)
      (λ k. absurd (unguarded (not (is_null s.commit_failure)) h k))

mutate-IsLooping : (event : Option Text) (s : Commits) → IsLooping s → IsLooping (mutate event s)
unfolding mutate publish
mutate-IsLooping event s h =
    let p = persist-IsLooping (record s { memory = s.memory + 1 }) (as_marked _ h refl refl) in
    option_either IsLooping event _ _ p (λ _ _. as_marked _ p refl refl)

flush-IsLooping : (caller : ℕ) (s : Commits) → IsLooping s → IsLooping (flush caller s)
unfolding flush
flush-IsLooping caller s h =
    let w : CommitWaiter = record { caller = caller; since = s.memory } in
    let a = record s { asked = s.asked + 1 } in
    let ha = as_marked a h refl refl in
    let next = wait_next w a in
    let first = wait_next w (start_commit_loop a) in
    if_either IsLooping (not (is_null s.commit_failure)) (reject w a) _
      (as_marked (reject w a) ha refl refl)
      (if_either IsLooping s.dirty _ _
        (if_cases IsLooping s.committing next first (λ _. as_marked next ha refl refl)
          (λ k. absurd (unmarked h k)))
        (if_either IsLooping s.committing (wait_running w a) (resolve w a)
          (as_marked (wait_running w a) ha refl refl) (as_marked (resolve w a) ha refl refl)))

request-IsLooping : (r : Request) (s : Commits) → IsLooping s → IsLooping (request r s)
unfolding request
request-IsLooping (mutates event) s h = mutate-IsLooping event s h
request-IsLooping (flushes caller) s h = flush-IsLooping caller s h

requests-IsLooping : (rs : List Request) (s : Commits) → IsLooping s → IsLooping (requests rs s)
unfolding requests
requests-IsLooping [] s h = h
requests-IsLooping (r ∷ rs) s h = requests-IsLooping rs (request r s) (request-IsLooping r s h)

write_snapshot-IsLooping :
    (w : WriteOutcome) (s : Commits) → IsLooping s → IsLooping (write_snapshot w s).0
unfolding write_snapshot
write_snapshot-IsLooping replaced s h = as_marked _ h refl refl
write_snapshot-IsLooping disowned s h = h
write_snapshot-IsLooping unrenamed s h = h
write_snapshot-IsLooping unsynced s h = as_marked _ h refl refl

deliver-IsLooping :
    (es : List FederationEvent) (takes : Bool) (s : Commits)
    → IsLooping s
    → IsLooping (deliver es takes s).0
unfolding deliver
deliver-IsLooping [] takes s h = h
deliver-IsLooping (e ∷ es) true s h = as_marked _ h refl refl
deliver-IsLooping (e ∷ es) false s h = h

commit_pass-IsLooping : (p : Pass) (s : Commits) → IsLooping s → IsLooping (commit_pass p s)
unfolding commit_pass take_batch fail_commit settle
commit_pass-IsLooping p s h =
    let t = take_batch s in
    let w = write_snapshot p.write t in
    let d = deliver s.pending_federation_events p.feed_takes w.0 in
    let hw = write_snapshot-IsLooping p.write t (as_marked t h refl refl) in
    let hd = deliver-IsLooping s.pending_federation_events p.feed_takes w.0 hw in
    let ho = requests-IsLooping p.observers d.0 hd in
    option_either IsLooping w.1 _ _
      (option_either IsLooping d.1 _ _ (as_marked _ ho refl refl) (λ _ _. as_marked _ hd refl refl))
      (λ _ _. as_marked _ hw refl refl)

-- What holds when the loop is left: nobody waits for the running commit, and there is no more
-- work.
pub record IsLeft (s : Commits) : Type 0 where
  pub between : IsBetween s
  pub looping : IsLooping s
  pub done : has_work s ≡ false

work_none : (s : Commits) → has_work s ≡ true → s.commit_failure ≡ none
work_none s h = let k = &&_parts s.dirty (is_null s.commit_failure) h in ground (arith, k)

stopped : (s t : Commits) → has_work s ≡ false → IsBetween s → IsLooping s → s ≡ t → IsLeft t
stopped s t w h l e = rw (sym e) (record { between = h; looping = l; done = w })

pub loop_ends : (ps : List Pass) (s : Commits) → has_work s ≡ false → commit_loop ps s ≡ some s
unfolding commit_loop
loop_ends [] s w = if_false _ _ _ w
loop_ends (p ∷ ps) s w = if_false _ _ _ w

pub loop_goes_on :
    (p : Pass) (ps : List Pass) (s : Commits)
    → has_work s ≡ true
    → commit_loop (p ∷ ps) s ≡ commit_loop ps (commit_pass p s)
unfolding commit_loop
loop_goes_on p ps s w = if_true _ _ _ w

loop_short : (s : Commits) → has_work s ≡ true → commit_loop [] s ≡ none
unfolding commit_loop
loop_short s w = if_true _ _ _ w

pub commit_loop-IsLeft :
    (ps : List Pass) (s t : Commits)
    → IsBetween s
    → IsLooping s
    → commit_loop ps s ≡ some t
    → IsLeft t
commit_loop-IsLeft [] s t h l e = elim (Bool-cases (has_work s)) [
  | inl w ↦ let k = sym (loop_short s w) ∙ e in ground (arith, k)
  | inr w ↦ stopped s t w h l (of_some (sym (loop_ends [] s w) ∙ e))
]
commit_loop-IsLeft (p ∷ ps) s t h l e = elim (Bool-cases (has_work s)) [
  | inl w ↦
      commit_loop-IsLeft ps (commit_pass p s) t (commit_pass-IsBetween p s h (work_none s w))
        (commit_pass-IsLooping p s l) (sym (loop_goes_on p ps s w) ∙ e)
  | inr w ↦ stopped s t w h l (of_some (sym (loop_ends (p ∷ ps) s w) ∙ e))
]
