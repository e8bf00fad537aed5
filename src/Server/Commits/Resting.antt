-- ===== src/Server/Commits/Resting.antt =====
-- The group commit between two callbacks of the event loop (server/src/store.ts).
use quanta_swap.Prelude.{
  ℕ, ◌+◌, ◌≡◌, ◌≢◌, refl, sym, ap, ◌∙◌, inl, inr, Bool, true, false, ◌&&◌, ◌||◌, Option, none, some,
  List, [], Text, arith, length, Option-cases, if_cases, option_either, not, is_null, of_some,
  on_option,
}
use quanta_swap.Server.Commits.{
  CommitWaiter, Commits, persist, publish, mutate, flush, Request, request, mutates, flushes,
  start_commit_loop, Pass, has_work, reject, resolve, wait_next, wait_running, run_commits,
}
use quanta_swap.Server.Commits.Sound.{IsSound, request-IsSound, remarked, waiting}
use quanta_swap.Server.Commits.Batch.{IsBetween, IsLooping, IsLeft, commit_loop-IsLeft}

-- The marks of the loop: a callback is due exactly when there is work, and nobody waits for a
-- running commit.
pub record IsMarked (s : Commits) : Type 0 where
  pub alone : s.running_commit_waiters ≡ []
  pub due : s.scheduled ≡ s.committing
  pub busy : s.committing ≡ has_work s

as_busy :
    {s : Commits} (t : Commits)
    → IsMarked s
    → t.running_commit_waiters ≡ s.running_commit_waiters
    → t.scheduled ≡ s.scheduled
    → t.committing ≡ s.committing
    → has_work t ≡ has_work s
    → IsMarked t
as_busy t h a b c d = record {
  alone = a ∙ h.alone;
  due = b ∙ h.due ∙ sym c;
  busy = c ∙ h.busy ∙ sym d;
}

begun :
    (t : Commits)
    → t.running_commit_waiters ≡ []
    → t.scheduled ≡ true
    → t.committing ≡ true
    → has_work t ≡ true
    → IsMarked t
begun t a b c d = record { alone = a; due = b ∙ sym c; busy = c ∙ sym d }

works : (d c n : Bool) → c ≡ (d && n) → (c || not n) ≡ true → (true && n) ≡ (d && n)
works d c n h k = ground arith

idle_works : (c n : Bool) → (c || not n) ≡ false → n ≡ true
idle_works c n h = ground arith

persist-IsMarked : (s : Commits) → IsMarked s → IsMarked (persist s)
unfolding persist
persist-IsMarked s h =
    let d = record s { dirty = true } in
    if_cases IsMarked (s.committing || not (is_null s.commit_failure)) d (start_commit_loop d)
      (λ k.
        as_busy d h refl refl refl (works s.dirty s.committing (is_null s.commit_failure) h.busy k))
      (λ k.
        begun (start_commit_loop d) h.alone refl refl
          (idle_works s.committing (is_null s.commit_failure) k))

mutate-IsMarked : (event : Option Text) (s : Commits) → IsMarked s → IsMarked (mutate event s)
unfolding mutate publish
mutate-IsMarked event s h =
    let grown = record s { memory = s.memory + 1 } in
    let p = persist-IsMarked grown (as_busy grown h refl refl refl refl) in
    option_either IsMarked event (persist grown) _ p (λ e _. as_busy _ p refl refl refl refl)

unforced : (d c n : Bool) → c ≡ (d && n) → d ≡ true → c ≡ false → not n ≡ false → n ≡ true
unforced d c n h a b k = ground arith

not_running : (d c n : Bool) → c ≡ (d && n) → d ≡ false → c ≢ true
not_running d c n h a b = ground arith

flush-IsMarked : (caller : ℕ) (s : Commits) → IsMarked s → IsMarked (flush caller s)
unfolding flush
flush-IsMarked caller s h =
    let w : CommitWaiter = record { caller = caller; since = s.memory } in
    let a = record s { asked = s.asked + 1 } in
    let n = is_null s.commit_failure in
    let first = wait_next w (start_commit_loop a) in
    if_cases IsMarked (not n) (reject w a) _ (λ _. as_busy (reject w a) h refl refl refl refl)
      (λ k.
        if_cases IsMarked s.dirty _ _
          (λ d.
            if_cases IsMarked s.committing (wait_next w a) first
              (λ _. as_busy (wait_next w a) h refl refl refl refl)
              (λ c.
                begun first h.alone refl refl
                  (rw d (unforced s.dirty s.committing n h.busy d c k))))
          (λ d.
            if_cases IsMarked s.committing (wait_running w a) (resolve w a)
              (λ c. absurd (not_running s.dirty s.committing n h.busy d c))
              (λ _. as_busy (resolve w a) h refl refl refl refl)))

request-IsMarked : (r : Request) (s : Commits) → IsMarked s → IsMarked (request r s)
unfolding request
request-IsMarked (mutates event) s h = mutate-IsMarked event s h
request-IsMarked (flushes caller) s h = flush-IsMarked caller s h

-- What holds between two callbacks.
pub record IsResting (s : Commits) : Type 0 where
  pub sound : IsSound s
  pub marked : IsMarked s

pub request-IsResting : (r : Request) (s : Commits) → IsResting s → IsResting (request r s)
request-IsResting r s h = record {
  sound = request-IsSound r s h.sound;
  marked = request-IsMarked r s h.marked;
}

looping :
    (s : Commits) → IsResting s → s.scheduled ≡ true → IsLooping (record s { scheduled = false })
looping s h d = record { marked = sym h.marked.due ∙ d; alone = refl }

left-IsResting : (t : Commits) → IsLeft t → IsResting (record t { committing = false })
left-IsResting t l = record {
  sound = remarked t false t.scheduled l.between.0;
  marked = record { alone = l.between.1; due = l.looping.alone; busy = sym l.done };
}

not_dirty : (t : Commits) → t.commit_failure ≡ none → has_work t ≡ false → t.dirty ≡ false
not_dirty t n w = let k = rw n at w in ground (arith, k)

-- What is left when there is no work has an answer for every caller.
all_answered : (t : Commits) → IsLeft t → waiting t ≡ 0
all_answered t l = elim (Option-cases t.commit_failure) [
  | inr (f, e) ↦ l.between.0.refused f e
  | inl n ↦
      let q = l.between.0.idle n (not_dirty t n l.done) in
      omega (arith, ap length q, ap length l.between.1)
]

run_ends :
    (o : Option Commits) (t : Commits)
    → on_option o none (λ (u : Commits). some (record u { committing = false })) ≡ some t
    → (u : Commits) × (o ≡ some u) × (record u { committing = false } ≡ t)
run_ends none t e = ground (arith, e)
run_ends (some u) t e = (u, refl, of_some e)

pub run_commits-IsResting :
    (ps : List Pass) (s t : Commits)
    → IsResting s
    → s.scheduled ≡ true
    → run_commits ps s ≡ some t
    → IsResting t × (waiting t ≡ 0)
unfolding run_commits
run_commits-IsResting ps s t h d e =
    let (u, ends, same) = run_ends _ t e in
    let between : IsBetween (record s { scheduled = false }) =
      (remarked s s.committing false h.sound, h.marked.alone) in
    let left =
      commit_loop-IsLeft ps (record s { scheduled = false }) u between (looping s h d) ends in
    rw (sym same) (left-IsResting u left, all_answered u left)
