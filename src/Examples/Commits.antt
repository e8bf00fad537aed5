-- ===== src/Examples/Commits.antt =====
-- The group commit on a concrete run: a mutation, a call of `flush`, and one commit.
use quanta_swap.Prelude.{◌≡◌, ◌⊎◌, refl, true, none, some, [], ◌∷◌, codes}
use quanta_swap.Server.Commits.{
  Commits, not_persisted, loaded, persist, publish, mutate, flush, request, requests, mutates,
  flushes, Pass, replaced, unsynced, write_snapshot, take_batch, deliver, settle, fail_commit,
  commit_pass, commit_loop, run_commits, Reach, here, next, asks, runs,
}
use quanta_swap.Server.Commits.Durable.{
  IsDurable, IsDone, IsStopped, Reach-IsDurable, Reach-IsDone, run_commits-returns, failure_stops,
}

abbrev mutated : Commits
mutated = request (mutates (some (codes "order-v2"))) (loaded 3)

abbrev flushed : Commits
flushed = request (flushes 7) mutated

-- The first round's observer mutates, so that there is a second one.
abbrev busy_pass : Pass
busy_pass = record {
  write = replaced;
  feed_takes = true;
  observers = mutates none ∷ flushes 8 ∷ [];
}

abbrev quiet_pass : Pass
quiet_pass = record { write = replaced; feed_takes = true; observers = flushes 9 ∷ [] }

abbrev torn_pass : Pass
torn_pass = record { write = unsynced; feed_takes = true; observers = [] }

abbrev committed : Commits
committed = record (loaded 5) {
  published = record { payload = codes "order-v2"; since = 4 } ∷ [];
  feed = record { payload = codes "order-v2"; since = 4 } ∷ [];
  resolved =
      record { caller = 7; since = 4 }
      ∷ record { caller = 8; since = 5 }
      ∷ record { caller = 9; since = 5 }
      ∷ [];
  asked = 3;
}

-- The rename is done, the directory is not synchronised.
abbrev torn : Commits
torn = record (loaded 4) {
  published = record { payload = codes "order-v2"; since = 4 } ∷ [];
  commit_failure = some not_persisted;
  rejected = record { caller = 7; since = 4 } ∷ [];
  asked = 1;
  reports = 1;
}

Reach-flushed : Reach (loaded 3) flushed
Reach-flushed =
    next (next here (asks (mutates (some (codes "order-v2"))) refl)) (asks (flushes 7) refl)

is_due : flushed.scheduled ≡ true
unfolding request mutate flush persist publish
is_due = refl

commits_both : run_commits (busy_pass ∷ quiet_pass ∷ []) flushed ≡ some committed
unfolding request requests mutate flush persist publish write_snapshot take_batch deliver settle
    fail_commit commit_pass commit_loop run_commits
commits_both = refl

fails_once : run_commits (torn_pass ∷ []) flushed ≡ some torn
unfolding request requests mutate flush persist publish write_snapshot take_batch deliver settle
    fail_commit commit_pass commit_loop run_commits
fails_once = refl

Reach-committed : Reach (loaded 3) committed
Reach-committed = next Reach-flushed (runs (busy_pass ∷ quiet_pass ∷ []) is_due commits_both)

Reach-torn : Reach (loaded 3) torn
Reach-torn = next Reach-flushed (runs (torn_pass ∷ []) is_due fails_once)

Reach-IsDurable_example : IsDurable committed
Reach-IsDurable_example = Reach-IsDurable 3 committed Reach-committed

Reach-IsDone_example : (committed.scheduled ≡ true) ⊎ IsDone committed
Reach-IsDone_example = Reach-IsDone 3 committed Reach-committed

run_commits-returns_example :
    (t : Commits) × (run_commits (busy_pass ∷ quiet_pass ∷ []) flushed ≡ some t) × IsDone t
run_commits-returns_example =
    run_commits-returns 3 flushed (busy_pass ∷ []) quiet_pass Reach-flushed is_due refl

failure_stops_example : IsStopped not_persisted torn (request (flushes 1) torn)
failure_stops_example =
    failure_stops 3 torn (request (flushes 1) torn) not_persisted Reach-torn refl
      (next here (asks (flushes 1) refl))
