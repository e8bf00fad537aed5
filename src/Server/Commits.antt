-- ===== src/Server/Commits.antt =====
-- The group commit of the order book's store (server/src/store.ts, from `publish` to `failCommit`).
-- The maps of the store are counted, not kept: `memory` is the number of mutations applied to
-- them, `file` the number that the orders file holds. A waiter and a public event carry the count
-- at which they were made (`since`). Promises are lists: `resolved` and `rejected` are the callers
-- that were answered, `asked` counts the calls of `flush`, `published` lists every public event
-- and `feed` those that the federation listener took. `scheduled` says that a callback of
-- `setImmediate` is due, and `reports` counts the calls of `onPersistenceFailure`.
pub mod Sound
pub mod Batch
pub mod Resting
pub mod Enough
pub mod Durable
use quanta_swap.Prelude.{
  ℕ, ◌+◌, ◌≡◌, Bool, true, false, ◌&&◌, ◌||◌, not, Option, none, some, List, [], ◌∷◌, ◌++◌, Text,
  if◌then◌else◌, is_null, on_option,
}

pub data CommitFault : Type 0 where
  not_owned not_persisted feed_threw : CommitFault

pub record CommitWaiter : Type 0 where
  pub caller : ℕ
  pub since : ℕ

pub record FederationEvent : Type 0 where
  pub payload : Text
  pub since : ℕ

pub record Commits : Type 0 where
  pub memory : ℕ
  pub file : ℕ
  pub dirty : Bool
  pub committing : Bool
  pub scheduled : Bool
  pub pending_federation_events : List FederationEvent
  pub next_commit_waiters : List CommitWaiter
  pub running_commit_waiters : List CommitWaiter
  pub commit_failure : Option CommitFault
  pub feed : List FederationEvent
  pub published : List FederationEvent
  pub resolved : List CommitWaiter
  pub rejected : List CommitWaiter
  pub asked : ℕ
  pub reports : ℕ

-- A store that has loaded its file, which holds `n` mutations.
abbrev pub loaded : ℕ → Commits
loaded n = record {
  memory = n;
  file = n;
  dirty = false;
  committing = false;
  scheduled = false;
  pending_federation_events = [];
  next_commit_waiters = [];
  running_commit_waiters = [];
  commit_failure = none;
  feed = [];
  published = [];
  resolved = [];
  rejected = [];
  asked = 0;
  reports = 0;
}

abbrev pub start_commit_loop : Commits → Commits
start_commit_loop s = record s { committing = true; scheduled = true }

unfoldable pub persist : Commits → Commits
persist s =
    let d = record s { dirty = true } in
    if s.committing || not (is_null s.commit_failure) then d else start_commit_loop d

unfoldable pub publish : FederationEvent → Commits → Commits
publish e s = record s {
  pending_federation_events = s.pending_federation_events ++ e ∷ [];
  published = s.published ++ e ∷ [];
}

-- An operation of the store: it changes the maps, asks for the file to be written, and publishes
-- an event if the order is public.
unfoldable pub mutate : Option Text → Commits → Commits
unfolding persist publish
mutate event s =
    let p = persist (record s { memory = s.memory + 1 }) in
    on_option event p (λ e. publish (record { payload = e; since = s.memory + 1 }) p)

-- The promise of a call: rejected or resolved at once, or left to a commit.
abbrev pub reject : CommitWaiter → Commits → Commits
reject w s = record s { rejected = s.rejected ++ w ∷ [] }

abbrev pub resolve : CommitWaiter → Commits → Commits
resolve w s = record s { resolved = s.resolved ++ w ∷ [] }

abbrev pub wait_next : CommitWaiter → Commits → Commits
wait_next w s = record s { next_commit_waiters = s.next_commit_waiters ++ w ∷ [] }

abbrev pub wait_running : CommitWaiter → Commits → Commits
wait_running w s = record s { running_commit_waiters = s.running_commit_waiters ++ w ∷ [] }

unfoldable pub flush : ℕ → Commits → Commits
flush caller s =
    let w : CommitWaiter = record { caller = caller; since = s.memory } in
    let a = record s { asked = s.asked + 1 } in
    if not (is_null s.commit_failure)
    then reject w a
    else if s.dirty
    then (if s.committing then wait_next w a else wait_next w (start_commit_loop a))
    else if s.committing
    then wait_running w a
    else resolve w a

unfoldable pub has_uncommitted_state : Commits → Bool
has_uncommitted_state s = s.dirty || s.committing || not (is_null s.commit_failure)

-- What a client or an observer asks of the store.
pub data Request : Type 0 where
  mutates : Option Text → Request
  flushes : ℕ → Request

unfoldable pub request : Request → Commits → Commits
unfolding mutate flush
request (mutates event) s = mutate event s
request (flushes caller) s = flush caller s

unfoldable pub requests : List Request → Commits → Commits
unfolding request
requests [] s = s
requests (r ∷ rs) s = requests rs (request r s)

-- How one run of `writeSnapshot` ends: the file is replaced, the lease is lost, the temporary
-- file is not renamed, or the rename is done and the directory is not synchronised.
pub data WriteOutcome : Type 0 where
  replaced disowned unrenamed unsynced : WriteOutcome

unfoldable pub write_snapshot : WriteOutcome → Commits → Commits × Option CommitFault
write_snapshot replaced s = (record s { file = s.memory }, none)
write_snapshot disowned s = (s, some not_owned)
write_snapshot unrenamed s = (s, some not_persisted)
write_snapshot unsynced s = (record s { file = s.memory }, some not_persisted)

unfoldable pub fail_commit : CommitFault → Commits → Commits
fail_commit fault s = record s {
  commit_failure = some fault;
  rejected = s.rejected ++ (s.running_commit_waiters ++ s.next_commit_waiters);
  running_commit_waiters = [];
  next_commit_waiters = [];
  pending_federation_events = [];
  reports = s.reports + 1;
}

-- What the environment does in one round of the loop: how the write ends, whether the federation
-- listener takes a batch, and what the observers ask for.
pub record Pass : Type 0 where
  pub write : WriteOutcome
  pub feed_takes : Bool
  pub observers : List Request

-- The batch that a round takes over from its callers.
unfoldable pub take_batch : Commits → Commits
take_batch s = record s {
  dirty = false;
  running_commit_waiters = s.next_commit_waiters;
  next_commit_waiters = [];
  pending_federation_events = [];
}

unfoldable pub settle : Commits → Commits
settle s = record s {
  running_commit_waiters = [];
  resolved = s.resolved ++ s.running_commit_waiters;
}

-- The listener is called with the events of the batch, if there are any.
unfoldable pub deliver : List FederationEvent → Bool → Commits → Commits × Option CommitFault
deliver [] takes s = (s, none)
deliver (e ∷ es) true s = (record s { feed = s.feed ++ e ∷ es }, none)
deliver (e ∷ es) false s = (s, some feed_threw)

-- The body of the `while` of `runCommits`. After a failure the source returns, and so does
-- the loop of the model, whose test fails.
unfoldable pub commit_pass : Pass → Commits → Commits
unfolding take_batch write_snapshot deliver requests settle fail_commit
commit_pass p s =
    let w = write_snapshot p.write (take_batch s) in
    let d = deliver s.pending_federation_events p.feed_takes w.0 in
    on_option w.1
      (on_option d.1 (settle (requests p.observers d.0)) (λ fault. fail_commit fault d.0))
      (λ fault. fail_commit fault w.0)

abbrev pub has_work : Commits → Bool
has_work s = s.dirty && is_null s.commit_failure

-- The `while` of `runCommits`, on the list of what the environment does in its rounds: `none` is a
-- list that is too short.
unfoldable pub commit_loop : List Pass → Commits → Option Commits
unfolding commit_pass
commit_loop [] s = if has_work s then none else some s
commit_loop (p ∷ ps) s =
    let rest = commit_loop ps (commit_pass p s) in if has_work s then rest else some s

-- The callback of `setImmediate`.
unfoldable pub run_commits : List Pass → Commits → Option Commits
unfolding commit_loop
run_commits ps s =
    on_option (commit_loop ps (record s { scheduled = false })) none
      (λ t. some (record t { committing = false }))

-- One step of the event loop.
pub data Step (s : Commits) (t : Commits) : Type 0 where
  asks : (r : Request) → t ≡ request r s → Step s t
  runs : (ps : List Pass) → s.scheduled ≡ true → run_commits ps s ≡ some t → Step s t

pub data Reach (s : Commits) : Commits → Type 0 where
  here : Reach s s
  next : {t u : Commits} → Reach s t → Step t u → Reach s u
