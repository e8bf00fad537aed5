-- ===== src/Server/Lease.antt =====
-- The single-writer lease of the order book's data files (server/src/process-lease.ts). A lease file
-- is what `readLease` finds at its path, and its modification time is its heartbeat, in whole
-- milliseconds. The file system and `/proc` are the platform's: a file is written in one step, and
-- the failures of a write are not modelled. `version` is always 1 and is left out.
pub mod Alone
pub mod Confirmed
pub mod Spared
pub mod Held
use quanta_swap.Prelude.{
  ℕ, zero, suc, ◌+◌, Bool, true, false, ◌&&◌, ◌||◌, not, Option, none, some, Text, codes, text_eq,
  ltb, if◌then◌else◌, is_null, on_option, or_else,
}

pub record LeaseRecord : Type 0 where
  pub pid : ℕ
  pub process_start : Text
  pub boot_id : Text
  pub pid_namespace : Text
  pub identity_digest : Text
  pub lease_id : Text

-- `lease` is none if the file holds no usable record.
pub record ObservedLease : Type 0 where
  pub lease : Option LeaseRecord
  pub mtime_ms : ℕ

-- The answer of `readLease`: undefined, an exception, or what the file holds.
pub data Reading : Type 0 where
  missing unreadable : Reading
  found : ObservedLease → Reading

abbrev pub lease_ttl_ms : ℕ
lease_ttl_ms = 90000

abbrev pub lease_clock_skew_ms : ℕ
lease_clock_skew_ms = 30000

abbrev pub guard_stale_ms : ℕ
guard_stale_ms = 600000

abbrev pub unknown_pid_namespace : Text
unknown_pid_namespace = codes "unknown"

-- The process and what it can see: `processStart` of a pid, `bootId`, `currentPidNamespace`.
pub record Host : Type 0 where
  pub pid : ℕ
  pub process_start : ℕ → Option Text
  pub boot_id : Option Text
  pub pid_namespace : Text

pub record LeaseLiveness : Type 0 where
  pub boot_id : Text
  pub pid_namespace : Text
  pub ttl_ms : ℕ

unfoldable pub current_namespace : Host → Text
current_namespace host =
    if is_null (host.process_start host.pid) || is_null host.boot_id
    then unknown_pid_namespace
    else host.pid_namespace

abbrev pub liveness_of : Host → ℕ → LeaseLiveness
liveness_of host ttl = record {
  boot_id = or_else host.boot_id unknown_pid_namespace;
  pid_namespace = current_namespace host;
  ttl_ms = ttl;
}

unfoldable pub make_record : Host → Text → Text → LeaseRecord
unfolding current_namespace
make_record host digest id = record {
  pid = host.pid;
  process_start = or_else (host.process_start host.pid) unknown_pid_namespace;
  boot_id = or_else host.boot_id unknown_pid_namespace;
  pid_namespace = current_namespace host;
  identity_digest = digest;
  lease_id = id;
}

unfoldable pub uses_pid_semantics : LeaseRecord → LeaseLiveness → Bool
uses_pid_semantics r l =
    not (text_eq l.pid_namespace unknown_pid_namespace)
    && not (text_eq r.pid_namespace unknown_pid_namespace)
    && text_eq r.pid_namespace l.pid_namespace
    && text_eq r.boot_id l.boot_id

-- The age of the heartbeat is at least minus the skew and below `limit`.
unfoldable pub is_fresh : ℕ → ℕ → ℕ → Bool
is_fresh now limit mtime = not (ltb (now + lease_clock_skew_ms) mtime) && ltb now (mtime + limit)

-- The rule that `isLiveLease` and `isLiveGuard` share: a process that can be inspected, else a
-- heartbeat.
unfoldable pub is_live_for : (ℕ → Option Text) → LeaseLiveness → ℕ → ℕ → Reading → Bool
unfolding uses_pid_semantics is_fresh
is_live_for starts l now limit (found o) = on_option o.lease false (λ r.
    if uses_pid_semantics r l
    then text_eq r.boot_id l.boot_id && on_option (starts r.pid) false (text_eq r.process_start)
    else is_fresh now limit o.mtime_ms)
is_live_for starts l now limit missing = false
is_live_for starts l now limit unreadable = false

abbrev pub is_live_lease : (ℕ → Option Text) → LeaseLiveness → ℕ → Reading → Bool
is_live_lease starts l now r = is_live_for starts l now l.ttl_ms r

abbrev pub is_live_guard : (ℕ → Option Text) → LeaseLiveness → ℕ → Reading → Bool
is_live_guard starts l now r = is_live_for starts l now guard_stale_ms r

-- The record found carries this lease id.
unfoldable pub carries : Text → Reading → Bool
carries id (found o) = on_option o.lease false (λ r. text_eq r.lease_id id)
carries id missing = false
carries id unreadable = false

abbrev pub is_found : Reading → Bool
is_found (found _) = true
is_found missing = false
is_found unreadable = false

abbrev pub is_unreadable : Reading → Bool
is_unreadable (found _) = false
is_unreadable missing = false
is_unreadable unreadable = true

-- The lease file, its recovery guard, and the clock.
pub record Disk : Type 0 where
  pub lease : Reading
  pub guard : Reading
  pub now : ℕ

-- What the rest of the machine does at the two seams of an attempt, and while it waits for a guard.
pub record Others : Type 0 where
  pub after_stale_observation : Disk → Disk
  pub after_lease_written : Disk → Disk
  pub while_waiting : Disk → Disk

pub data Outcome : Type 0 where
  acquired : Text → Outcome
  held_by_other read_failed contended again : Outcome

abbrev pub is_again : Outcome → Bool
is_again again = true
is_again (acquired _) = false
is_again held_by_other = false
is_again read_failed = false
is_again contended = false

-- Whether a starter may create or replace the recovery guard, waits for it, or cannot read it.
pub data GuardCheck : Type 0 where
  guard_open guard_busy guard_broken : GuardCheck

abbrev pub on_check {ℓ} : {A : Type ℓ} → GuardCheck → A → A → A → A
on_check guard_open a b c = a
on_check guard_busy a b c = b
on_check guard_broken a b c = c

-- One starter. The n-th attempt draws the lease ids `ids (n + n)` for its guard and
-- `ids (n + n + 1)` for its lease.
module _ (host : Host) (ttl : ℕ) (digest : Text) (ids : ℕ → Text) where
  unfoldable pub check_guard : Disk → GuardCheck
  check_guard d = elim (d.guard) [
    | missing ↦ guard_open
    | unreadable ↦ guard_broken
    | found o ↦
        if is_null o.lease || is_live_guard host.process_start (liveness_of host ttl) d.now d.guard
        then guard_busy
        else guard_open
  ]

  abbrev pub lease_is_live : Disk → Bool
  lease_is_live d = is_live_lease host.process_start (liveness_of host ttl) d.now d.lease

  abbrev pub own_file : ℕ → Text → Reading
  own_file now id = found (record { lease = some (make_record host digest id); mtime_ms = now })

  -- `releaseOwnedLeaseFile` of the guard, in the `finally`: an exception replaces the outcome.
  unfoldable pub release_guard : Text → Disk × Outcome → Disk × Outcome
  unfolding carries
  release_guard id a =
      if is_unreadable a.0.guard
      then (a.0, read_failed)
      else if carries id a.0.guard
      then (record a.0 { guard = missing }, a.1)
      else a

  -- The body of the `try`: the guard is held.
  unfoldable pub under_guard : Others → Text → Disk → Disk × Outcome
  under_guard others id d =
      if is_unreadable d.lease
      then (d, read_failed)
      else if lease_is_live d
      then (d, held_by_other)
      else let w = others.after_lease_written (record d { lease = own_file d.now id }) in
        if is_unreadable w.lease
        then (w, read_failed)
        else if carries id w.lease
        then (w, acquired id)
        else (w, again)

  unfoldable pub with_guard : Others → Text → Text → Disk → Disk × Outcome
  with_guard others guard_id id d =
      on_check (check_guard d)
        (release_guard guard_id
          (under_guard others id (record d { guard = own_file d.now guard_id })))
        (others.while_waiting d, again) (d, read_failed)

  -- One round of the loop of `acquire`. `notified` says that a stale lease was seen before.
  unfoldable pub attempt : Others → ℕ → Bool → Disk → Disk × Outcome
  unfolding with_guard
  attempt others n notified d =
      if is_unreadable d.lease
      then (d, read_failed)
      else if lease_is_live d
      then (d, held_by_other)
      else with_guard others (ids (n + n)) (ids (n + n + 1))
          (if is_found d.lease && not notified then others.after_stale_observation d else d)

  unfoldable pub acquire_loop : Others → ℕ → ℕ → Bool → Disk → Disk × Outcome
  unfolding attempt
  acquire_loop others zero n notified d = (d, contended)
  acquire_loop others (suc rounds) n notified d =
      let a = attempt others n notified d in
      let rest = acquire_loop others rounds (n + 1) (notified || is_found d.lease) a.0 in
      if is_again a.1 then rest else a

  -- `ProcessLease.acquire`
  unfoldable pub acquire : Others → Disk → Disk × Outcome
  unfolding acquire_loop
  acquire others d = acquire_loop others 500 0 false d
