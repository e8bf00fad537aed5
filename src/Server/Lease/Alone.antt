-- ===== src/Server/Lease/Alone.antt =====
-- A starter that no other process interferes with (`ProcessLease.acquire` of
-- server/src/process-lease.ts).
use quanta_swap.Prelude.{
  ℕ, zero, suc, ◌+◌, ◌≡◌, refl, ap, ◌∙◌, Bool, true, false, not, ◌&&◌, ◌||◌, Text, Option, none,
  some, if◌then◌else◌, if_cases, if_true, if_false, if_either, text_eq_refl,
}
use quanta_swap.Server.Lease.{
  Host, Reading, missing, unreadable, found, LeaseRecord, ObservedLease, is_live_for, is_live_lease,
  is_live_guard, liveness_of, Disk, Others, Outcome, acquired, held_by_other, read_failed,
  contended, again, is_again, is_found, is_unreadable, carries, make_record, GuardCheck, on_check,
  guard_open, guard_busy, guard_broken, check_guard, lease_is_live, own_file, release_guard,
  under_guard, with_guard, attempt, acquire_loop, acquire,
}

-- Nothing happens at the seams.
abbrev pub alone : Others
alone = record {
  after_stale_observation = λ d. d;
  after_lease_written = λ d. d;
  while_waiting = λ d. d;
}

module _ (host : Host) (ttl : ℕ) (digest : Text) (ids : ℕ → Text) where
  abbrev live_lease : ℕ → Reading → Bool
  live_lease now r = is_live_lease host.process_start (liveness_of host ttl) now r

  abbrev live_guard : ℕ → Reading → Bool
  live_guard now r = is_live_guard host.process_start (liveness_of host ttl) now r

  abbrev started : Text → Disk → Disk × Outcome
  started id d =
      (record d { lease = own_file host ttl digest ids d.now id; guard = missing }, acquired id)

  -- What a start comes to whose lease file is missing or stale, from what the guard holds: nothing,
  -- an error, no usable record, or a record.
  unfoldable pub guard_outcome : Text → Disk → Reading → Disk × Outcome
  guard_outcome id d missing = started id d
  guard_outcome id d unreadable = (d, read_failed)
  guard_outcome id d (found o) = elim (o.lease) [
    | none ↦ (d, contended)
    | some _ ↦ if live_guard d.now (found o) then (d, contended) else started id d
  ]

  -- What a start comes to, from what the lease file holds.
  unfoldable pub outcome_alone : Text → Disk → Reading → Disk × Outcome
  unfolding guard_outcome
  outcome_alone id d unreadable = (d, read_failed)
  outcome_alone id d missing = guard_outcome id d d.guard
  outcome_alone id d (found o) =
      if live_lease d.now (found o) then (d, held_by_other) else guard_outcome id d d.guard

  -- The same, by the tests that the attempts make.
  unfoldable tested_outcome : Text → Disk → Disk × Outcome
  tested_outcome id d =
      if is_unreadable d.lease
      then (d, read_failed)
      else if lease_is_live host ttl digest ids d
      then (d, held_by_other)
      else on_check (check_guard host ttl digest ids d) (started id d) (d, contended)
          (d, read_failed)

  carries_own : (now : ℕ) (id : Text) → carries id (own_file host ttl digest ids now id) ≡ true
  unfolding carries make_record
  carries_own now id = text_eq_refl id

  under_guard_alone :
      (id : Text) (d : Disk)
      → is_unreadable d.lease ≡ false
      → lease_is_live host ttl digest ids d ≡ false
      → under_guard host ttl digest ids alone id d
        ≡ (record d { lease = own_file host ttl digest ids d.now id }, acquired id)
  unfolding under_guard
  under_guard_alone id d h k =
      if_false _ _ _ h ∙ if_false _ _ _ k ∙ if_true _ _ _ (carries_own d.now id)

  pub release_own :
      (id : Text) (d : Disk) (out : Outcome)
      → release_guard host ttl digest ids id
          (record d { guard = own_file host ttl digest ids d.now id }, out)
        ≡ (record d { guard = missing }, out)
  unfolding release_guard
  release_own id d out = if_true _ _ _ (carries_own d.now id)

  with_guard_open :
      (guard_id id : Text) (d : Disk)
      → check_guard host ttl digest ids d ≡ guard_open
      → is_unreadable d.lease ≡ false
      → lease_is_live host ttl digest ids d ≡ false
      → with_guard host ttl digest ids alone guard_id id d
        ≡ (record d { lease = own_file host ttl digest ids d.now id; guard = missing }, acquired id)
  unfolding with_guard
  with_guard_open guard_id id d g h k =
      ap
        (λ c.
          on_check c
            (release_guard host ttl digest ids guard_id (
              under_guard host ttl digest ids alone id
                (record d { guard = own_file host ttl digest ids d.now guard_id })))
            (d, again) (d, read_failed))
        g
      ∙ ap (release_guard host ttl digest ids guard_id) (
          under_guard_alone id (record d { guard = own_file host ttl digest ids d.now guard_id }) h
            k)
      ∙ release_own guard_id (record d { lease = own_file host ttl digest ids d.now id })
          (acquired id)

  attempt_stale :
      (n : ℕ) (notified : Bool) (d : Disk)
      → is_unreadable d.lease ≡ false
      → lease_is_live host ttl digest ids d ≡ false
      → attempt host ttl digest ids alone n notified d
        ≡ with_guard host ttl digest ids alone (ids (n + n)) (ids (n + n + 1)) d
  unfolding attempt
  attempt_stale n notified d h k =
      if_false _ _ _ h
      ∙ if_false _ _ _ k
      ∙ if_either
          (λ e.
            with_guard host ttl digest ids alone (ids (n + n)) (ids (n + n + 1)) e
            ≡ with_guard host ttl digest ids alone (ids (n + n)) (ids (n + n + 1)) d)
          (is_found d.lease && not notified) d d refl refl

  with_guard_blocked :
      (guard_id id : Text) (d : Disk) (c : GuardCheck)
      → check_guard host ttl digest ids d ≡ c
      → with_guard host ttl digest ids alone guard_id id d
        ≡ on_check c
            (with_guard host ttl digest ids alone guard_id id d)
            (d, again)
            (d, read_failed)
  unfolding with_guard
  with_guard_blocked guard_id id d guard_open g = refl
  with_guard_blocked guard_id id d guard_busy g = rw g refl
  with_guard_blocked guard_id id d guard_broken g = rw g refl

  -- A round that is not to be repeated ends the loop.
  pub loop_settles :
      (others : Others) (rounds n : ℕ) (notified : Bool) (d : Disk) (a : Disk × Outcome)
      → attempt host ttl digest ids others n notified d ≡ a
      → is_again a.1 ≡ false
      → acquire_loop host ttl digest ids others (suc rounds) n notified d ≡ a
  unfolding acquire_loop
  loop_settles others rounds n notified d a e h =
      if_false _ _ _ (ap (λ (x : Disk × Outcome). is_again x.1) e ∙ h) ∙ e

  loop_repeats :
      (rounds n : ℕ) (notified : Bool) (d : Disk)
      → attempt host ttl digest ids alone n notified d ≡ (d, again)
      → acquire_loop host ttl digest ids alone (suc rounds) n notified d
        ≡ acquire_loop host ttl digest ids alone rounds (n + 1) (notified || is_found d.lease) d
  unfolding acquire_loop
  loop_repeats rounds n notified d e =
      if_true _ _ _ (ap (λ (x : Disk × Outcome). is_again x.1) e)
      ∙ ap
          (λ (x : Disk × Outcome).
            acquire_loop host ttl digest ids alone rounds (n + 1) (notified || is_found d.lease)
              x.0)
          e

  loop_busy :
      (rounds n : ℕ) (notified : Bool) (d : Disk)
      → is_unreadable d.lease ≡ false
      → lease_is_live host ttl digest ids d ≡ false
      → check_guard host ttl digest ids d ≡ guard_busy
      → acquire_loop host ttl digest ids alone rounds n notified d ≡ (d, contended)
  unfolding acquire_loop
  loop_busy zero n notified d h k g = refl
  loop_busy (suc rounds) n notified d h k g =
      loop_repeats rounds n notified d
        (attempt_stale n notified d h k ∙ with_guard_blocked _ _ d guard_busy g)
      ∙ loop_busy rounds (n + 1) (notified || is_found d.lease) d h k g

  module _ (rounds n : ℕ) (notified : Bool) (d : Disk) where
    loop_stale :
        (c : GuardCheck)
        → check_guard host ttl digest ids d ≡ c
        → is_unreadable d.lease ≡ false
        → lease_is_live host ttl digest ids d ≡ false
        → acquire_loop host ttl digest ids alone (suc rounds) n notified d
          ≡ on_check c
              (
                record d {
                  lease = own_file host ttl digest ids d.now (ids (n + n + 1));
                  guard = missing;
                },
                acquired (ids (n + n + 1)),
              )
              (d, contended)
              (d, read_failed)
    loop_stale guard_open g h k =
        loop_settles alone rounds n notified d _
          (attempt_stale n notified d h k ∙ with_guard_open _ _ d g h k) refl
    loop_stale guard_busy g h k = loop_busy (suc rounds) n notified d h k g
    loop_stale guard_broken g h k =
        loop_settles alone rounds n notified d (d, read_failed)
          (attempt_stale n notified d h k ∙ with_guard_blocked _ _ d guard_broken g) refl

    loop_readable :
        is_unreadable d.lease ≡ false
        → acquire_loop host ttl digest ids alone (suc rounds) n notified d ≡ (
            if lease_is_live host ttl digest ids d
            then (d, held_by_other)
            else on_check
                (check_guard host ttl digest ids d)
                (
                  record d {
                    lease = own_file host ttl digest ids d.now (ids (n + n + 1));
                    guard = missing;
                  },
                  acquired (ids (n + n + 1)),
                )
                (d, contended)
                (d, read_failed))
    unfolding attempt
    loop_readable h =
        if_cases (λ x. acquire_loop host ttl digest ids alone (suc rounds) n notified d ≡ x) _ _ _
          (λ l.
            loop_settles alone rounds n notified d (d, held_by_other)
              (if_false _ _ _ h ∙ if_true _ _ _ l) refl)
          (λ l. loop_stale _ refl h l)

    loop_alone :
        acquire_loop host ttl digest ids alone (suc rounds) n notified d
        ≡ tested_outcome (ids (n + n + 1)) d
    unfolding attempt tested_outcome
    loop_alone =
        if_cases (λ x. acquire_loop host ttl digest ids alone (suc rounds) n notified d ≡ x) _ _ _
          (λ u. loop_settles alone rounds n notified d (d, read_failed) (if_true _ _ _ u) refl)
          (λ u. loop_readable u)

module _ (host : Host) (ttl : ℕ) (digest : Text) (ids : ℕ → Text) (id : Text) where
  busy_or_open :
      (b : Bool) (x y z : Disk × Outcome)
      → on_check (if b then guard_busy else guard_open) x y z ≡ (if b then y else x)
  busy_or_open true x y z = refl
  busy_or_open false x y z = refl

  record_tested :
      (l : Reading) (now at : ℕ) (r : Option LeaseRecord)
      → let o : ObservedLease = record { lease = r; mtime_ms = at } in
        let d : Disk = record { lease = l; guard = found o; now = now } in
        on_check
          (check_guard host ttl digest ids d)
          (started host ttl digest ids id d)
          (d, contended)
          (d, read_failed)
        ≡ guard_outcome host ttl digest ids id d d.guard
  unfolding check_guard guard_outcome
  record_tested l now at none = refl
  record_tested l now at (some r) =
      let o : ObservedLease = record { lease = some r; mtime_ms = at } in
      let d : Disk = record { lease = l; guard = found o; now = now } in
      busy_or_open (live_guard host ttl digest ids now (found o)) (started host ttl digest ids id d)
        (d, contended) (d, read_failed)

  guard_tested :
      (l g : Reading) (now : ℕ)
      → let d : Disk = record { lease = l; guard = g; now = now } in
        on_check
          (check_guard host ttl digest ids d)
          (started host ttl digest ids id d)
          (d, contended)
          (d, read_failed)
        ≡ guard_outcome host ttl digest ids id d g
  unfolding check_guard guard_outcome
  guard_tested l missing now = refl
  guard_tested l unreadable now = refl
  guard_tested l (found o) now = record_tested l now o.mtime_ms o.lease

  outcome_tested :
      (l g : Reading) (now : ℕ)
      → let d : Disk = record { lease = l; guard = g; now = now } in
        tested_outcome host ttl digest ids id d ≡ outcome_alone host ttl digest ids id d l
  unfolding tested_outcome outcome_alone is_live_for
  outcome_tested missing g now = guard_tested missing g now
  outcome_tested unreadable g now = refl
  outcome_tested (found o) g now =
      let d : Disk = record { lease = found o; guard = g; now = now } in
      ap (λ x. if lease_is_live host ttl digest ids d then (d, held_by_other) else x)
        (guard_tested (found o) g now)

-- A start with which nothing interferes. An unreadable lease file is an error, a live lease is
-- refused, and both leave the disk as it was. If the lease file is missing or its record is not
-- live, the start takes the lease in its first attempt provided that the recovery guard is missing
-- or holds a record that is not live: the file then carries the starter's own record and the guard
-- is gone. A guard that cannot be read is an error, and under one that is live or holds no usable
-- record the start gives up; both change nothing.
pub acquire_alone :
    (host : Host) (ttl : ℕ) (digest : Text) (ids : ℕ → Text) (d : Disk)
    → acquire host ttl digest ids alone d ≡ outcome_alone host ttl digest ids (ids 1) d d.lease
unfolding acquire
acquire_alone host ttl digest ids d =
    loop_alone host ttl digest ids 499 0 false d
    ∙ outcome_tested host ttl digest ids (ids 1) d.lease d.guard d.now
