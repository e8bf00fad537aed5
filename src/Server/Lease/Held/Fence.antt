-- ===== src/Server/Lease/Held/Fence.antt =====
-- What a process that has lost its lease still does (server/src/process-lease.ts).
use quanta_swap.Prelude.{
  ℕ, ◌+◌, ◌*◌, true_ne_false, ◌≡◌, refl, sym, ap, ◌∙◌, Bool, true, false, not, ◌&&◌, ◌||◌, Option,
  none, some, List, [], ◌∷◌, Text, if◌then◌else◌, if_cases, if_either, if_false, ltb, is_null,
  or_else, arith,
}
use quanta_swap.Server.Lease.{Reading, missing, unreadable, found, carries}
use quanta_swap.Server.Lease.Held.{
  process_lease_lost, process_lease_released, unverifiable_for, LossReason, LeaseError,
  ProcessLease, beating_at, start_heartbeat, mark_lost, count_failed_beat, beat_on, beat,
  check_file, assert_owned, close, stop_heartbeat, Holding, LeaseEvent, ticks, write_asked, closes,
  starts, lease_event, lease_events,
}

-- The file and the allowed writes are those of `h`, and the process has the same lease id.
record IsUntouched (h : Holding) (k : Holding) : Type 0 where
  kept : k.file ≡ h.file
  refused : k.writes ≡ h.writes
  named : k.process.lease_id ≡ h.process.lease_id

record HasId (id : Text) (p : ProcessLease) : Type 0 where
  named : p.lease_id ≡ id

as_marked : (reason : LossReason) (p : ProcessLease) → HasId p.lease_id (mark_lost reason p)
unfolding mark_lost
as_marked reason p =
    if_either (HasId p.lease_id) p.lost _ _ (record { named = refl }) (record { named = refl })

as_failed : (p : ProcessLease) → HasId p.lease_id (count_failed_beat p)
unfolding count_failed_beat
as_failed p =
    let failed = record p { failed_beats = p.failed_beats + 1 } in
    let reason = unverifiable_for failed.failed_beats in
    if_either (HasId p.lease_id) (ltb failed.failed_beats failed.failure_budget) failed
      (mark_lost reason failed) (record { named = refl }) (as_marked reason failed)

-- A start of the heartbeat that is refused, or that keeps the lease id.
record MayHaveId (id : Text) (p : ProcessLease) (q : Option ProcessLease) : Type 0 where
  named : (or_else q p).lease_id ≡ id

as_started : (interval : ℕ) (p : ProcessLease) → MayHaveId p.lease_id p (start_heartbeat interval p)
unfolding start_heartbeat
as_started interval p =
    let same : MayHaveId p.lease_id p (some p) = record { named = refl } in
    let busy = p.beating || p.closed || p.lost in
    if_either (MayHaveId p.lease_id p) (ltb p.ttl_ms (interval * 3)) none
      (if busy then some p else some (beating_at interval p)) (record { named = refl })
      (if_either (MayHaveId p.lease_id p) busy (some p) (some (beating_at interval p)) same
        (record { named = refl }))

not_both : (a b : Bool) → a ≡ false → (a && b) ≡ true → true ≡ false
not_both a b h k = ground arith

-- What a beat or a release leaves of the file, and of the process's lease id.
record IsLeft (file : Reading) (p : ProcessLease) (b : Reading × ProcessLease) : Type 0 where
  kept : b.0 ≡ file
  named : HasId p.lease_id b.1

same_file-IsLeft :
    (file : Reading) (p q : ProcessLease) → q.lease_id ≡ p.lease_id → IsLeft file p (file, q)
same_file-IsLeft file p q e = record { kept = refl; named = record { named = e } }

beat_on-IsLeft :
    (stamps : Bool) (now : ℕ) (file : Reading) (p : ProcessLease)
    → carries p.lease_id file ≡ false
    → IsLeft file p (beat_on stamps now file p)
unfolding beat_on
beat_on-IsLeft stamps now missing p h = record { kept = refl; named = as_marked _ p }
beat_on-IsLeft stamps now unreadable p h = record { kept = refl; named = as_failed p }
beat_on-IsLeft stamps now (found o) p h =
    if_either (IsLeft (found o) p) _ _ _ (record { kept = refl; named = as_failed p })
      (if_cases (IsLeft (found o) p) _ _ _ (λ _. record { kept = refl; named = as_marked _ p })
        (λ c. absurd (true_ne_false (sym (ap not h) ∙ c))))

beat-IsLeft :
    (stamps : Bool) (now : ℕ) (file : Reading) (p : ProcessLease)
    → carries p.lease_id file ≡ false
    → IsLeft file p (beat stamps now file p)
unfolding beat
beat-IsLeft stamps now file p h =
    if_either (IsLeft file p) _ _ _ (record { kept = refl; named = record { named = refl } })
      (beat_on-IsLeft stamps now file p h)

close-IsLeft :
    (unlinks : Bool) (file : Reading) (p : ProcessLease)
    → carries p.lease_id file ≡ false
    → IsLeft file p (close unlinks file p)
unfolding close
close-IsLeft unlinks file p h =
    let q = stop_heartbeat (record p { closed = true }) in
    if_either (IsLeft file p) _ _ _ (same_file-IsLeft file p p refl) (
      if_either (IsLeft file p) _ _ _ (same_file-IsLeft file p q refl) (
        if_cases (IsLeft file p) (carries p.lease_id file && unlinks) (missing, q) (file, q)
          (λ c. absurd (true_ne_false (not_both _ unlinks h c)))
          (λ _. same_file-IsLeft file p q refl)))

-- A write is refused, and the process keeps its lease id.
record IsRefused (p : ProcessLease) (a : ProcessLease × Option LeaseError) : Type 0 where
  refused : is_null a.1 ≡ false
  named : HasId p.lease_id a.0

refusal-IsRefused : (e : LeaseError) (p : ProcessLease) → IsRefused p (p, some e)
refusal-IsRefused e p = record { refused = refl; named = record { named = refl } }

check_file-IsRefused :
    (file : Reading) (p : ProcessLease)
    → carries p.lease_id file ≡ false
    → IsRefused p (check_file file p)
unfolding check_file
check_file-IsRefused missing p h = record { refused = refl; named = as_marked _ p }
check_file-IsRefused unreadable p h = record { refused = refl; named = record { named = refl } }
check_file-IsRefused (found o) p h =
    if_either (IsRefused p) _ _ _ (record { refused = refl; named = record { named = refl } })
      (if_cases (IsRefused p) _ _ _ (λ _. record { refused = refl; named = as_marked _ p })
        (λ c. absurd (true_ne_false (sym (ap not h) ∙ c))))

assert_owned-IsRefused :
    (file : Reading) (p : ProcessLease)
    → carries p.lease_id file ≡ false
    → IsRefused p (assert_owned file p)
unfolding assert_owned
assert_owned-IsRefused file p h =
    if_either (IsRefused p) _ _ _ (refusal-IsRefused process_lease_lost p) (
      if_either (IsRefused p) _ _ _ (refusal-IsRefused process_lease_released p)
        (check_file-IsRefused file p h))

lease_event-IsUntouched :
    (e : LeaseEvent) (h : Holding)
    → carries h.process.lease_id h.file ≡ false
    → IsUntouched h (lease_event e h)
unfolding lease_event
lease_event-IsUntouched (ticks stamps now) h f =
    let b = beat-IsLeft stamps now h.file h.process f in
    if_either (IsUntouched h) _ _ _
      (record { kept = b.kept; refused = refl; named = b.named.named })
      (record { kept = refl; refused = refl; named = refl })
lease_event-IsUntouched write_asked h f =
    let a = assert_owned-IsRefused h.file h.process f in
    record { kept = refl; refused = if_false _ _ _ a.refused; named = a.named.named }
lease_event-IsUntouched (closes unlinks) h f =
    let c = close-IsLeft unlinks h.file h.process f in
    record { kept = c.kept; refused = refl; named = c.named.named }
lease_event-IsUntouched (starts interval) h f = record {
  kept = refl;
  refused = refl;
  named = (as_started interval h.process).named;
}

lease_events-IsUntouched :
    (es : List LeaseEvent) (h : Holding)
    → carries h.process.lease_id h.file ≡ false
    → IsUntouched h (lease_events es h)
unfolding lease_events
lease_events-IsUntouched [] h f = record { kept = refl; refused = refl; named = refl }
lease_events-IsUntouched (e ∷ es) h f =
    let a = lease_event-IsUntouched e h f in
    let b = lease_events-IsUntouched es (lease_event e h) (
      ap (λ (x : Text). carries x (lease_event e h).file) a.named
      ∙ ap (λ (x : Reading). carries h.process.lease_id x) a.kept
      ∙ f) in
    record { kept = b.kept ∙ a.kept; refused = b.refused ∙ a.refused; named = b.named ∙ a.named }

-- As long as the lease file does not show the process's own lease id, because it is gone, cannot be
-- read or carries another id, no sequence of its ticks, writes, starts and releases changes the
-- file or lets a write to the data files through.
pub displaced-IsFenced :
    (es : List LeaseEvent) (h : Holding)
    → carries h.process.lease_id h.file ≡ false
    → ((lease_events es h).file ≡ h.file) × ((lease_events es h).writes ≡ h.writes)
displaced-IsFenced es h f = let u = lease_events-IsUntouched es h f in (u.kept, u.refused)
