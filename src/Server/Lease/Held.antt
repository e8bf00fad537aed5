-- ===== src/Server/Lease/Held.antt =====
-- A lease that is held (the methods of `ProcessLease` of server/src/process-lease.ts): the write
-- fence, the heartbeat and the release. `beating` says that the timer is set, `has_listener` that
-- `onLost` is, and `notified` lists the calls of the listener that were scheduled.
pub mod Fence
pub mod Beats
use quanta_swap.Prelude.{
  ℕ, ◌+◌, ◌-◌, ◌*◌, ◌/◌, Bool, true, false, ◌&&◌, ◌||◌, not, Option, none, some, List, [], ◌∷◌,
  ◌++◌, Text, ltb, max, if◌then◌else◌, is_null, or_else,
}
use quanta_swap.Server.Lease.{Reading, missing, unreadable, found, ObservedLease, carries}

pub data LossReason : Type 0 where
  lease_loss_replaced lease_loss_removed : LossReason
  unverifiable_for : ℕ → LossReason

pub data LeaseError : Type 0 where
  process_lease_lost process_lease_released process_lease_unverifiable : LeaseError

pub record ProcessLease : Type 0 where
  pub lease_id : Text
  pub ttl_ms : ℕ
  pub closed : Bool
  pub lost : Bool
  pub beating : Bool
  pub has_listener : Bool
  pub lost_reason : LossReason
  pub failed_beats : ℕ
  pub failure_budget : ℕ
  pub notified : List LossReason

abbrev pub new_process_lease : Text → ℕ → ProcessLease
new_process_lease id ttl = record {
  lease_id = id;
  ttl_ms = ttl;
  closed = false;
  lost = false;
  beating = false;
  has_listener = false;
  lost_reason = lease_loss_replaced;
  failed_beats = 0;
  failure_budget = 1;
  notified = [];
}

-- Of a positive period.
abbrev pub beating_at : ℕ → ProcessLease → ProcessLease
beating_at interval p = record p {
  has_listener = true;
  failure_budget = max 1 ((p.ttl_ms - 2 * interval) / interval);
  beating = true;
}

-- None is the exception for a period that is too long. The ticks of `setInterval` are events below.
unfoldable pub start_heartbeat : ℕ → ProcessLease → Option ProcessLease
start_heartbeat interval p =
    if ltb p.ttl_ms (interval * 3)
    then none
    else if p.beating || p.closed || p.lost
    then some p
    else some (beating_at interval p)

abbrev pub stop_heartbeat : ProcessLease → ProcessLease
stop_heartbeat p = record p { beating = false }

-- The listener is taken out before its call is scheduled.
unfoldable pub mark_lost : LossReason → ProcessLease → ProcessLease
mark_lost reason p = if p.lost then p else record p {
  lost = true;
  lost_reason = reason;
  beating = false;
  has_listener = false;
  notified = if p.has_listener then p.notified ++ reason ∷ [] else p.notified;
}

unfoldable pub count_failed_beat : ProcessLease → ProcessLease
unfolding mark_lost
count_failed_beat p =
    let failed = record p { failed_beats = p.failed_beats + 1 } in
    if ltb failed.failed_beats failed.failure_budget
    then failed
    else mark_lost (unverifiable_for failed.failed_beats) failed

-- The lease file, with what `utimesSync` and `unlinkSync` do to it.
unfoldable pub beat_on : Bool → ℕ → Reading → ProcessLease → Reading × ProcessLease
unfolding carries mark_lost count_failed_beat
beat_on stamps now missing p = (missing, mark_lost lease_loss_removed p)
beat_on stamps now unreadable p = (unreadable, count_failed_beat p)
beat_on stamps now (found o) p =
    if is_null o.lease
    then (found o, count_failed_beat p)
    else if not (carries p.lease_id (found o))
    then (found o, mark_lost lease_loss_replaced p)
    else if not stamps
    then (found o, count_failed_beat p)
    else (found (record o { mtime_ms = now }), record p { failed_beats = 0 })

-- `stamps` says whether the modification time can be set.
unfoldable pub beat : Bool → ℕ → Reading → ProcessLease → Reading × ProcessLease
unfolding beat_on
beat stamps now file p = if p.closed || p.lost then (file, p) else beat_on stamps now file p

unfoldable pub check_file : Reading → ProcessLease → ProcessLease × Option LeaseError
unfolding carries mark_lost
check_file missing p = (mark_lost lease_loss_removed p, some process_lease_lost)
check_file unreadable p = (p, some process_lease_unverifiable)
check_file (found o) p =
    if is_null o.lease
    then (p, some process_lease_unverifiable)
    else if not (carries p.lease_id (found o))
    then (mark_lost lease_loss_replaced p, some process_lease_lost)
    else (p, none)

-- None: the write may go on.
unfoldable pub assert_owned : Reading → ProcessLease → ProcessLease × Option LeaseError
unfolding check_file
assert_owned file p =
    if p.lost
    then (p, some process_lease_lost)
    else if p.closed
    then (p, some process_lease_released)
    else check_file file p

-- `unlinks` says whether the file can be removed.
unfoldable pub close : Bool → Reading → ProcessLease → Reading × ProcessLease
unfolding carries
close unlinks file p =
    if p.closed
    then (file, p)
    else let q = stop_heartbeat (record p { closed = true }) in
      if p.lost
      then (file, q)
      else if carries p.lease_id file && unlinks
      then (missing, q)
      else (file, q)

-- The file, the process that holds or held it, and the number of its writes that were allowed.
pub record Holding : Type 0 where
  pub file : Reading
  pub process : ProcessLease
  pub writes : ℕ

-- What the process does: a tick of the timer at a time, a write to the data files, the release,
-- and a start of the heartbeat.
pub data LeaseEvent : Type 0 where
  ticks : Bool → ℕ → LeaseEvent
  write_asked : LeaseEvent
  closes : Bool → LeaseEvent
  starts : ℕ → LeaseEvent

unfoldable pub lease_event : LeaseEvent → Holding → Holding
unfolding beat assert_owned close start_heartbeat
lease_event (ticks stamps now) h =
    let b = beat stamps now h.file h.process in
    if h.process.beating then record h { file = b.0; process = b.1 } else h
lease_event write_asked h =
    let a = assert_owned h.file h.process in
    record h { process = a.0; writes = if is_null a.1 then h.writes + 1 else h.writes }
lease_event (closes unlinks) h =
    let c = close unlinks h.file h.process in record h { file = c.0; process = c.1 }
lease_event (starts interval) h = record h {
  process = or_else (start_heartbeat interval h.process) h.process;
}

unfoldable pub lease_events : List LeaseEvent → Holding → Holding
unfolding lease_event
lease_events [] h = h
lease_events (e ∷ es) h = lease_events es (lease_event e h)
