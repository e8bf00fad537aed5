-- ===== src/Examples/Leases.antt =====
-- The data lease on a concrete machine: a holder in another PID namespace, and a starter.
use quanta_swap.Prelude.{
  ℕ, ◌≡◌, refl, ap, ◌∙◌, true, false, none, some, List, [], ◌∷◌, Text, codes, text_eq, ltb,
  replicate, if◌then◌else◌, arith,
}
use quanta_swap.Server.Lease.{
  LeaseRecord, missing, found, Host, lease_ttl_ms, liveness_of, current_namespace,
  uses_pid_semantics, is_fresh, is_live_for, is_live_lease, carries, Disk, Others, Outcome,
  acquired, held_by_other, check_guard, guard_open, own_file, lease_is_live, acquire,
}
use quanta_swap.Server.Lease.Alone.{alone, acquire_alone, outcome_alone, guard_outcome}
use quanta_swap.Server.Lease.Confirmed.{acquire-IsConfirmed}
use quanta_swap.Server.Lease.Spared.{overtaken_refuses}
use quanta_swap.Server.Lease.Held.{
  ProcessLease, new_process_lease, beating_at, Holding, LeaseEvent, ticks, write_asked, closes,
  lease_events,
}
use quanta_swap.Server.Lease.Held.Fence.{displaced-IsFenced}
use quanta_swap.Server.Lease.Held.Beats.{
  Tick, all_prove_nothing, proves_nothing, ticked, IsRunning, stamped, lost_in_time,
}

abbrev starter : Host
starter = record {
  pid = 41;
  process_start = λ pid. if ltb pid 42 then some (codes "900") else none;
  boot_id = some (codes "b0");
  pid_namespace = codes "pid:[1]";
}

abbrev holder : LeaseRecord
holder = record {
  pid = 7;
  process_start = codes "100";
  boot_id = codes "b0";
  pid_namespace = codes "pid:[2]";
  identity_digest = codes "d";
  lease_id = codes "7a";
}

abbrev lease_ids : ℕ → Text
lease_ids n = n ∷ []

-- The holder stopped two minutes ago.
abbrev abandoned : Disk
abandoned = record { lease = stamped holder 30000; guard = missing; now = 150000 }

-- A third process takes the lease over behind the starter.
abbrev rivals : Others
rivals = record {
  after_stale_observation = λ d. record d { lease = stamped holder d.now };
  after_lease_written = λ d. d;
  while_waiting = λ d. d;
}

abbrev acquire_on : Others → Disk → Disk × Outcome
acquire_on others d = acquire starter lease_ttl_ms (codes "d") lease_ids others d

restarts :
    outcome_alone starter lease_ttl_ms (codes "d") lease_ids (lease_ids 1) abandoned abandoned.lease
    ≡ (
      record abandoned {
        lease = own_file starter lease_ttl_ms (codes "d") lease_ids 150000 (1 ∷ []);
      },
      acquired (1 ∷ []),
    )
unfolding outcome_alone guard_outcome is_live_for uses_pid_semantics current_namespace is_fresh
    text_eq
restarts = refl

acquires : (acquire_on alone abandoned).1 ≡ acquired (1 ∷ [])
acquires =
    ap (λ (a : Disk × Outcome). a.1)
      (acquire_alone starter lease_ttl_ms (codes "d") lease_ids abandoned ∙ restarts)

acquire_alone_example :
    acquire_on alone abandoned
    ≡ outcome_alone starter lease_ttl_ms
        (codes "d")
        lease_ids
        (lease_ids 1)
        abandoned
        abandoned.lease
acquire_alone_example = acquire_alone starter lease_ttl_ms (codes "d") lease_ids abandoned

acquire-IsConfirmed_example : carries (1 ∷ []) (acquire_on alone abandoned).0.lease ≡ true
acquire-IsConfirmed_example =
    acquire-IsConfirmed starter lease_ttl_ms (codes "d") lease_ids alone abandoned (1 ∷ []) acquires

is_stale : lease_is_live starter lease_ttl_ms (codes "d") lease_ids abandoned ≡ false
unfolding is_live_for uses_pid_semantics current_namespace is_fresh text_eq
is_stale = refl

is_taken :
    lease_is_live starter lease_ttl_ms
      (codes "d")
      lease_ids
      (rivals.after_stale_observation abandoned)
    ≡ true
unfolding is_live_for uses_pid_semantics current_namespace is_fresh text_eq
is_taken = refl

is_open :
    check_guard starter lease_ttl_ms
      (codes "d")
      lease_ids
      (rivals.after_stale_observation abandoned)
    ≡ guard_open
unfolding check_guard
is_open = refl

overtaken_refuses_example :
    acquire_on rivals abandoned
    ≡ (record abandoned { lease = stamped holder 150000 }, held_by_other)
overtaken_refuses_example =
    overtaken_refuses starter lease_ttl_ms (codes "d") lease_ids rivals abandoned refl refl is_stale
      refl is_taken is_open

-- A process that beats every ten seconds.
abbrev running : ProcessLease
running = beating_at 10000 (new_process_lease (1 ∷ []) lease_ttl_ms)

abbrev displaced : Holding
displaced = record { file = stamped holder 5; process = running; writes = 3 }

abbrev last_acts : List LeaseEvent
last_acts = write_asked ∷ ticks true 9 ∷ closes true ∷ []

is_displaced : carries running.lease_id displaced.file ≡ false
unfolding carries text_eq
is_displaced = refl

displaced-IsFenced_example :
    ((lease_events last_acts displaced).file ≡ stamped holder 5)
    × ((lease_events last_acts displaced).writes ≡ 3)
displaced-IsFenced_example = displaced-IsFenced last_acts displaced is_displaced

running-IsRunning : IsRunning 10000 running
running-IsRunning = record {
  beating = refl;
  open_still = refl;
  owned = refl;
  unfailed = refl;
  budget = refl;
  period = omega arith;
  accepted = omega arith;
}

-- The seven ticks of its budget, each on a file that holds no record.
abbrev blind_ticks : List Tick
blind_ticks =
    replicate 7
      (record { stamps = false; now = 10000; file = found (record { lease = none; mtime_ms = 0 }) })

are_blind : all_prove_nothing (1 ∷ []) blind_ticks ≡ true
unfolding proves_nothing
are_blind = refl

is_foreign : uses_pid_semantics holder (liveness_of starter lease_ttl_ms) ≡ false
unfolding uses_pid_semantics current_namespace text_eq
is_foreign = refl

lost_in_time_example :
    ((ticked blind_ticks running).lost ≡ true)
    × (is_live_lease starter.process_start
          (liveness_of starter lease_ttl_ms)
          89999
          (stamped holder 0)
        ≡ true)
lost_in_time_example =
    lost_in_time 10000 running blind_ticks starter.process_start (liveness_of starter lease_ttl_ms)
      holder 0 89999 running-IsRunning are_blind is_foreign refl (omega arith) (omega arith)
