-- ===== src/Server/Lease/Held/Beats.antt =====
-- How a run of failed heartbeats ends (`countFailedBeat` and `startHeartbeat` of
-- server/src/process-lease.ts).
use native.Mathlib.Nat.{le-div_iff_mul-le, div-mul-le_self}
use quanta_swap.Prelude.{
  ℕ, ◌+◌, ◌-◌, ◌*◌, ◌/◌, ◌≤◌, ◌<◌, ◌≡◌, refl, sym, ap, ◌∙◌, Bool, true, false, ◌&&◌, ◌||◌, not,
  Option, some, List, [], ◌∷◌, Text, arith, suc, inl, inr, Bool-cases, ltb→lt, &&_parts, leb, ltb,
  max, if◌then◌else◌, if_cases, if_true, if_false, is_null, length, all, true_ne_false,
}
use quanta_swap.Server.Lease.{
  Reading, missing, unreadable, found, LeaseRecord, LeaseLiveness, carries, uses_pid_semantics,
  is_fresh, is_live_for, is_live_lease,
}
use quanta_swap.Server.Lease.Held.{
  ProcessLease, LossReason, unverifiable_for, mark_lost, count_failed_beat, beat_on, beat,
}

-- A tick of the timer: what the lease file is then, whether its modification time can be set, and
-- the clock.
pub record Tick : Type 0 where
  pub stamps : Bool
  pub now : ℕ
  pub file : Reading

-- The file cannot be read, holds no usable record, or is the process's own and cannot be stamped.
unfoldable pub proves_nothing : Text → Bool → Reading → Bool
proves_nothing id stamps missing = false
proves_nothing id stamps unreadable = true
proves_nothing id stamps (found o) = is_null o.lease || (carries id (found o) && not stamps)

-- The ticks up to the one that stops the timer.
unfoldable pub ticked : List Tick → ProcessLease → ProcessLease
unfolding beat
ticked [] p = p
ticked (t ∷ ts) p = ticked ts (if p.beating then (beat t.stamps t.now t.file p).1 else p)

abbrev pub all_prove_nothing : Text → List Tick → Bool
all_prove_nothing id ts = all (λ (t : Tick). proves_nothing id t.stamps t.file) ts

record IsBeating (p : ProcessLease) : Type 0 where
  beating : p.beating ≡ true
  open_still : p.closed ≡ false
  owned : p.lost ≡ false

not_own : (a b c : Bool) → (a || (b && not c)) ≡ true → a ≡ false → (not b) ≡ false
not_own a b c h k = ground arith

not_stamped : (a b c : Bool) → (a || (b && not c)) ≡ true → a ≡ false → (not c) ≡ true
not_stamped a b c h k = ground arith

beat_on-fails :
    (stamps : Bool) (now : ℕ) (file : Reading) (p : ProcessLease)
    → proves_nothing p.lease_id stamps file ≡ true
    → (beat_on stamps now file p).1 ≡ count_failed_beat p
unfolding beat_on proves_nothing
beat_on-fails stamps now missing p h = absurd (true_ne_false (sym h))
beat_on-fails stamps now unreadable p h = refl
beat_on-fails stamps now (found o) p h =
    if_cases (λ (b : Reading × ProcessLease). b.1 ≡ count_failed_beat p) _ _ _ (λ _. refl)
      (λ n.
        ap (λ (b : Reading × ProcessLease). b.1)
          (if_false _ _ _ (not_own (is_null o.lease) (carries p.lease_id (found o)) stamps h n)
            ∙ if_true _ _ _
                (not_stamped (is_null o.lease) (carries p.lease_id (found o)) stamps h n)))

either_false : (a b : Bool) → a ≡ false → b ≡ false → (a || b) ≡ false
either_false a b h k = ground arith

tick_fails :
    (t : Tick) (p : ProcessLease)
    → IsBeating p
    → proves_nothing p.lease_id t.stamps t.file ≡ true
    → (if p.beating then (beat t.stamps t.now t.file p).1 else p) ≡ count_failed_beat p
unfolding beat
tick_fails t p b h =
    if_true _ _ _ b.beating
    ∙ ap (λ (x : Reading × ProcessLease). x.1)
        (if_false _ _ _ (either_false p.closed p.lost b.open_still b.owned))
    ∙ beat_on-fails t.stamps t.now t.file p h

-- The timer is off for good.
record IsStill (p : ProcessLease) : Type 0 where
  silent : p.beating ≡ false
  gone : p.lost ≡ true

still_ticked : (ts : List Tick) (p : ProcessLease) → IsStill p → (ticked ts p).lost ≡ true
unfolding ticked
still_ticked [] p s = s.gone
still_ticked (t ∷ ts) p s =
    ap (λ (q : ProcessLease). (ticked ts q).lost) (if_false p.beating _ p s.silent)
    ∙ still_ticked ts p s

count_failed_early :
    (p : ProcessLease)
    → ltb (p.failed_beats + 1) p.failure_budget ≡ true
    → count_failed_beat p ≡ record p { failed_beats = p.failed_beats + 1 }
unfolding count_failed_beat
count_failed_early p h = if_true _ _ _ h

mark_lost-IsStill :
    (reason : LossReason) (p : ProcessLease) → p.lost ≡ false → IsStill (mark_lost reason p)
unfolding mark_lost
mark_lost-IsStill reason p h =
    if_cases IsStill p.lost _ _ (λ l. absurd (true_ne_false (sym l ∙ h)))
      (λ _. record { silent = refl; gone = refl })

count_failed-IsStill :
    (p : ProcessLease)
    → p.lost ≡ false
    → ltb (p.failed_beats + 1) p.failure_budget ≡ false
    → IsStill (count_failed_beat p)
unfolding count_failed_beat
count_failed-IsStill p l h =
    let failed = record p { failed_beats = p.failed_beats + 1 } in
    let reason = unverifiable_for failed.failed_beats in
    if_cases IsStill (ltb failed.failed_beats failed.failure_budget) failed
      (mark_lost reason failed) (λ c. absurd (true_ne_false (sym c ∙ h)))
      (λ _. mark_lost-IsStill reason failed l)

not_yet : (f b : ℕ) → f < b → false ≡ leb b (f + 0)
not_yet f b h = ground (arith, h)

sooner : (f b n : ℕ) → leb b (f + 1 + n) ≡ leb b (f + suc n)
sooner f b n = ap (leb b) (omega arith)

now_lost : (f b n : ℕ) → ltb (f + 1) b ≡ false → true ≡ leb b (f + suc n)
now_lost f b n h = ground (arith, h)

-- Failed ticks stop the process when they have used up its budget, and not before.
ticked_fails :
    (ts : List Tick) (p : ProcessLease)
    → IsBeating p
    → p.failed_beats < p.failure_budget
    → all_prove_nothing p.lease_id ts ≡ true
    → (ticked ts p).lost ≡ leb p.failure_budget (p.failed_beats + length ts)
unfolding ticked
ticked_fails [] p b h k = b.owned ∙ not_yet p.failed_beats p.failure_budget h
ticked_fails (t ∷ ts) p b h k =
    let (f, fs) = &&_parts (proves_nothing p.lease_id t.stamps t.file) _ k in
    let e = ap (λ (q : ProcessLease). (ticked ts q).lost) (tick_fails t p b f) in
    elim (Bool-cases (ltb (p.failed_beats + 1) p.failure_budget)) [
      | inl c ↦
          let q = record p { failed_beats = p.failed_beats + 1 } in
          e
          ∙ ap (λ (x : ProcessLease). (ticked ts x).lost) (count_failed_early p c)
          ∙ ticked_fails ts q
              (record { beating = b.beating; open_still = b.open_still; owned = b.owned })
              (ltb→lt _ _ c) fs
          ∙ sooner p.failed_beats p.failure_budget (length ts)
      | inr c ↦
          e
          ∙ still_ticked ts _ (count_failed-IsStill p b.owned c)
          ∙ now_lost p.failed_beats p.failure_budget (length ts) c
    ]

budget_fits :
    (ttl interval : ℕ)
    → 0 < interval
    → interval * 3 ≤ ttl
    → max 1 ((ttl - 2 * interval) / interval) * interval + 2 * interval ≤ ttl
budget_fits ttl interval p h =
    let q = (ttl - 2 * interval) / interval in
    let positive : 1 ≤ q = (le-div_iff_mul-le p).1 (omega (arith, h)) in
    let fits = div-mul-le_self (ttl - 2 * interval) interval in
    let largest : max 1 q ≡ q = omega (arith, positive) in rw largest (omega (arith, fits, h))

-- The process beats every `interval` milliseconds, and its last beat did not fail.
pub record IsRunning (interval : ℕ) (p : ProcessLease) : Type 0 where
  pub beating : p.beating ≡ true
  pub open_still : p.closed ≡ false
  pub owned : p.lost ≡ false
  pub unfailed : p.failed_beats ≡ 0
  pub budget : p.failure_budget ≡ max 1 ((p.ttl_ms - 2 * interval) / interval)
  pub period : 0 < interval
  pub accepted : interval * 3 ≤ p.ttl_ms

-- The lease file as its holder stamped it.
abbrev pub stamped : LeaseRecord → ℕ → Reading
stamped r at = found (record { lease = some r; mtime_ms = at })

stamped-is_live :
    (starts : ℕ → Option Text) (l : LeaseLiveness) (r : LeaseRecord) (at now : ℕ)
    → uses_pid_semantics r l ≡ false
    → at ≤ now
    → now < at + l.ttl_ms
    → is_live_lease starts l now (stamped r at) ≡ true
unfolding is_live_for is_fresh
stamped-is_live starts l r at now h a b = if_false _ _ _ h ∙ ground (arith, a, b)

in_time : (b i at now ttl : ℕ) → b * i + 2 * i ≤ ttl → now < at + (b * i + 2 * i) → now < at + ttl
in_time b i at now ttl h k = omega (arith, h, k)

no_failures :
    (ts : List Tick) (p : ProcessLease) (n : ℕ)
    → n ≡ 0
    → leb p.failure_budget (n + length ts) ≡ leb p.failure_budget (length ts)
no_failures ts p n h = ap (leb p.failure_budget) (omega (arith, h))

beats_left : (n m b : ℕ) → n ≡ 0 → b ≡ max 1 m → n < b
beats_left n m b h k = omega (arith, h, k)

-- A process that beats every `interval` milliseconds and then cannot prove its lease for a run of
-- ticks declares the loss at the tick that uses up its budget, and not before. A peer that cannot
-- inspect the process, and has the same lease lifetime, still holds the lease for live at every
-- time from the last stamp on that is less than the budget's periods and two more after it.
pub lost_in_time :
    (interval : ℕ) (p : ProcessLease) (ts : List Tick) (starts : ℕ → Option Text)
    (l : LeaseLiveness) (r : LeaseRecord) (at now : ℕ)
    → IsRunning interval p
    → all_prove_nothing p.lease_id ts ≡ true
    → uses_pid_semantics r l ≡ false
    → l.ttl_ms ≡ p.ttl_ms
    → at ≤ now
    → now < at + (p.failure_budget * interval + 2 * interval)
    → ((ticked ts p).lost ≡ leb p.failure_budget (length ts))
      × (is_live_lease starts l now (stamped r at) ≡ true)
lost_in_time interval p ts starts l r at now run fails foreign ttl since until =
    let fits : p.failure_budget * interval + 2 * interval ≤ l.ttl_ms =
      rw (run.budget, ttl) (budget_fits p.ttl_ms interval run.period run.accepted) in
    (
      ticked_fails ts p
            (record { beating = run.beating; open_still = run.open_still; owned = run.owned })
            (beats_left p.failed_beats _ p.failure_budget run.unfailed run.budget) fails
          ∙ no_failures ts p p.failed_beats run.unfailed,
      stamped-is_live starts l r at now foreign since
          (in_time p.failure_budget interval at now l.ttl_ms fits until),
    )
