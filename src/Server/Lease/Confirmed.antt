-- ===== src/Server/Lease/Confirmed.antt =====
-- A starter among others, who may act at the two seams of an attempt and while it waits
-- (`ProcessLease.acquire` of server/src/process-lease.ts).
use quanta_swap.Prelude.{
  ℕ, zero, suc, ◌+◌, ◌≡◌, refl, sym, ap, ◌∙◌, Bool, true, false, ◌||◌, Text, if_cases, if_either,
  true_ne_false,
}
use quanta_swap.Server.Lease.{
  Host, missing, Disk, Others, Outcome, acquired, held_by_other, read_failed, contended, again,
  is_again, is_found, is_unreadable, carries, GuardCheck, on_check, guard_open, guard_busy,
  guard_broken, check_guard, own_file, release_guard, under_guard, with_guard, attempt,
  acquire_loop, acquire,
}

-- A starter that believes that it owns the lease has read its own id at the path.
record IsConfirmed (a : Disk × Outcome) : Type 0 where
  confirmed : (id : Text) → a.1 ≡ acquired id → carries id a.0.lease ≡ true

is_acquired : Outcome → Bool
is_acquired (acquired _) = true
is_acquired held_by_other = false
is_acquired read_failed = false
is_acquired contended = false
is_acquired again = false

id_of : Outcome → Text → Text
id_of (acquired id) other = id
id_of held_by_other other = other
id_of read_failed other = other
id_of contended other = other
id_of again other = other

as_unowned : (d : Disk) (out : Outcome) → is_acquired out ≡ false → IsConfirmed (d, out)
unfolding is_acquired
as_unowned d out h = record {
  confirmed = λ id e. absurd (true_ne_false (sym (ap is_acquired e) ∙ h));
}

as_owned : (d : Disk) (id : Text) → carries id d.lease ≡ true → IsConfirmed (d, acquired id)
unfolding id_of
as_owned d id h = record {
  confirmed = λ other e. ap (λ (x : Text). carries x d.lease) (sym (ap (λ o. id_of o id) e)) ∙ h;
}

module _ (host : Host) (ttl : ℕ) (digest : Text) (ids : ℕ → Text) (others : Others) where
  release_guard-IsConfirmed :
      (id : Text) (a : Disk × Outcome)
      → IsConfirmed a
      → IsConfirmed (release_guard host ttl digest ids id a)
  unfolding release_guard is_acquired
  release_guard-IsConfirmed id a h =
      if_either IsConfirmed (is_unreadable a.0.guard) (a.0, read_failed) _
        (as_unowned a.0 read_failed refl)
        (if_either IsConfirmed (carries id a.0.guard) (record a.0 { guard = missing }, a.1) a
          (record { confirmed = h.confirmed }) h)

  under_guard-IsConfirmed :
      (id : Text) (d : Disk) → IsConfirmed (under_guard host ttl digest ids others id d)
  unfolding under_guard is_acquired
  under_guard-IsConfirmed id d =
      let w =
        others.after_lease_written (record d { lease = own_file host ttl digest ids d.now id }) in
      if_either IsConfirmed _ _ _ (as_unowned d read_failed refl) (
        if_either IsConfirmed _ _ _ (as_unowned d held_by_other refl) (
          if_either IsConfirmed _ _ _ (as_unowned w read_failed refl)
            (if_cases IsConfirmed _ _ _ (λ c. as_owned w id c) (λ _. as_unowned w again refl))))

  on_check-IsConfirmed :
      (c : GuardCheck) (x y z : Disk × Outcome)
      → IsConfirmed x
      → IsConfirmed y
      → IsConfirmed z
      → IsConfirmed (on_check c x y z)
  on_check-IsConfirmed guard_open x y z p q r = p
  on_check-IsConfirmed guard_busy x y z p q r = q
  on_check-IsConfirmed guard_broken x y z p q r = r

  with_guard-IsConfirmed :
      (guard_id id : Text) (d : Disk)
      → IsConfirmed (with_guard host ttl digest ids others guard_id id d)
  unfolding with_guard is_acquired
  with_guard-IsConfirmed guard_id id d =
      on_check-IsConfirmed (check_guard host ttl digest ids d) _ _ _
        (release_guard-IsConfirmed guard_id _ (under_guard-IsConfirmed id _))
        (as_unowned (others.while_waiting d) again refl) (as_unowned d read_failed refl)

  attempt-IsConfirmed :
      (n : ℕ) (notified : Bool) (d : Disk)
      → IsConfirmed (attempt host ttl digest ids others n notified d)
  unfolding attempt is_acquired
  attempt-IsConfirmed n notified d =
      if_either IsConfirmed _ _ _ (as_unowned d read_failed refl) (
        if_either IsConfirmed _ _ _ (as_unowned d held_by_other refl)
          (with_guard-IsConfirmed _ _ _))

  loop-IsConfirmed :
      (rounds n : ℕ) (notified : Bool) (d : Disk)
      → IsConfirmed (acquire_loop host ttl digest ids others rounds n notified d)
  unfolding acquire_loop is_acquired
  loop-IsConfirmed zero n notified d = as_unowned d contended refl
  loop-IsConfirmed (suc rounds) n notified d =
      let a = attempt host ttl digest ids others n notified d in
      if_either IsConfirmed (is_again a.1)
        (acquire_loop host ttl digest ids others rounds (n + 1) (notified || is_found d.lease) a.0)
        a (loop-IsConfirmed rounds (n + 1) (notified || is_found d.lease) a.0)
        (attempt-IsConfirmed n notified d)

-- Whatever the other starters do at the seams of its attempts, a starter comes to own the lease
-- only with its own lease id in the lease file.
pub acquire-IsConfirmed :
    (host : Host) (ttl : ℕ) (digest : Text) (ids : ℕ → Text) (others : Others) (d : Disk)
    (id : Text)
    → (acquire host ttl digest ids others d).1 ≡ acquired id
    → carries id (acquire host ttl digest ids others d).0.lease ≡ true
unfolding acquire
acquire-IsConfirmed host ttl digest ids others d id e =
    (loop-IsConfirmed host ttl digest ids others 500 0 false d).confirmed id e
