-- ===== src/Server/Lease/Spared.antt =====
-- A starter that has seen a stale lease, and is overtaken before it has the guard
-- (`ProcessLease.acquire` of server/src/process-lease.ts).
use quanta_swap.Prelude.{ℕ, ◌+◌, ◌≡◌, refl, ap, ◌∙◌, true, false, ◌&&◌, Text, if_true, if_false}
use quanta_swap.Server.Lease.{
  Host, missing, Disk, Others, held_by_other, read_failed, again, is_found, is_unreadable, on_check,
  guard_open, check_guard, lease_is_live, own_file, release_guard, under_guard, with_guard, attempt,
  acquire,
}
use quanta_swap.Server.Lease.Alone.{release_own, loop_settles}

module _ (host : Host) (ttl : ℕ) (digest : Text) (ids : ℕ → Text) (others : Others) where
  under_guard_live :
      (id : Text) (d : Disk)
      → is_unreadable d.lease ≡ false
      → lease_is_live host ttl digest ids d ≡ true
      → under_guard host ttl digest ids others id d ≡ (d, held_by_other)
  unfolding under_guard
  under_guard_live id d h k = if_false _ _ _ h ∙ if_true _ _ _ k

  with_guard_live :
      (guard_id id : Text) (d : Disk)
      → check_guard host ttl digest ids d ≡ guard_open
      → is_unreadable d.lease ≡ false
      → lease_is_live host ttl digest ids d ≡ true
      → with_guard host ttl digest ids others guard_id id d
        ≡ (record d { guard = missing }, held_by_other)
  unfolding with_guard
  with_guard_live guard_id id d g h k =
      let guarded = record d { guard = own_file host ttl digest ids d.now guard_id } in
      let under = under_guard host ttl digest ids others id guarded in
      ap
        (λ c.
          on_check c (release_guard host ttl digest ids guard_id under)
            (others.while_waiting d, again) (d, read_failed))
        g
      ∙ ap (release_guard host ttl digest ids guard_id) (under_guard_live id guarded h k)
      ∙ release_own host ttl digest ids guard_id d held_by_other

  attempt_overtaken :
      (n : ℕ) (d : Disk)
      → is_found d.lease ≡ true
      → is_unreadable d.lease ≡ false
      → lease_is_live host ttl digest ids d ≡ false
      → attempt host ttl digest ids others n false d
        ≡ with_guard host ttl digest ids others
            (ids (n + n))
            (ids (n + n + 1))
            (others.after_stale_observation d)
  unfolding attempt
  attempt_overtaken n d f h k =
      if_false _ _ _ h
      ∙ if_false _ _ _ k
      ∙ ap (with_guard host ttl digest ids others (ids (n + n)) (ids (n + n + 1)))
          (if_true _ (others.after_stale_observation d) d (ap (λ b. b && true) f))

-- A starter that saw a stale lease, and behind which another starter has taken the lease over in
-- the meantime, refuses to start: it leaves the lease file as the other one wrote it, and takes
-- its own guard away again.
pub overtaken_refuses :
    (host : Host) (ttl : ℕ) (digest : Text) (ids : ℕ → Text) (others : Others) (d : Disk)
    → is_found d.lease ≡ true
    → is_unreadable d.lease ≡ false
    → lease_is_live host ttl digest ids d ≡ false
    → is_unreadable (others.after_stale_observation d).lease ≡ false
    → lease_is_live host ttl digest ids (others.after_stale_observation d) ≡ true
    → check_guard host ttl digest ids (others.after_stale_observation d) ≡ guard_open
    → acquire host ttl digest ids others d
      ≡ (record (others.after_stale_observation d) { guard = missing }, held_by_other)
unfolding acquire
overtaken_refuses host ttl digest ids others d f h k r l g =
    loop_settles host ttl digest ids others 499 0 false d _
      (attempt_overtaken host ttl digest ids others 0 d f h k
        ∙ with_guard_live host ttl digest ids others _ _ (others.after_stale_observation d) g r l)
      refl
