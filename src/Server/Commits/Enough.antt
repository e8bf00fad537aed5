-- ===== src/Server/Commits/Enough.antt =====
-- The commit loop of the order book's store ends (`runCommits` of server/src/store.ts).
use quanta_swap.Prelude.{
  ℕ, ◌≡◌, refl, ◌∙◌, inl, inr, Bool, true, false, some, List, [], ◌∷◌, ◌++◌, arith, Bool-cases,
  if_either, option_either,
}
use quanta_swap.Server.Commits.{
  FederationEvent, Commits, CommitFault, flush, Request, request, requests, mutates, flushes, Pass,
  WriteOutcome, replaced, disowned, unrenamed, unsynced, write_snapshot, deliver, take_batch,
  settle, fail_commit, commit_pass, has_work, commit_loop,
}
use quanta_swap.Server.Commits.Batch.{loop_ends, loop_goes_on}

-- Observers that ask only for what they see to be durable.
abbrev pub only_flushes : List Request → Bool
only_flushes [] = true
only_flushes (mutates event ∷ rs) = false
only_flushes (flushes caller ∷ rs) = only_flushes rs

flush_dirty : (caller : ℕ) (s : Commits) → (flush caller s).dirty ≡ s.dirty
unfolding flush
flush_dirty caller s =
    let same : (t : Commits) → Type 0 = λ t. t.dirty ≡ s.dirty in
    if_either same _ _ _ refl (
      if_either same s.dirty _ _ (if_either same s.committing _ _ refl refl)
        (if_either same s.committing _ _ refl refl))

requests_dirty :
    (rs : List Request) (s : Commits) → only_flushes rs ≡ true → (requests rs s).dirty ≡ s.dirty
unfolding requests request
requests_dirty [] s h = refl
requests_dirty (mutates event ∷ rs) s h = ground (arith, h)
requests_dirty (flushes caller ∷ rs) s h =
    requests_dirty rs (flush caller s) h ∙ flush_dirty caller s

write_snapshot_dirty : (w : WriteOutcome) (s : Commits) → (write_snapshot w s).0.dirty ≡ s.dirty
unfolding write_snapshot
write_snapshot_dirty replaced s = refl
write_snapshot_dirty disowned s = refl
write_snapshot_dirty unrenamed s = refl
write_snapshot_dirty unsynced s = refl

deliver_dirty :
    (es : List FederationEvent) (takes : Bool) (s : Commits)
    → (deliver es takes s).0.dirty ≡ s.dirty
unfolding deliver
deliver_dirty [] takes s = refl
deliver_dirty (e ∷ es) true s = refl
deliver_dirty (e ∷ es) false s = refl

clean_batch : (s : Commits) → (take_batch s).dirty ≡ false
unfolding take_batch
clean_batch s = refl

failed_stops : (f : CommitFault) (s : Commits) → has_work (fail_commit f s) ≡ false
unfolding fail_commit
failed_stops f s = ground arith

settled_stops : (s : Commits) → s.dirty ≡ false → has_work (settle s) ≡ false
unfolding settle
settled_stops s h = rw h refl

quiet_pass :
    (p : Pass) (s : Commits) → only_flushes p.observers ≡ true → has_work (commit_pass p s) ≡ false
unfolding commit_pass
quiet_pass p s h =
    let t = take_batch s in
    let w = write_snapshot p.write t in
    let d = deliver s.pending_federation_events p.feed_takes w.0 in
    let stops : (t : Commits) → Type 0 = λ t. has_work t ≡ false in
    let clean =
      requests_dirty p.observers d.0 h
      ∙ deliver_dirty s.pending_federation_events p.feed_takes w.0
      ∙ write_snapshot_dirty p.write t
      ∙ clean_batch s in
    option_either stops w.1 _ _
      (option_either stops d.1 _ _ (settled_stops (requests p.observers d.0) clean)
        (λ f _. failed_stops f d.0))
      (λ f _. failed_stops f w.0)

pub commit_loop-returns :
    (ps : List Pass) (p : Pass) (s : Commits)
    → only_flushes p.observers ≡ true
    → (t : Commits) × (commit_loop (ps ++ p ∷ []) s ≡ some t)
commit_loop-returns [] p s h = elim (Bool-cases (has_work s)) [
  | inl w ↦
      (commit_pass p s, loop_goes_on p [] s w ∙ loop_ends [] (commit_pass p s) (quiet_pass p s h))
  | inr w ↦ (s, loop_ends (p ∷ []) s w)
]
commit_loop-returns (q ∷ ps) p s h = elim (Bool-cases (has_work s)) [
  | inl w ↦
      let (t, e) = commit_loop-returns ps p (commit_pass q s) h in
      (t, loop_goes_on q (ps ++ p ∷ []) s w ∙ e)
  | inr w ↦ (s, loop_ends (q ∷ ps ++ p ∷ []) s w)
]
