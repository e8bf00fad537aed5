-- ===== src/Server/Stream/Bounded.antt =====
-- A client of the event stream (server/src/stream.ts) buffers at most one refused write, and its
-- owner is told of the end exactly once.
use quanta_swap.Prelude.{
  ◌≤◌, ◌≡◌, refl, Bool, true, false, not, ◌&&◌, ◌||◌, List, [], ◌∷◌, if◌then◌else◌, arith,
  Bool-cases, if_true, if_false, ap, ◌∙◌, inl, inr,
}
use quanta_swap.Server.Stream.{
  StreamResponse, BoundedSseWriter, WriteOutcome, accepted, refused, thrown, new_writer, finish,
  block, attempt, handle_drain, write, close, end, drains, times_out, Happens, written,
  closed_by_owner, ended, drained, timed_out, peer_gone, step, run,
}

-- A response that no writer uses yet.
pub record IsFresh (r : StreamResponse) : Type 0 where
  pub silent : r.listening ≡ false
  pub empty : r.backlog ≡ 0

-- At most one refused write is buffered, and none while the writer is ready; a writer that is
-- blocked waits for the drain with the timeout running; the owner was told once that the writer
-- closed, and a closed writer waits for nothing.
pub record IsBounded (w : BoundedSseWriter) : Type 0 where
  pub told_once : w.closes ≡ (if w.closed then 1 else 0)
  pub timed : w.timer ≡ (w.blocked && not w.closed)
  pub waits : w.response.listening ≡ (w.blocked && not w.closed)
  pub one_write : w.response.backlog ≤ (if w.blocked then 1 else 0)

new_writer-IsBounded : (r : StreamResponse) → IsFresh r → IsBounded (new_writer r)
unfolding new_writer
new_writer-IsBounded r f = record {
  told_once = refl;
  timed = refl;
  waits = f.silent;
  one_write = ground (arith, f.empty);
}

finish-IsBounded :
    (destroy : Bool) (w : BoundedSseWriter) → IsBounded w → IsBounded (finish destroy w)
unfolding finish
finish-IsBounded destroy w b = record {
  told_once = ground arith;
  timed = ground arith;
  waits = ground arith;
  one_write = ground arith;
}

block-IsBounded :
    (w : BoundedSseWriter)
    → w.closed ≡ false
    → w.blocked ≡ false
    → IsBounded w
    → IsBounded (block w)
unfolding block
block-IsBounded w c r b = record {
  told_once = b.told_once;
  timed = ground arith;
  waits = ground arith;
  one_write = ground arith;
}

attempt-IsBounded :
    (outcome : WriteOutcome) (w : BoundedSseWriter)
    → w.closed ≡ false
    → w.blocked ≡ false
    → IsBounded w
    → IsBounded (attempt outcome w).0
unfolding attempt
attempt-IsBounded accepted w c r b = b
attempt-IsBounded refused w c r b = block-IsBounded w c r b
attempt-IsBounded thrown w c r b = finish-IsBounded true w b

not_closed : (c d : Bool) → (c || d) ≡ false → c ≡ false
not_closed c d h = ground arith

-- The writer no longer writes.
unfoldable pub is_dead : BoundedSseWriter → Bool
is_dead w = w.closed || (w.response.destroyed || w.response.writable_ended)

write_dead :
    (outcome : WriteOutcome) (w : BoundedSseWriter)
    → is_dead w ≡ true
    → write outcome w ≡ (finish false w, false)
unfolding write is_dead
write_dead outcome w h = if_true _ _ _ h

write_blocked :
    (outcome : WriteOutcome) (w : BoundedSseWriter)
    → is_dead w ≡ false
    → w.blocked ≡ true
    → write outcome w ≡ (finish true w, false)
unfolding write is_dead
write_blocked outcome w h r = if_false _ _ _ h ∙ if_true _ _ _ r

write_ready :
    (outcome : WriteOutcome) (w : BoundedSseWriter)
    → is_dead w ≡ false
    → w.blocked ≡ false
    → write outcome w ≡ attempt outcome w
unfolding write is_dead
write_ready outcome w h r = if_false _ _ _ h ∙ if_false _ _ _ r

live_closed : (w : BoundedSseWriter) → is_dead w ≡ false → w.closed ≡ false
unfolding is_dead
live_closed w h = not_closed w.closed _ h

write-IsBounded :
    (outcome : WriteOutcome) (w : BoundedSseWriter) → IsBounded w → IsBounded (write outcome w).0
write-IsBounded outcome w b = elim (Bool-cases (is_dead w)) [
  | inl e ↦ rw (write_dead outcome w e) (finish-IsBounded false w b)
  | inr e ↦ elim (Bool-cases w.blocked) [
    | inl r ↦ rw (write_blocked outcome w e r) (finish-IsBounded true w b)
    | inr r ↦ rw (write_ready outcome w e r) (attempt-IsBounded outcome w (live_closed w e) r b)
  ]
]

end-IsBounded : (throws : Bool) (w : BoundedSseWriter) → IsBounded w → IsBounded (end throws w)
unfolding end
end-IsBounded throws w b =
    finish-IsBounded false _ (record {
      told_once = b.told_once;
      timed = b.timed;
      waits = b.waits;
      one_write = b.one_write;
    })

drains-IsBounded : (w : BoundedSseWriter) → IsBounded w → IsBounded (drains w)
unfolding drains handle_drain
drains-IsBounded w b = record {
  told_once = ground arith;
  timed = ground arith;
  waits = ground arith;
  one_write = ground arith;
}

times_out-IsBounded : (w : BoundedSseWriter) → IsBounded w → IsBounded (times_out w)
unfolding times_out finish
times_out-IsBounded w b = record {
  told_once = ground arith;
  timed = ground arith;
  waits = ground arith;
  one_write = ground arith;
}

step-IsBounded : (e : Happens) (w : BoundedSseWriter) → IsBounded w → IsBounded (step e w)
unfolding step close
step-IsBounded (written outcome) w b = write-IsBounded outcome w b
step-IsBounded closed_by_owner w b = finish-IsBounded false w b
step-IsBounded (ended throws) w b = end-IsBounded throws w b
step-IsBounded drained w b = drains-IsBounded w b
step-IsBounded timed_out w b = times_out-IsBounded w b
step-IsBounded peer_gone w b = record {
  told_once = b.told_once;
  timed = b.timed;
  waits = b.waits;
  one_write = b.one_write;
}

steps-IsBounded :
    (events : List Happens) (w : BoundedSseWriter) → IsBounded w → IsBounded (run events w)
unfolding run
steps-IsBounded [] w b = b
steps-IsBounded (e ∷ events) w b = steps-IsBounded events (step e w) (step-IsBounded e w b)

-- Whatever happens to a writer on a fresh response, in whatever order, it is bounded: at most one
-- refused write is buffered, the timeout runs and the drain is awaited exactly while it is blocked
-- and not closed, and its owner is told of the end exactly once, when it closes.
pub run-IsBounded :
    (r : StreamResponse) (events : List Happens) → IsFresh r → IsBounded (run events (new_writer r))
run-IsBounded r events f = steps-IsBounded events (new_writer r) (new_writer-IsBounded r f)

-- A client is disconnected.
pub record IsDisconnected (w : BoundedSseWriter) : Type 0 where
  pub ended_here : w.closed ≡ true
  pub cut : w.response.destroyed ≡ true
  pub told : w.closes ≡ 1

finish-IsDisconnected :
    (w : BoundedSseWriter) → w.closed ≡ false → IsBounded w → IsDisconnected (finish true w)
unfolding finish
finish-IsDisconnected w c b = record {
  ended_here = ground arith;
  cut = ground arith;
  told = ground arith;
}

times_out_due : (w : BoundedSseWriter) → w.timer ≡ true → times_out w ≡ finish true w
unfolding times_out
times_out_due w h = if_true _ _ _ h

still_live :
    (w : BoundedSseWriter)
    → w.closed ≡ false
    → w.response.destroyed ≡ false
    → w.response.writable_ended ≡ false
    → is_dead w ≡ false
unfolding is_dead
still_live w p q r = rw (p, q, r) refl

both : (a b : Bool) → a ≡ true → b ≡ false → (a && not b) ≡ true
both a b h k = rw (h, k) refl

-- A client of a bounded writer that is still blocked at its deadline, or when the next event
-- comes, and whose response is neither destroyed nor ended, is disconnected and its owner told;
-- the write of that event reports that it failed.
pub slow_client :
    (w : BoundedSseWriter) (outcome : WriteOutcome)
    → IsBounded w
    → w.blocked ≡ true
    → w.closed ≡ false
    → w.response.destroyed ≡ false
    → w.response.writable_ended ≡ false
    → IsDisconnected (times_out w)
      × IsDisconnected (write outcome w).0
      × ((write outcome w).1 ≡ false)
slow_client w outcome b r c d e =
    let cut = finish-IsDisconnected w c b in
    let failed = write_blocked outcome w (still_live w c d e) r in
    (
      rw (times_out_due w (b.timed ∙ both w.blocked w.closed r c)) cut,
      rw failed cut,
      ap (λ a. a.1) failed,
    )
