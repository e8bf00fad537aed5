-- ===== src/Server/Stream.antt =====
-- One client of the event stream (server/src/stream.ts). The response is the platform's: of it the
-- model keeps the flags that the writer reads, whether the writer listens for `drain`, and how many
-- writes the response has refused since it last drained.
pub mod Bounded
use quanta_swap.Prelude.{
  ℕ, zero, suc, ◌+◌, Bool, true, false, not, ◌&&◌, ◌||◌, Option, none, some, List, [], ◌∷◌,
  if◌then◌else◌,
}

pub record StreamResponse : Type 0 where
  pub destroyed : Bool
  pub writable_ended : Bool
  pub listening : Bool
  pub backlog : ℕ

-- `timer` says whether the timeout is running; `closes` counts the calls of `onClose`.
pub record BoundedSseWriter : Type 0 where
  pub response : StreamResponse
  pub blocked : Bool
  pub closed : Bool
  pub timer : Bool
  pub closes : ℕ

-- What the platform's `response.write` does: it takes the chunk, takes it over its limit and
-- returns false, or throws.
pub data WriteOutcome : Type 0 where
  accepted refused thrown : WriteOutcome

unfoldable pub new_writer : StreamResponse → BoundedSseWriter
new_writer response = record {
  response = response;
  blocked = false;
  closed = false;
  timer = false;
  closes = 0;
}

unfoldable pub handle_drain : BoundedSseWriter → BoundedSseWriter
handle_drain w = record w { blocked = false; timer = false }

-- `destroy && !this.response.destroyed`
unfoldable pub finish : Bool → BoundedSseWriter → BoundedSseWriter
finish destroy w = if w.closed then w else record w {
  closed = true;
  timer = false;
  response = record w.response { listening = false; destroyed = destroy || w.response.destroyed };
  closes = w.closes + 1;
}

unfoldable pub block : BoundedSseWriter → BoundedSseWriter
block w = record w {
  blocked = true;
  timer = true;
  response = record w.response { listening = true; backlog = w.response.backlog + 1 };
}

-- The `try` of `write`.
unfoldable pub attempt : WriteOutcome → BoundedSseWriter → BoundedSseWriter × Bool
unfolding finish block
attempt accepted w = (w, true)
attempt refused w = (block w, true)
attempt thrown w = (finish true w, false)

unfoldable pub write : WriteOutcome → BoundedSseWriter → BoundedSseWriter × Bool
unfolding finish attempt
write outcome w =
    if w.closed || (w.response.destroyed || w.response.writable_ended)
    then (finish false w, false)
    else if w.blocked
    then (finish true w, false)
    else attempt outcome w

unfoldable pub close : BoundedSseWriter → BoundedSseWriter
unfolding finish
close w = finish false w

-- `response.end` may throw; the writer finishes all the same.
unfoldable pub end : Bool → BoundedSseWriter → BoundedSseWriter
unfolding finish
end throws w = finish false (record w {
  response = record w.response { writable_ended = w.response.writable_ended || not throws };
})

-- The response empties its buffer, and tells the listener once.
unfoldable pub drains : BoundedSseWriter → BoundedSseWriter
unfolding handle_drain
drains w =
    let emptied = record w { response = record w.response { listening = false; backlog = 0 } } in
    if w.response.listening then handle_drain emptied else emptied

-- The timeout fires, if it runs.
unfoldable pub times_out : BoundedSseWriter → BoundedSseWriter
unfolding finish
times_out w = if w.timer then finish true w else w

-- What can happen to a writer: a call, an event of the response, the timeout, or the client's end.
pub data Happens : Type 0 where
  written : WriteOutcome → Happens
  closed_by_owner : Happens
  ended : Bool → Happens
  drained timed_out peer_gone : Happens

unfoldable pub step : Happens → BoundedSseWriter → BoundedSseWriter
unfolding write close end drains times_out
step (written outcome) w = (write outcome w).0
step closed_by_owner w = close w
step (ended throws) w = end throws w
step drained w = drains w
step timed_out w = times_out w
step peer_gone w = record w { response = record w.response { destroyed = true } }

unfoldable pub run : List Happens → BoundedSseWriter → BoundedSseWriter
unfolding step
run [] w = w
run (e ∷ events) w = run events (step e w)
