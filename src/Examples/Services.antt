-- ===== src/Examples/Services.antt =====
-- The order book's admission and stream on concrete events.
use quanta_swap.Prelude.{Text, codes, text_eq, ◌&&◌, ◌≡◌, refl, true, false, some, [], ◌∷◌, Bool}
use quanta_swap.Server.Admission.{
  admission_lane, maker_order_id, strip_prefix, split_slash, is_maker_action, maker, signed_create,
  taker, InflightWriteBound, new_bound,
}
use quanta_swap.Server.Admission.Accounts.{IsAccounted}
use quanta_swap.Server.Admission.Headroom.{takes, returns, run, run-IsAccounted}
use quanta_swap.Server.Stream.{
  StreamResponse, BoundedSseWriter, refused, new_writer, write, times_out, Happens, written,
  timed_out, drained,
}
use quanta_swap.Server.Stream as Stream
use quanta_swap.Server.Stream.Bounded.{IsFresh, IsBounded, IsDisconnected, slow_client}
use quanta_swap.Server.Stream.Bounded as Bounded

abbrev empty_bound : InflightWriteBound
empty_bound = record { total = 8; reserved = 4; active = 0; slots = [] }

made : new_bound 8 4 ≡ some empty_bound
unfolding new_bound
made = refl

run-IsAccounted_example :
    IsAccounted (
      run
        (takes taker ∷ takes maker ∷ takes signed_create ∷ returns 1 ∷ returns 1 ∷ [])
        empty_bound)
run-IsAccounted_example =
    run-IsAccounted 8 4 empty_bound
      (takes taker ∷ takes maker ∷ takes signed_create ∷ returns 1 ∷ returns 1 ∷ []) made

-- Four takers fill their share.
abbrev rushed : InflightWriteBound
rushed = record {
  total = 8;
  reserved = 4;
  active = 4;
  slots =
      record { lane = taker; released = false }
      ∷ record { lane = taker; released = false }
      ∷ record { lane = taker; released = false }
      ∷ record { lane = taker; released = false }
      ∷ [];
}

-- One order, whose capability is the text t.
abbrev knows : Text → Text → Bool
knows id token = text_eq id (codes "o1") && text_eq token (codes "t")

fills : admission_lane (codes "/api/orders/o1/fill") (some (codes "t")) knows ≡ maker
unfolding admission_lane maker_order_id strip_prefix split_slash is_maker_action text_eq
fills = refl

abbrev fresh : StreamResponse
fresh = record { destroyed = false; writable_ended = false; listening = false; backlog = 0 }

fresh-IsFresh : IsFresh fresh
fresh-IsFresh = record { silent = refl; empty = refl }

run-IsBounded_example :
    IsBounded
      (Stream.run (written refused ∷ drained ∷ written refused ∷ timed_out ∷ []) (new_writer fresh))
run-IsBounded_example =
    Bounded.run-IsBounded fresh (written refused ∷ drained ∷ written refused ∷ timed_out ∷ [])
      fresh-IsFresh

-- A writer whose client has not drained its last event.
abbrev slow : BoundedSseWriter
slow = record {
  response = record fresh { listening = true; backlog = 1 };
  blocked = true;
  closed = false;
  timer = true;
  closes = 0;
}
