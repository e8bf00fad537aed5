-- ===== src/Server/Progress/Window.antt =====
-- What an announcement leaves (`announceHashlock` of server/src/store.ts).
use quanta_swap.Prelude.{
  ℕ, ◌+◌, ◌*◌, ◌≤◌, ◌<◌, ◌≡◌, refl, sym, ap, true, Option, none, some, Text, map, lower, text_eq→eq,
  arith, ==_iff,
}
use quanta_swap.Prelude.Int.{ℤ, pos, negsuc}
use quanta_swap.Server.Store.{Order}
use quanta_swap.Server.Tokens.{Hashes}
use quanta_swap.Server.Progress.{
  is_hashlock, equals_text, equals_number, responder_in_time, covers_twice, as_natural,
  locked_order,
}

-- The responder's timeout is more than ten minutes ahead, the initiator's is at least twice as far,
-- and the hashlock is a well-formed one in lower case.
pub record IsCovered (now : ℕ) (p : Order) : Type 0 where
  pub t1 : ℕ
  pub t2 : ℕ
  pub hashlock : Text
  pub initiator : p.initiator_timeout ≡ some t1
  pub responder : p.responder_timeout ≡ some t2
  pub ahead : now + 600 < t2
  pub twice : 2 * t2 ≤ t1 + now
  pub well_formed : is_hashlock hashlock ≡ true
  pub announced : p.hashlock ≡ some (map lower hashlock)

ahead_natural : (now : ℕ) (t2 : ℤ) → responder_in_time now t2 ≡ true → now + 600 < as_natural t2
ahead_natural now (pos t2) h = ground arith
ahead_natural now (negsuc k) h = ground (arith, h)

twice_natural :
    (now : ℕ) (t1 t2 : ℤ)
    → responder_in_time now t2 ≡ true
    → covers_twice now t1 t2 ≡ true
    → 2 * as_natural t2 ≤ as_natural t1 + now
twice_natural now (pos t1) (pos t2) h k = ground arith
twice_natural now (negsuc a) (pos t2) h k = ground (arith, h, k)
twice_natural now (pos t1) (negsuc b) h k = ground (arith, h)
twice_natural now (negsuc a) (negsuc b) h k = ground (arith, h)

pub locked_order-IsCovered :
    (hashes : Hashes) (now : ℕ) (o : Order) (hashlock : Text) (t1 t2 : ℤ)
    → is_hashlock hashlock ≡ true
    → responder_in_time now t2 ≡ true
    → covers_twice now t1 t2 ≡ true
    → IsCovered now (locked_order hashes now o hashlock t1 t2)
locked_order-IsCovered hashes now o hashlock t1 t2 a b c = record {
  t1 = as_natural t1;
  t2 = as_natural t2;
  hashlock = hashlock;
  initiator = refl;
  responder = refl;
  ahead = ahead_natural now t2 b;
  twice = twice_natural now t1 t2 b c;
  well_formed = a;
  announced = refl;
}

pub equals_text-some : (o : Option Text) (t : Text) → equals_text o t ≡ true → some t ≡ o
equals_text-some none t h = ground (arith, h)
equals_text-some (some x) t h = ap some (sym (text_eq→eq x t h))

pub equals_number-some : (o : Option ℕ) (t : ℤ) → equals_number o t ≡ true → some (as_natural t) ≡ o
equals_number-some none t h = ground (arith, h)
equals_number-some (some x) (pos t) h = ap some (sym ((==_iff x t).0 h))
equals_number-some (some x) (negsuc k) h = ground (arith, h)
