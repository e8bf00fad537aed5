-- ===== src/Server/Admission/Accounts.antt =====
-- The slots of the admission bound (server/src/admission.ts) add up.
use quanta_swap.Prelude.{
  ℕ, zero, suc, ◌+◌, ◌-◌, ◌/◌, ◌≤◌, ◌<◌, ◌≡◌, refl, Bool, true, false, not, ◌&&◌, some, List, [],
  ◌∷◌, ◌++◌, if◌then◌else◌, arith,
}
use quanta_swap.Server.Admission.{
  AdmissionLane, maker, signed_create, taker, Slot, InflightWriteBound, lane_ceiling, new_bound,
  acquire, return_slot, release,
}

abbrev pub is_maker : AdmissionLane → Bool
is_maker maker = true
is_maker _ = false

abbrev pub others : AdmissionLane → Bool
others lane = not (is_maker lane)

-- The slots that are held, by the lanes that `test` picks.
unfoldable pub held : (AdmissionLane → Bool) → List Slot → ℕ
held test [] = 0
held test (slot ∷ slots) =
    let rest = held test slots in if not slot.released && test slot.lane then suc rest else rest

held-append :
    (test : AdmissionLane → Bool) (xs ys : List Slot)
    → held test (xs ++ ys) ≡ held test xs + held test ys
unfolding held
held-append test [] ys = omega arith
held-append test (x ∷ xs) ys = ground (arith, held-append test xs ys)

pub held-split :
    (slots : List Slot) → held (λ _. true) slots ≡ held is_maker slots + held (others) slots
unfolding held
held-split [] = refl
held-split (x ∷ xs) = ground (arith, held-split xs)

-- A returned slot is one fewer held; otherwise the slots are as they were.
return_slot-held :
    (test : AdmissionLane → Bool) (i : ℕ) (slots : List Slot)
    → (held test (return_slot i slots).0 ≤ held test slots)
unfolding held return_slot
return_slot-held test i [] = omega arith
return_slot-held test zero (x ∷ xs) = ground arith
return_slot-held test (suc i) (x ∷ xs) = ground (arith, return_slot-held test i xs)

return_slot_all :
    (i : ℕ) (slots : List Slot)
    → held (λ _. true) slots
      ≡ held (λ _. true) (return_slot i slots).0 + (if (return_slot i slots).1 then 1 else 0)
unfolding held return_slot
return_slot_all i [] = omega arith
return_slot_all zero (x ∷ xs) = ground arith
return_slot_all (suc i) (x ∷ xs) = ground (arith, return_slot_all i xs)

-- The count is the number of held slots, it is within the bound, and the lanes other than the
-- makers' hold at most their share of it.
pub record IsAccounted (b : InflightWriteBound) : Type 0 where
  pub below : b.reserved < b.total
  pub counted : b.active ≡ held (λ _. true) b.slots
  pub within : b.active ≤ b.total
  pub shared : held others b.slots ≤ (b.total - b.reserved) + b.reserved / 2

fresh-IsAccounted :
    (total reserved : ℕ)
    → reserved < total
    → IsAccounted (record { total = total; reserved = reserved; active = 0; slots = [] })
unfolding held
fresh-IsAccounted total reserved w = record {
  below = w;
  counted = refl;
  within = omega arith;
  shared = omega arith;
}

pub new_bound_parts :
    (total reserved : ℕ) (b : InflightWriteBound)
    → new_bound total reserved ≡ some b
    → (reserved < total)
      × (b ≡ record { total = total; reserved = reserved; active = 0; slots = [] })
unfolding new_bound
new_bound_parts total reserved b h = ground arith

pub new_bound-IsAccounted :
    (total reserved : ℕ) (b : InflightWriteBound)
    → new_bound total reserved ≡ some b
    → IsAccounted b
new_bound-IsAccounted total reserved b h =
    let (w, e) = new_bound_parts total reserved b h in rw e (fresh-IsAccounted total reserved w)

-- The bound after a slot was taken.
abbrev pub taken : AdmissionLane → InflightWriteBound → InflightWriteBound
taken lane b = record b {
  active = b.active + 1;
  slots = b.slots ++ (record { lane = lane; released = false } ∷ []);
}

pub acquire_parts :
    (lane : AdmissionLane) (b c : InflightWriteBound)
    → acquire lane b ≡ some c
    → (b.active < lane_ceiling lane b.total b.reserved) × (c ≡ taken lane b)
unfolding acquire
acquire_parts lane b c h = ground arith

one_more :
    (test : AdmissionLane → Bool) (lane : AdmissionLane) (slots : List Slot)
    → held test (slots ++ (record { lane = lane; released = false } ∷ []))
      ≡ held test slots + (if test lane then 1 else 0)
unfolding held
one_more test lane slots =
    ground (arith, held-append test slots (record { lane = lane; released = false } ∷ []))

pub ceiling_bounds :
    (lane : AdmissionLane) (total reserved : ℕ)
    → reserved < total
    → (lane_ceiling lane total reserved ≤ total)
      × (others lane ≡ true → lane_ceiling lane total reserved ≤ (total - reserved) + reserved / 2)
unfolding lane_ceiling
ceiling_bounds maker total reserved w = (omega arith, λ h. ground arith)
ceiling_bounds signed_create total reserved w = (omega arith, λ h. omega arith)
ceiling_bounds taker total reserved w = (omega arith, λ h. omega arith)

still_shared :
    (lane : AdmissionLane) (b : InflightWriteBound)
    → IsAccounted b
    → b.active < lane_ceiling lane b.total b.reserved
    → held others (taken lane b).slots ≤ (b.total - b.reserved) + b.reserved / 2
still_shared maker b i h = omega (arith, i.shared, one_more others maker b.slots)
still_shared signed_create b i h = omega (
  arith,
  i.counted,
  held-split b.slots,
  h,
  one_more others signed_create b.slots,
  (ceiling_bounds signed_create b.total b.reserved i.below).1 refl,
)
still_shared taker b i h = omega (
  arith,
  i.counted,
  held-split b.slots,
  h,
  one_more others taker b.slots,
  (ceiling_bounds taker b.total b.reserved i.below).1 refl,
)

taken-IsAccounted :
    (lane : AdmissionLane) (b : InflightWriteBound)
    → IsAccounted b
    → b.active < lane_ceiling lane b.total b.reserved
    → IsAccounted (taken lane b)
taken-IsAccounted lane b i h = record {
  below = i.below;
  counted = omega (arith, i.counted, one_more (λ _. true) lane b.slots);
  within = omega (arith, h, (ceiling_bounds lane b.total b.reserved i.below).0);
  shared = still_shared lane b i h;
}

pub acquire-IsAccounted :
    (lane : AdmissionLane) (b c : InflightWriteBound)
    → IsAccounted b
    → acquire lane b ≡ some c
    → IsAccounted c
acquire-IsAccounted lane b c i h =
    let (w, e) = acquire_parts lane b c h in rw e (taken-IsAccounted lane b i w)

pub release-IsAccounted :
    (i : ℕ) (b : InflightWriteBound) → IsAccounted b → IsAccounted (release i b)
unfolding release
release-IsAccounted i b a = record {
  below = ground arith;
  counted = ground (arith, return_slot_all i b.slots);
  within = ground (arith);
  shared = ground (arith, return_slot-held others i b.slots);
}
