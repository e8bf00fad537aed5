-- ===== src/Server/Admission/Headroom.antt =====
-- Any sequence of requests to the admission bound (server/src/admission.ts): takers cannot use the
-- makers' share, and a slot is returned once.
use quanta_swap.Prelude.{
  ℕ, zero, suc, ◌+◌, ◌-◌, ◌/◌, ◌<◌, ◌≡◌, refl, ap, sym, ◌∙◌, Bool, true, false, some, List, [], ◌∷◌,
  arith, or_else, Option-cases, inl, inr, Bool-cases, if_true, if_false,
}
use quanta_swap.Server.Admission.{
  AdmissionLane, maker, Slot, InflightWriteBound, lane_ceiling, new_bound, acquire, return_slot,
  release,
}
use quanta_swap.Server.Admission.Accounts.{
  is_maker, held, held-split, IsAccounted, taken, new_bound-IsAccounted, acquire-IsAccounted,
  release-IsAccounted,
}

-- A request takes a slot for its lane, or the closure of a slot is run.
pub data Admits : Type 0 where
  takes : AdmissionLane → Admits
  returns : ℕ → Admits

-- A request that is refused leaves the bound as it was.
unfoldable pub run : List Admits → InflightWriteBound → InflightWriteBound
unfolding acquire release
run [] b = b
run (takes lane ∷ ops) b = run ops (or_else (acquire lane b) b)
run (returns i ∷ ops) b = run ops (release i b)

steps-IsAccounted :
    (ops : List Admits) (b : InflightWriteBound) → IsAccounted b → IsAccounted (run ops b)
unfolding run
steps-IsAccounted [] b i = i
steps-IsAccounted (takes lane ∷ ops) b i = elim (Option-cases (acquire lane b)) [
  | inl e ↦ rw e (steps-IsAccounted ops b i)
  | inr (c, e) ↦ rw e (steps-IsAccounted ops c (acquire-IsAccounted lane b c i e))
]
steps-IsAccounted (returns k ∷ ops) b i =
    steps-IsAccounted ops (release k b) (release-IsAccounted k b i)

-- After any sequence of requests and returns, a slot returned twice or never taken included, the
-- count of a bound is the number of its held slots and does not exceed the total, and the lanes
-- other than the makers' hold at most the total less the reservation plus half of it.
pub run-IsAccounted :
    (total reserved : ℕ) (b : InflightWriteBound) (ops : List Admits)
    → new_bound total reserved ≡ some b
    → IsAccounted (run ops b)
run-IsAccounted total reserved b ops h =
    steps-IsAccounted ops b (new_bound-IsAccounted total reserved b h)

acquires :
    (lane : AdmissionLane) (b : InflightWriteBound)
    → b.active < lane_ceiling lane b.total b.reserved
    → acquire lane b ≡ some (taken lane b)
unfolding acquire
acquires lane b h = ground arith

maker_ceiling : (total reserved : ℕ) → lane_ceiling maker total reserved ≡ total
unfolding lane_ceiling
maker_ceiling total reserved = refl

-- In a bound whose slots are accounted for, a maker's write is admitted as long as the makers hold
-- fewer slots than the reservation less half of it, however many slots the other lanes hold.
pub maker_headroom :
    (b : InflightWriteBound)
    → IsAccounted b
    → held is_maker b.slots + b.reserved / 2 < b.reserved
    → (c : InflightWriteBound) × (acquire maker b ≡ some c)
maker_headroom b i h = (
  taken maker b,
  acquires maker b (
      omega (
        arith,
        i.counted,
        held-split b.slots,
        i.shared,
        i.below,
        h,
        maker_ceiling b.total b.reserved,
      )),
)

returned_once :
    (i : ℕ) (slots : List Slot)
    → return_slot i (return_slot i slots).0 ≡ ((return_slot i slots).0, false)
unfolding return_slot
returned_once i [] = refl
returned_once zero (x ∷ xs) = ground arith
returned_once (suc i) (x ∷ xs) = ap (λ (r : List Slot × Bool). (x ∷ r.0, r.1)) (returned_once i xs)

release_misses :
    (i : ℕ) (b : InflightWriteBound) → (return_slot i b.slots).1 ≡ false → release i b ≡ b
unfolding release
release_misses i b h = if_false _ _ _ h

release_hits :
    (i : ℕ) (b : InflightWriteBound)
    → (return_slot i b.slots).1 ≡ true
    → release i b ≡ record b { active = b.active - 1; slots = (return_slot i b.slots).0 }
unfolding release
release_hits i b h = if_true _ _ _ h

-- To return a slot twice is to return it once.
pub release_idempotent : (i : ℕ) (b : InflightWriteBound) → release i (release i b) ≡ release i b
release_idempotent i b = elim (Bool-cases (return_slot i b.slots).1) [
  | inl h ↦
      let hit = release_hits i b h in
      let again =
        release_misses i (record b { active = b.active - 1; slots = (return_slot i b.slots).0 })
          (ap (λ (r : List Slot × Bool). r.1) (returned_once i b.slots)) in
      ap (release i) hit ∙ again ∙ sym hit
  | inr h ↦ ap (release i) (release_misses i b h)
]
