-- ===== src/Server/Admission.antt =====
-- The admission of writes (server/src/admission.ts). A closure that returns a slot is the position
-- of the slot; its `released` flag is kept there, with the lane that took it, which the source does
-- not read again.
pub mod Accounts
pub mod Headroom
pub mod Lane
use quanta_swap.Prelude.{
  on_option, ℕ, zero, suc, ◌+◌, ◌-◌, ◌/◌, ◌^◌, Bool, true, false, not, ◌&&◌, ◌||◌, Option, none,
  some, List, [], ◌∷◌, ◌++◌, ltb, leb, ◌==◌, if◌then◌else◌, Text, codes, text_eq, length,
}

pub data AdmissionLane : Type 0 where
  maker signed_create taker : AdmissionLane

abbrev pub signed_create_path : Text
signed_create_path = codes "/api/orders/signed"

-- `path.startsWith(prefix)`, with the rest of the path.
unfoldable pub strip_prefix : Text → Text → Option Text
strip_prefix [] path = some path
strip_prefix (p ∷ prefix) [] = none
strip_prefix (p ∷ prefix) (c ∷ path) =
    let rest = strip_prefix prefix path in if p == c then rest else none

-- The text before the first slash and the text after it.
unfoldable pub split_slash : Text → Option (Text × Text)
split_slash [] = none
split_slash (c ∷ path) =
    let rest = split_slash path in
    if c == b'/'
    then some ([], path)
    else on_option rest none (λ (parts : Text × Text). some (c ∷ parts.0, parts.1))

unfoldable pub is_maker_action : Text → Bool
unfolding text_eq
is_maker_action action =
    text_eq action (codes "cancel")
    || (text_eq action (codes "cancel/signed")
        || (text_eq action (codes "fill") || text_eq action (codes "hashlock")))

-- `MAKER_ORDER_PATH_RE.exec(path)`: the order's id.
unfoldable pub maker_order_id : Text → Option Text
unfolding strip_prefix split_slash is_maker_action
maker_order_id path = on_option (strip_prefix (codes "/api/orders/") path) none (λ rest.
    on_option (split_slash rest) none (λ (parts : Text × Text).
      if not (length parts.0 == 0) && is_maker_action parts.1 then some parts.0 else none))

-- A `makerToken` that is no text is missing.
unfoldable pub admission_lane : Text → Option Text → (Text → Text → Bool) → AdmissionLane
unfolding maker_order_id text_eq
admission_lane path maker_token matches_capability =
    if text_eq path signed_create_path
    then signed_create
    else on_option (maker_order_id path) taker (λ id.
      on_option maker_token taker (λ token. if matches_capability id token then maker else taker))

unfoldable pub lane_ceiling : AdmissionLane → ℕ → ℕ → ℕ
lane_ceiling maker total reserved = total
lane_ceiling signed_create total reserved = (total - reserved) + reserved / 2
lane_ceiling taker total reserved = total - reserved

pub record Slot : Type 0 where
  pub lane : AdmissionLane
  pub released : Bool

pub record InflightWriteBound : Type 0 where
  pub total : ℕ
  pub reserved : ℕ
  pub active : ℕ
  pub slots : List Slot

-- The constructor, which throws on a bound that is not a positive safe integer and on a reservation
-- that is not below it.
unfoldable pub new_bound : ℕ → ℕ → Option InflightWriteBound
new_bound total reserved =
    if ltb total 1 || leb (2 ^ 53) total
    then none
    else if leb total reserved
    then none
    else some (record { total = total; reserved = reserved; active = 0; slots = [] })

-- The slot that is taken stands at position `length slots`.
unfoldable pub acquire : AdmissionLane → InflightWriteBound → Option InflightWriteBound
unfolding lane_ceiling
acquire lane bound =
    if leb (lane_ceiling lane bound.total bound.reserved) bound.active
    then none
    else some (record bound {
      active = bound.active + 1;
      slots = bound.slots ++ (record { lane = lane; released = false } ∷ []);
    })

-- The slots after the closure of slot `i` ran, and whether it returned one.
unfoldable pub return_slot : ℕ → List Slot → List Slot × Bool
return_slot i [] = ([], false)
return_slot zero (slot ∷ slots) =
    if slot.released then (slot ∷ slots, false) else (record slot { released = true } ∷ slots, true)
return_slot (suc i) (slot ∷ slots) = let rest = return_slot i slots in (slot ∷ rest.0, rest.1)

unfoldable pub release : ℕ → InflightWriteBound → InflightWriteBound
unfolding return_slot
release i bound =
    let after = return_slot i bound.slots in
    if after.1 then record bound { active = bound.active - 1; slots = after.0 } else bound
