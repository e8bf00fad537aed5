-- ===== src/Chain.antt =====
-- What both clients read from the two chains: the escrow record of `getSwap` (`SwapStatus` and
-- `LegState` of marketmaker/src/htlc.ts), the legs of a direction and the claim cutoff.
pub mod Spacing
use quanta_swap.Prelude.{
  ℕ, ◌+◌, Bool, true, false, ◌||◌, Option, none, some, ◌++◌, leb, Text, codes, replicate,
}

-- `None` and `Open` of the source are `no_swap` and `opened`.
pub data SwapStatus : Type 0 where
  no_swap opened claimed refunded : SwapStatus

abbrev pub is_no_swap : SwapStatus → Bool
is_no_swap no_swap = true
is_no_swap _ = false

abbrev pub is_opened : SwapStatus → Bool
is_opened opened = true
is_opened _ = false

abbrev pub is_claimed : SwapStatus → Bool
is_claimed claimed = true
is_claimed _ = false

abbrev pub is_refunded : SwapStatus → Bool
is_refunded refunded = true
is_refunded _ = false

pub record LegState : Type 0 where
  pub status : SwapStatus
  pub initiator : Text
  pub recipient : Text
  pub token : Text
  pub amount : ℕ
  pub timeout : ℕ
  pub preimage : Text

pub data LegKey : Type 0 where
  eth_leg qrl_leg : LegKey

pub data Direction : Type 0 where
  eth_to_qrl qrl_to_eth : Direction

unfoldable pub initiator_leg : Direction → LegKey
initiator_leg eth_to_qrl = eth_leg
initiator_leg qrl_to_eth = qrl_leg

unfoldable pub responder_leg : Direction → LegKey
responder_leg eth_to_qrl = qrl_leg
responder_leg qrl_to_eth = eth_leg

-- `s !== null && (s.status === Claimed || s.status === Refunded)`
unfoldable pub terminal : Option LegState → Bool
terminal none = false
terminal (some s) = is_claimed s.status || is_refunded s.status

-- `nowS >= timeout - marginS`: the difference of the two numbers may be negative in the source, so
-- it is compared with the margin moved to the other side. All differences of times are read so.
unfoldable pub claim_cutoff_blocked : ℕ → ℕ → ℕ → Bool
claim_cutoff_blocked timeout now margin = leb timeout (now + margin)

-- `sentAt === null || nowS - sentAt > resendAfterS`
unfoldable pub retry_ok : Option ℕ → ℕ → ℕ → Bool
retry_ok none now resend_after = true
retry_ok (some sent_at) now resend_after = leb (sent_at + resend_after + 1) now

abbrev pub zero_bytes32 : Text
zero_bytes32 = codes "0x" ++ replicate 64 b'0'
