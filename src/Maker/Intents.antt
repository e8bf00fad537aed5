-- ===== src/Maker/Intents.antt =====
-- The maker's choice among fill intents (`intentPriority` and `earliestValidFillIntent` of
-- marketmaker/src/policy.ts). The signature check and the locale's order of texts are not the
-- program's: they enter as functions.
pub mod Choice
use Prim.Native.Nat.{compare, Ordering}
use quanta_swap.Prelude.{
  ℕ, ◌≤◌, ◌<◌, max, Bool, true, false, ◌&&◌, ◌||◌, not, Option, none, some, List, [], ◌∷◌, ltb, leb,
  if◌then◌else◌, Text, text_eq, filter_by, sort_by,
}
use quanta_swap.Maker.Order.{SelectedFillIntent}

unfoldable pub intent_priority : SelectedFillIntent → ℕ
intent_priority intent = max intent.auth.issued_at intent.received_at

-- `a || b` on the results of comparisons.
abbrev pub or_compare : Ordering → Ordering → Ordering
or_compare Ordering.lt next = Ordering.lt
or_compare Ordering.eq next = next
or_compare Ordering.gt next = Ordering.gt

-- `valid[0] ?? null`
abbrev pub first {ℓ} : {A : Type ℓ} → List A → Option A
first [] = none
first (x ∷ _) = some x

unfoldable pub is_valid_intent : Text → ℕ → (SelectedFillIntent → Bool) → SelectedFillIntent → Bool
is_valid_intent order_digest now verify candidate =
    text_eq candidate.intent.order_digest order_digest
    && (leb candidate.auth.issued_at now && (ltb now candidate.auth.expires_at && verify candidate))

module _ (locale_compare : Text → Text → Ordering) where
  unfoldable pub compare_intents : SelectedFillIntent → SelectedFillIntent → Ordering
  unfolding intent_priority
  compare_intents a b = or_compare (compare (intent_priority a) (intent_priority b)) (
      or_compare (compare a.auth.issued_at b.auth.issued_at)
        (locale_compare a.intent_digest b.intent_digest))

  unfoldable pub earliest_valid_fill_intent :
      List SelectedFillIntent → Text → ℕ → (SelectedFillIntent → Bool) → Option SelectedFillIntent
  unfolding is_valid_intent sort_by compare_intents
  earliest_valid_fill_intent intents order_digest now verify =
      first (sort_by compare_intents (filter_by (is_valid_intent order_digest now verify) intents))
