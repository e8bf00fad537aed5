-- ===== src/Examples/Proposals.antt =====
-- Proposals to an order that holds eight of them.
use quanta_swap.Prelude.{◌≡◌, refl, true, false, some, List, [], ◌∷◌, Text, codes, text_eq, arith}
use quanta_swap.Server.Wire.{too_many_pending}
use quanta_swap.Server.Store.{StoredFillIntent, Order, OrderStore}
use quanta_swap.Server.Takes.{require, proposed}
use quanta_swap.Server.Proposals.{
  VerifiedFillIntent, has_nonce, stored_intent, store_fill_intent, shed_fill_intent,
  submit_verified,
}
use quanta_swap.Server.Proposals.Room.{IsNonceDistinct}
use quanta_swap.Server.Proposals.Admitted.{IsAdmission, store_fill_intent-IsAdmission}
use quanta_swap.Server.Proposals.Shed.{IsRefused, DigestsBind, shed_fill_intent-IsRefused}
use quanta_swap.Examples.Stores.{old_proposal, fresh_order, book}

abbrev proposal : Text → StoredFillIntent
proposal n = record old_proposal { nonce = n; intent_digest = n; expires_at = 1000300 }

-- Seven live proposals after one that has run out.
abbrev seven : List StoredFillIntent
seven =
    proposal (codes "1")
    ∷ proposal (codes "2")
    ∷ proposal (codes "3")
    ∷ proposal (codes "4")
    ∷ proposal (codes "5")
    ∷ proposal (codes "6")
    ∷ proposal (codes "7")
    ∷ []

abbrev full_order : Order
full_order = record fresh_order { fill_intents = some (old_proposal ∷ seven) }

-- Eight live ones.
abbrev crowded_order : Order
crowded_order = record fresh_order { fill_intents = some (proposal (codes "8") ∷ seven) }

abbrev full_book : OrderStore
full_book = record book { orders = full_order ∷ [] }

abbrev newcomer : VerifiedFillIntent
newcomer = record {
  intent_digest = codes "d9";
  taker_qrl_account = codes "Q9";
  nonce = codes "9";
  issued_at = 999990;
  expires_at = 1000400;
  release_commitment = codes "0x";
}

IsNonceDistinct-full_order : IsNonceDistinct (old_proposal ∷ seven)
unfolding has_nonce
IsNonceDistinct-full_order = (refl, (refl, (refl, (refl, (refl, (refl, (refl, (refl, tt))))))))

takes_the_place :
    (store_fill_intent 1000000 (codes "me") false newcomer full_order full_book).1
    ≡ proposed (stored_intent 1000000 (codes "me") false newcomer)
unfolding store_fill_intent require
takes_the_place = refl

store_fill_intent-IsAdmission_example :
    IsAdmission 1000000 true
      (stored_intent 1000000 (codes "me") false newcomer)
      full_order
      full_book
      (store_fill_intent 1000000 (codes "me") false newcomer full_order full_book)
store_fill_intent-IsAdmission_example =
    store_fill_intent-IsAdmission 1000000 (codes "me") false newcomer full_order full_book
      (omega arith) IsNonceDistinct-full_order

sheds_newcomer :
    (shed_fill_intent 1000000 (codes "me") (some (codes "9")) crowded_order full_book).1
    ≡ some too_many_pending
unfolding shed_fill_intent
sheds_newcomer = refl

digests_bind : DigestsBind newcomer (proposal (codes "8") ∷ seven)
unfolding text_eq
digests_bind = (
  λ h. ground (arith, h),
  (
    λ h. ground (arith, h),
    (
      λ h. ground (arith, h),
      (
        λ h. ground (arith, h),
        (
          λ h. ground (arith, h),
          (λ h. ground (arith, h), (λ h. ground (arith, h), (λ h. ground (arith, h), tt))),
        ),
      ),
    ),
  ),
)

shed_fill_intent-IsRefused_example :
    IsRefused (submit_verified 1000000 (codes "me") crowded_order newcomer full_book)
shed_fill_intent-IsRefused_example =
    shed_fill_intent-IsRefused 1000000 (codes "me") crowded_order newcomer full_book
      too_many_pending refl digests_bind sheds_newcomer
