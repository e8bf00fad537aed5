-- ===== src/Server/Proposals.antt =====
-- The signed proposals of takers in the order book's store (`submitFillIntent`, `shedFillIntent` and
-- `storeFillIntent` of server/src/store.ts). The check of a proposal's signature is a parameter. A
-- proposal of an order is known by its nonce, which no other one of the order has.
pub mod Room
pub mod Admitted
pub mod Shed
use Prim.Native.Nat.{Ordering, compare}
use quanta_swap.Prelude.{
  ℕ, ◌+◌, Bool, true, false, not, ◌&&◌, ◌||◌, Option, none, some, List, [], ◌∷◌, ◌++◌, Text,
  text_eq, ltb, leb, ◌==◌, if◌then◌else◌, is_null, or_else, on_option, filter_by, length, sort_by,
}
use quanta_swap.Server.Wire.{
  Json, ApiError, order_not_found, legacy_order, not_open, short_runway, nonce_conflict,
  already_pending, from_future, too_many_pending, requests_in_progress, daily_intents,
  too_many_retained, Checked,
}
use quanta_swap.Server.Store.{
  StoredFillIntent, Order, OrderStore, is_open, take_window, has_runway, sweep,
  prune_intent_admissions,
}
use quanta_swap.Server.Tokens.{Hashes, share_authorized}
use quanta_swap.Server.Takes.{
  Answer, refused, proposed, require, check, with_order, save, uses_portable_terminal_protocol,
  max_concurrent_takes_per_ip, max_takes_per_ip_per_day,
}
use quanta_swap.Server.Takes.Match.{first, then_by}

-- What `verifyFillIntentV1` says of a proposal.
pub record VerifiedFillIntent : Type 0 where
  pub intent_digest : Text
  pub taker_qrl_account : Text
  pub nonce : Text
  pub issued_at : ℕ
  pub expires_at : ℕ
  pub release_commitment : Text

abbrev pub max_fill_intents_per_order : ℕ
max_fill_intents_per_order = 8

abbrev pub max_intent_future_skew : ℕ
max_intent_future_skew = 30

abbrev pub max_admission_sources : ℕ
max_admission_sources = 10000

abbrev pub is_live : ℕ → StoredFillIntent → Bool
is_live now intent = ltb now intent.expires_at

abbrev pub flag : Bool → ℕ
flag true = 1
flag false = 0

-- Unreleased before released, earliest expiry first.
unfoldable pub eviction_order : StoredFillIntent → StoredFillIntent → Ordering
eviction_order a b =
    then_by (compare (flag (not (is_null a.released_at))) (flag (not (is_null b.released_at))))
      (compare a.expires_at b.expires_at)

abbrev pub live_intent_count : List StoredFillIntent → ℕ → ℕ
live_intent_count intents now = length (filter_by (is_live now) intents)

-- The live proposals of one source in the whole book.
unfoldable pub source_live_intent_count : Text → ℕ → List Order → ℕ
unfolding text_eq
source_live_intent_count ip now [] = 0
source_live_intent_count ip now (o ∷ os) =
    length (
      filter_by (λ (i : StoredFillIntent). text_eq i.acceptor_ip_hash ip && is_live now i)
        (or_else o.fill_intents []))
    + source_live_intent_count ip now os

-- `this.intentAdmissions.get(ipHash)`
unfoldable pub admissions_of : Text → List (Text × List ℕ) → Option (List ℕ)
unfolding text_eq
admissions_of ip [] = none
admissions_of ip (e ∷ es) =
    let rest = admissions_of ip es in if text_eq ip e.0 then some e.1 else rest

-- The entry of the source is set in place, or removed.
unfoldable pub set_admissions : Text → Option (List ℕ) → List (Text × List ℕ) → List (Text × List ℕ)
unfolding text_eq
set_admissions ip times [] = []
set_admissions ip times (e ∷ es) =
    let rest = set_admissions ip times es in
    if text_eq ip e.0 then on_option times es (λ ts. (ip, ts) ∷ es) else e ∷ rest

-- The admissions of the source inside the window; the log is pruned on the way.
unfoldable pub recent_intent_admissions : Text → ℕ → OrderStore → OrderStore × List ℕ
unfolding admissions_of set_admissions
recent_intent_admissions ip now s =
    let recent =
      filter_by (λ at. ltb now (at + take_window))
        (or_else (admissions_of ip s.intent_admissions) []) in
    let kept = if length recent == 0 then none else some recent in
    (record s { intent_admissions = set_admissions ip kept s.intent_admissions }, recent)

-- `this.intentAdmissions.delete(this.intentAdmissions.keys().next().value)`
abbrev pub drop_oldest : List (Text × List ℕ) → List (Text × List ℕ)
drop_oldest [] = []
drop_oldest (_ ∷ es) = es

-- A source that is not in the log yet.
unfoldable pub record_source : Text → ℕ → OrderStore → OrderStore
unfolding prune_intent_admissions
record_source ip at s =
    let pruned =
      if leb max_admission_sources (length s.intent_admissions)
      then prune_intent_admissions at (record s { admissions_pruned_at = 0 })
      else s in
    let log = pruned.intent_admissions in
    let left = if leb max_admission_sources (length log) then drop_oldest log else log in
    record pruned { intent_admissions = left ++ (ip, at ∷ []) ∷ [] }

unfoldable pub record_intent_admission : Text → ℕ → OrderStore → OrderStore
unfolding admissions_of set_admissions record_source
record_intent_admission ip at s =
    on_option (admissions_of ip s.intent_admissions) (record_source ip at s) (λ times. record s {
      intent_admissions = set_admissions ip (some (times ++ at ∷ [])) s.intent_admissions;
    })

unfoldable pub find_intent : Text → List StoredFillIntent → Option StoredFillIntent
unfolding text_eq
find_intent digest [] = none
find_intent digest (i ∷ is) =
    let rest = find_intent digest is in if text_eq i.intent_digest digest then some i else rest

unfoldable pub has_nonce : Text → List StoredFillIntent → Bool
unfolding text_eq
has_nonce nonce [] = false
has_nonce nonce (i ∷ is) = text_eq i.nonce nonce || has_nonce nonce is

-- A live proposal of the same account that was not released.
unfoldable pub has_pending : Text → ℕ → List StoredFillIntent → Bool
unfolding text_eq
has_pending account now [] = false
has_pending account now (i ∷ is) =
    (is_null i.released_at && (is_live now i && text_eq i.taker_qrl_account account))
    || has_pending account now is

-- `intents.splice(intents.indexOf(candidate), 1)`
unfoldable pub remove_intent : StoredFillIntent → List StoredFillIntent → List StoredFillIntent
unfolding text_eq
remove_intent candidate [] = []
remove_intent candidate (i ∷ is) =
    let rest = remove_intent candidate is in
    if text_eq i.nonce candidate.nonce then is else i ∷ rest

-- The proposals that may be evicted for a new one, and the first of them.
abbrev pub is_evictable : ℕ → VerifiedFillIntent → StoredFillIntent → Bool
is_evictable now v i =
    not (is_live now i) && (ltb now v.expires_at || ltb i.expires_at v.expires_at)

unfoldable pub candidate_for :
    ℕ → VerifiedFillIntent → List StoredFillIntent → Option StoredFillIntent
unfolding eviction_order sort_by
candidate_for now v intents =
    first (sort_by eviction_order (filter_by (is_evictable now v) intents))

-- The proposals after an eviction, if one is needed; `none` is that there is no candidate.
unfoldable pub make_room :
    ℕ → VerifiedFillIntent → List StoredFillIntent → Option (List StoredFillIntent)
unfolding candidate_for remove_intent
make_room now v intents =
    if leb max_fill_intents_per_order (length intents)
    then on_option (candidate_for now v intents) none (λ c. some (remove_intent c intents))
    else some intents

module _ (now : ℕ) (mine : Text) (federated : Bool) (v : VerifiedFillIntent) where
  abbrev pub stored_intent : StoredFillIntent
  stored_intent = record {
    intent_digest = v.intent_digest;
    taker_qrl_account = v.taker_qrl_account;
    nonce = v.nonce;
    issued_at = v.issued_at;
    expires_at = v.expires_at;
    received_at = now;
    acceptor_ip_hash = mine;
    release_commitment = v.release_commitment;
    released_at = none;
    release_secret = none;
  }

  abbrev pub proposed_order : Order → List StoredFillIntent → Order
  proposed_order order room = record order {
    fill_intents = some (room ++ stored_intent ∷ []);
    updated_at = now;
  }

  -- From the eviction to the end of `storeFillIntent`.
  unfoldable pub admit : Order → OrderStore → Answer
  unfolding make_room record_intent_admission save
  admit order s =
      on_option (make_room now v (or_else order.fill_intents [])) (s, refused too_many_retained)
        (λ room.
          let t = if federated then s else record_intent_admission mine now s in
          (save (proposed_order order room) t, proposed stored_intent))

  -- The tests that only a direct proposal has to pass.
  unfoldable pub admit_direct : Order → OrderStore → Answer
  unfolding has_pending source_live_intent_count recent_intent_admissions admit
  admit_direct order s =
      let recent = recent_intent_admissions mine now s in
      require (not (has_pending v.taker_qrl_account now (or_else order.fill_intents [])))
        already_pending s
        (require (ltb (source_live_intent_count mine now s.orders) max_concurrent_takes_per_ip)
          requests_in_progress s
          (require (ltb (length recent.1) max_takes_per_ip_per_day) daily_intents recent.0
            (admit order recent.0)))

  unfoldable pub store_fill_intent : Order → OrderStore → Answer
  unfolding find_intent has_nonce admit admit_direct
  store_fill_intent order s =
      let intents = or_else order.fill_intents [] in
      let fresh = require (not (has_nonce v.nonce intents)) nonce_conflict s (
        require
          (not (
            ltb now v.expires_at && leb max_fill_intents_per_order (live_intent_count intents now)))
          too_many_pending s (if federated then admit order s else admit_direct order s)) in
      on_option (find_intent v.intent_digest intents) fresh (λ i. (s, proposed i))

-- What `shedFillIntent` throws, and the store that it leaves.
unfoldable pub shed_fill_intent :
    ℕ → Text → Option Text → Order → OrderStore → OrderStore × Option ApiError
unfolding has_nonce has_runway source_live_intent_count recent_intent_admissions
shed_fill_intent now mine claimed order s =
    let intents = or_else order.fill_intents [] in
    let recent = recent_intent_admissions mine now s in
    if on_option claimed false (λ nonce. has_nonce nonce intents)
    then (s, none)
    else if not (is_open order.status) || order.equivocated
    then (s, some not_open)
    else if not (has_runway order now)
    then (s, some short_runway)
    else if leb max_fill_intents_per_order (live_intent_count intents now)
    then (s, some too_many_pending)
    else if leb max_concurrent_takes_per_ip (source_live_intent_count mine now s.orders)
    then (s, some requests_in_progress)
    else if leb max_takes_per_ip_per_day (length recent.1)
    then (recent.0, some daily_intents)
    else (recent.0, none)

-- What follows the check of the signature in `submitFillIntent`.
unfoldable pub submit_verified : ℕ → Text → Order → VerifiedFillIntent → OrderStore → Answer
unfolding find_intent has_runway store_fill_intent
submit_verified now mine order v s =
    let fresh = require (is_open order.status && not order.equivocated) not_open s (
      require (leb v.issued_at (now + max_intent_future_skew)) from_future s (
        require (has_runway order now) short_runway s
          (store_fill_intent now mine false v order s))) in
    on_option (find_intent v.intent_digest (or_else order.fill_intents [])) fresh
      (λ i. (s, proposed i))

module _ (hashes : Hashes) (verify : Order → Checked VerifiedFillIntent) where
  -- `claimed` is the nonce in the body's `auth`, if it is a string.
  unfoldable pub submit_fill_intent : ℕ → Text → Option Text → Json → Text → OrderStore → Answer
  unfolding sweep share_authorized shed_fill_intent submit_verified
  submit_fill_intent now ip claimed share id s =
      let mine = hashes.sha256_hex ip in
      let t = sweep now s in
      with_order id t (λ order.
        let shed = shed_fill_intent now mine claimed order t in
        require (order.is_public || share_authorized hashes order share) order_not_found t (
          require (not (is_null order.maker_auth)) legacy_order t (
            require (uses_portable_terminal_protocol order) legacy_order t (
              on_option shed.1
                (check (verify order) shed.0 (λ v. submit_verified now mine order v shed.0))
                (λ e. (shed.0, refused e))))))
