-- ===== src/Oracle.antt =====
-- The price oracle (pallets/oracle/src): its data and storage, its two dispatchables and its read
-- calls. Pair ids and keys are the numbers that their 32 bytes spell, signatures the numbers that
-- their 64 bytes spell.
use materios_intent_settleme.Common.{
  ℕ, suc, ◌+◌, ◌-◌, Bool, true, false, List, [], ◌∷◌, ◌++◌, Option, none, some, ◌==◌, leb, ltb, not,
  put, put₂, is_some, contains, ensure, Result, ok, ◌>>=◌, ◌>>◌, length, take, map, as_bytes,
  to_le_bytes, if◌then◌else◌,
}
use Median.{median}
pub mod Median
pub mod Rank
pub mod Roster
pub mod Robust
pub mod Bundles
pub mod Feeds

pub record PriceObservation : Type 0 where
  pub pubkey : ℕ
  pub price : ℕ
  pub sig : ℕ

-- The aggregation method is always the plain median.
pub record PriceFeed : Type 0 where
  pub last_price : ℕ
  pub last_decimals : ℕ
  pub last_update_slot : ℕ
  pub last_update_block : ℕ
  pub attestor_set : List ℕ

pub data Error : Type 0 where
  bad_origin origin_pubkey_mismatch decimals_out_of_range unknown_pair not_attestor : Error
  invalid_signature already_submitted stale_submission future_submission : Error
  decimals_bundle_mismatch bundle_full attestor_already_registered attestor_registry_full : Error

pub data Event : Type 0 where
  -- pair_id, price, decimals, observed_at_slot, attestor_count
  price_updated : ℕ → ℕ → ℕ → ℕ → ℕ → Event
  -- pair_id, slot_observed, attestor, pending_count
  price_attestation_submitted : ℕ → ℕ → ℕ → ℕ → Event
  -- pair_id, pubkey
  attestor_registered : ℕ → ℕ → Event

-- `trait Config` with `IsAttestorFor` and `VerifyAttestorSignature`, and the hash.
pub record Runtime : Type 0 where
  pub chain_id : ℕ
  pub min_attestor_threshold : ℕ
  pub max_attestors : ℕ
  pub max_stale_slots : ℕ
  pub max_future_slots : ℕ
  pub pubkey_of : ℕ → ℕ
  -- public key, signature, message digest
  pub verify : ℕ → ℕ → ℕ → Bool
  pub blake2_256 : List ℕ → ℕ

-- The storage items by pair id, then slot, then key; the events are newest first.
pub record State : Type 0 where
  pub prices : ℕ → Option PriceFeed
  pub attestors : ℕ → List ℕ
  pub pending_attestations : ℕ → ℕ → List PriceObservation
  pub attestor_submitted : ℕ → ℕ → ℕ → Bool
  pub bundle_decimals : ℕ → ℕ → Option ℕ
  pub block_number : ℕ
  pub events : List Event

abbrev pub max_attestors_per_pair : ℕ
max_attestors_per_pair = 16

abbrev pub deposit_event : Event → State → State
deposit_event e s = record s { events = e ∷ s.events }

unfoldable pub submit_price_payload : Runtime → ℕ → ℕ → ℕ → ℕ → ℕ
submit_price_payload rt pair_id price decimals slot_observed = rt.blake2_256 (
    b'P' ∷ b'R' ∷ b'I' ∷ b'C' ∷ []
    ++ (as_bytes 32 rt.chain_id
        ++ (as_bytes 32 pair_id
            ++ (to_le_bytes 8 price ++ (decimals ∷ to_le_bytes 8 slot_observed)))))

abbrev pub pubkeys : List PriceObservation → List ℕ
pubkeys [] = []
pubkeys (o ∷ rest) = o.pubkey ∷ pubkeys rest

abbrev pub observed : List PriceObservation → List ℕ
observed [] = []
observed (o ∷ rest) = o.price ∷ observed rest

-- `slot_observed > feed.last_update_slot`, if there is a feed.
abbrev pub is_newer : ℕ → Option PriceFeed → Bool
is_newer slot none = true
is_newer slot (some feed) = ltb feed.last_update_slot slot

-- `decimals == recorded`, if a value is recorded.
abbrev agrees : ℕ → Option ℕ → Bool
agrees decimals none = true
agrees decimals (some recorded) = decimals == recorded

-- The checks of a submission, in the order of the code.
unfoldable pub check_submission :
    Runtime → ℕ → ℕ → ℕ → ℕ → ℕ → ℕ → ℕ → State → Result Error (Unit {0})
check_submission rt who pair_id price decimals slot pubkey sig s = do
  ensure (rt.pubkey_of who == pubkey) Error.origin_pubkey_mismatch
  ensure (leb decimals 18) Error.decimals_out_of_range
  ensure (not (length (s.attestors pair_id) == 0)) Error.unknown_pair
  ensure (contains (s.attestors pair_id) pubkey) Error.not_attestor
  ensure (rt.verify pubkey sig (submit_price_payload rt pair_id price decimals slot))
      Error.invalid_signature
  ensure (not (s.attestor_submitted pair_id slot pubkey)) Error.already_submitted
  ensure (leb (s.block_number - slot) rt.max_stale_slots) Error.stale_submission
  ensure (leb (slot - s.block_number) rt.max_future_slots) Error.future_submission
  ensure (is_newer slot (s.prices pair_id)) Error.stale_submission
  ensure (agrees decimals (s.bundle_decimals pair_id slot)) Error.decimals_bundle_mismatch

-- The writes of an accepted observation.
unfoldable pub push_observation : ℕ → ℕ → ℕ → PriceObservation → State → State
push_observation pair_id slot decimals o s = record s {
  pending_attestations =
      put₂ s.pending_attestations pair_id slot (s.pending_attestations pair_id slot ++ o ∷ []);
  attestor_submitted =
      put₂ s.attestor_submitted pair_id slot
        (put (s.attestor_submitted pair_id slot) o.pubkey true);
  bundle_decimals =
      if is_some (s.bundle_decimals pair_id slot)
      then s.bundle_decimals
      else put₂ s.bundle_decimals pair_id slot (some decimals);
}

-- `for obs in bundle { AttestorSubmitted::remove(..) }`, at the keys of one pair and slot.
unfoldable pub clear_submitted : List PriceObservation → (ℕ → Bool) → ℕ → Bool
clear_submitted [] submitted = submitted
clear_submitted (o ∷ rest) submitted = clear_submitted rest (put submitted o.pubkey false)

unfoldable pub new_feed : ℕ → ℕ → List PriceObservation → State → PriceFeed
new_feed slot decimals bundle s = record {
  last_price = median (observed bundle);
  last_decimals = decimals;
  last_update_slot = slot;
  last_update_block = s.block_number;
  attestor_set = take max_attestors_per_pair (pubkeys bundle);
}

unfoldable pub aggregate : ℕ → ℕ → ℕ → List PriceObservation → State → State
unfolding clear_submitted new_feed
aggregate pair_id slot decimals bundle s =
    deposit_event
      (Event.price_updated pair_id (median (observed bundle)) decimals slot (length bundle))
      (record s {
        prices = put s.prices pair_id (some (new_feed slot decimals bundle s));
        attestor_submitted =
            put₂ s.attestor_submitted pair_id slot
              (clear_submitted bundle (s.attestor_submitted pair_id slot));
        pending_attestations = put₂ s.pending_attestations pair_id slot [];
        bundle_decimals = put₂ s.bundle_decimals pair_id slot none;
      })

-- The threshold is read after the push.
unfoldable pub cross_threshold : Runtime → ℕ → ℕ → ℕ → ℕ → State → State
unfolding aggregate
cross_threshold rt pair_id slot decimals pubkey s =
    let bundle = s.pending_attestations pair_id slot in
    if leb rt.min_attestor_threshold (length bundle)
    then aggregate pair_id slot decimals bundle s
    else deposit_event (Event.price_attestation_submitted pair_id slot pubkey (length bundle)) s

unfoldable pub submit_price : Runtime → ℕ → ℕ → ℕ → ℕ → ℕ → ℕ → ℕ → State → Result Error State
unfolding check_submission push_observation cross_threshold
submit_price rt who pair_id price decimals slot pubkey sig s = do
  check_submission rt who pair_id price decimals slot pubkey sig s
  ensure (ltb (length (s.pending_attestations pair_id slot)) rt.max_attestors) Error.bundle_full
  let o : PriceObservation = record { pubkey = pubkey; price = price; sig = sig }
  ok (cross_threshold rt pair_id slot decimals pubkey (push_observation pair_id slot decimals o s))

-- `is_root` is the result of `ensure_root`.
unfoldable pub register_attestor : Runtime → Bool → ℕ → ℕ → State → Result Error State
register_attestor rt is_root pair_id pubkey s = do
  ensure is_root Error.bad_origin
  ensure (not (contains (s.attestors pair_id) pubkey)) Error.attestor_already_registered
  ensure (ltb (length (s.attestors pair_id)) rt.max_attestors) Error.attestor_registry_full
  ok (
      deposit_event (Event.attestor_registered pair_id pubkey)
        (record s { attestors = put s.attestors pair_id (s.attestors pair_id ++ pubkey ∷ []) }))

unfoldable pub get_price : ℕ → State → Option (ℕ × ℕ × ℕ)
get_price pair_id s = elim (s.prices pair_id) [
  | none ↦ none
  | some f ↦ some (f.last_price, f.last_decimals, f.last_update_slot)
]

unfoldable pub is_price_fresh : ℕ → ℕ → ℕ → State → Bool
is_price_fresh pair_id current_slot max_age_slots s = elim (s.prices pair_id) [
  | none ↦ false
  | some f ↦ leb (current_slot - f.last_update_slot) max_age_slots
]
