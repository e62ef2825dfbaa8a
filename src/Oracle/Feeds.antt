-- ===== src/Oracle/Feeds.antt =====
-- What a submitted price does to the feeds.
use materios_intent_settleme.Common.{
  ℕ, ◌+◌, ◌≤◌, ◌≡◌, ◌≢◌, refl, ◌⊎◌, inl, inr, true, false, some, List, [], ◌∷◌, ◌++◌, put, put₂, ok,
  arith, leb, contains, length, take, Bool-cases,
}
use materios_intent_settleme.Oracle.Median.{median}
use materios_intent_settleme.Oracle.{
  Runtime, State, PriceObservation, PriceFeed, submit_price, submit_price_payload, check_submission,
  is_newer, push_observation, cross_threshold, aggregate, new_feed, observed, pubkeys,
  max_attestors_per_pair,
}

-- An observation that the guards let through.
pub record IsAccepted (rt : Runtime) (who pair_id price decimals slot pubkey sig : ℕ) (s : State)
    : Type 0 where
  pub own_key : rt.pubkey_of who ≡ pubkey
  pub on_roster : contains (s.attestors pair_id) pubkey ≡ true
  pub valid : rt.verify pubkey sig (submit_price_payload rt pair_id price decimals slot) ≡ true
  pub first : s.attestor_submitted pair_id slot pubkey ≡ false
  pub not_stale : s.block_number ≤ slot + rt.max_stale_slots
  pub not_ahead : slot ≤ s.block_number + rt.max_future_slots
  pub newer : is_newer slot (s.prices pair_id) ≡ true

abbrev pub grown : ℕ → ℕ → ℕ → ℕ → ℕ → State → List PriceObservation
grown pair_id slot price pubkey sig s =
    s.pending_attestations pair_id slot ++ record { pubkey = pubkey; price = price; sig = sig } ∷ []

-- The price of the pair becomes the median of the slot's observations.
pub record IsUpdate (rt : Runtime) (pair_id decimals slot : ℕ) (bundle : List PriceObservation)
    (s s' : State) : Type 0 where
  pub enough : rt.min_attestor_threshold ≤ length bundle
  pub feed : PriceFeed
  pub stored : s'.prices ≡ put s.prices pair_id (some feed)
  pub price : feed.last_price ≡ median (observed bundle)
  pub decimals_kept : feed.last_decimals ≡ decimals
  pub at_slot : feed.last_update_slot ≡ slot
  pub at_block : feed.last_update_block ≡ s.block_number
  pub signers : feed.attestor_set ≡ take max_attestors_per_pair (pubkeys bundle)
  pub cleared : s'.pending_attestations pair_id slot ≡ []

check_submission-IsAccepted :
    (rt : Runtime) (who pair_id price decimals slot pubkey sig : ℕ) (s : State)
    → check_submission rt who pair_id price decimals slot pubkey sig s ≡ ok tt
    → IsAccepted rt who pair_id price decimals slot pubkey sig s
unfolding check_submission
check_submission-IsAccepted rt who pair_id price decimals slot pubkey sig s h = record {
  own_key = ground arith;
  on_roster = ground arith;
  valid = ground arith;
  first = ground arith;
  not_stale = ground arith;
  not_ahead = ground arith;
  newer = ground arith;
}

abbrev pub IsFeedStep : Runtime → ℕ → ℕ → ℕ → List PriceObservation → State → State → Type 0
IsFeedStep rt pair_id decimals slot bundle s s' =
    IsUpdate rt pair_id decimals slot bundle s s'
    ⊎ ((length bundle + 1 ≤ rt.min_attestor_threshold)
        × (s'.prices ≡ s.prices)
        × (s'.pending_attestations ≡ put₂ s.pending_attestations pair_id slot bundle))

pushed-IsFeedStep :
    (rt : Runtime) (pair_id decimals slot : ℕ) (o : PriceObservation) (s : State)
    → IsFeedStep rt pair_id decimals slot (s.pending_attestations pair_id slot ++ o ∷ []) s (
        cross_threshold rt pair_id slot decimals o.pubkey
          (push_observation pair_id slot decimals o s))
unfolding cross_threshold push_observation aggregate new_feed
pushed-IsFeedStep rt pair_id decimals slot o s =
    let bundle = s.pending_attestations pair_id slot ++ o ∷ [] in
    elim (Bool-cases (leb rt.min_attestor_threshold (length bundle))) [
      | inl enough ↦ inl (record {
        enough = ground arith;
        feed = new_feed slot decimals bundle s;
        stored = ground arith;
        price = refl;
        decimals_kept = refl;
        at_slot = refl;
        at_block = refl;
        signers = refl;
        cleared = ground arith;
      })
      | inr short ↦ inr (ground arith, ground arith, ground arith)
    ]

-- A submission that succeeds carries a valid signature of a key on the pair's roster, by that key's
-- own account and for the first time at that slot, for a slot that is newer than the pair's feed and
-- within the two windows around the block. If the slot's observations with this one reach the
-- threshold, the feed of the pair becomes their median at that slot and the bundle is emptied;
-- otherwise the observation is added and no feed changes.
pub submit_price-IsFeedStep :
    (rt : Runtime) (who pair_id price decimals slot pubkey sig : ℕ) (s s' : State)
    → submit_price rt who pair_id price decimals slot pubkey sig s ≡ ok s'
    → IsAccepted rt who pair_id price decimals slot pubkey sig s
      × IsFeedStep rt pair_id decimals slot (grown pair_id slot price pubkey sig s) s s'
unfolding submit_price
submit_price-IsFeedStep rt who pair_id price decimals slot pubkey sig s s' h =
    let o : PriceObservation = record { pubkey = pubkey; price = price; sig = sig } in
    let result : s'
        ≡ cross_threshold rt pair_id slot decimals pubkey
            (push_observation pair_id slot decimals o s) =
      ground arith in
    (
      check_submission-IsAccepted rt who pair_id price decimals slot pubkey sig s (ground arith),
      rw result (pushed-IsFeedStep rt pair_id decimals slot o s),
    )

-- Feeds only move forward: after a submission that succeeds, the feeds of the other pairs are the
-- same, and the feed of this pair is the same or at a later slot than before, no further ahead of
-- the block than the runtime allows.
pub submit_price_advances :
    (rt : Runtime) (who pair_id price decimals slot pubkey sig : ℕ) (s s' : State)
    → submit_price rt who pair_id price decimals slot pubkey sig s ≡ ok s'
    → ((q : ℕ) → q ≢ pair_id → s'.prices q ≡ s.prices q)
      × ((s'.prices pair_id ≡ s.prices pair_id)
          ⊎ ((feed : PriceFeed) × (s'.prices pair_id ≡ some feed)
              × (is_newer feed.last_update_slot (s.prices pair_id) ≡ true)
              × (feed.last_update_slot ≤ s.block_number + rt.max_future_slots)))
submit_price_advances rt who pair_id price decimals slot pubkey sig s s' h =
    let done = submit_price-IsFeedStep rt who pair_id price decimals slot pubkey sig s s' h in
    elim done.1 [
      | inl u ↦ (
        λ q ne. rw u.stored (ground arith),
        inr (
          u.feed,
          rw u.stored (ground arith),
          rw u.at_slot done.0.newer,
          rw u.at_slot done.0.not_ahead,
        ),
      )
      | inr (short, same, _) ↦ (λ q ne. rw same refl, inl (rw same refl))
    ]
