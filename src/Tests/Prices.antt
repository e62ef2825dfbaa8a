-- ===== src/Tests/Prices.antt =====
-- The theorems on the oracle, at two attestors of one pair.
use materios_intent_settleme.Common.{
  Bool-cases, inl, inr, ℕ, ◌+◌, ◌≤◌, ◌≡◌, refl, true, List, [], ◌∷◌, some, none, ok, err, Result,
  arith, sum, ◌==◌, ◌&&◌, if◌then◌else◌,
}
use materios_intent_settleme.Oracle.{
  Runtime, State, Error, submit_price, register_attestor, submit_price_payload,
}
use materios_intent_settleme.Oracle.Median.{median}
use materios_intent_settleme.Oracle.Rank.{IsMiddle}
use materios_intent_settleme.Oracle.Robust.{median-IsMiddle, median_of_majority}
use materios_intent_settleme.Oracle.Bundles.{SlotsInv, submit_price-SlotsInv}
use materios_intent_settleme.Oracle.Feeds.{IsAccepted, IsFeedStep, grown, submit_price-IsFeedStep}

abbrev rt : Runtime
rt = record {
  chain_id = 1;
  min_attestor_threshold = 2;
  max_attestors = 16;
  max_stale_slots = 20;
  max_future_slots = 3;
  pubkey_of = λ a. a;
  verify = λ k sig digest. sig == k + digest;
  blake2_256 = sum;
}

-- Attestor 1 has observed 100 for slot 50.
abbrev start : State
start = record {
  prices = λ p. none;
  attestors = λ p. if p == 0 then 1 ∷ 2 ∷ [] else [];
  pending_attestations =
      λ p slot. if slot == 50 then record { pubkey = 1; price = 100; sig = 0 } ∷ [] else [];
  attestor_submitted = λ p slot k. (slot == 50) && (k == 1);
  bundle_decimals = λ p slot. if slot == 50 then some 6 else none;
  block_number = 52;
  events = [];
}

abbrev signature : ℕ
signature = 2 + submit_price_payload rt 0 104 6 50

abbrev after : Result Error State → State
after (ok s) = s
after (err e) = start

abbrev updated : State
updated = after (submit_price rt 2 0 104 6 50 2 signature start)

submits : submit_price rt 2 0 104 6 50 2 signature start ≡ ok updated
unfolding submit_price submit_price_payload
submits = refl

-- The mean of the two prices.
feed_of_two :
    updated.prices 0
    ≡ some (record {
      last_price = 102;
      last_decimals = 6;
      last_update_slot = 50;
      last_update_block = 52;
      attestor_set = 1 ∷ 2 ∷ [];
    })
unfolding submit_price submit_price_payload median
feed_of_two = refl

submit_price-IsFeedStep_example :
    IsAccepted rt 2 0 104 6 50 2 signature start
    × IsFeedStep rt 0 6 50 (grown 0 50 104 2 signature start) start updated
submit_price-IsFeedStep_example =
    submit_price-IsFeedStep rt 2 0 104 6 50 2 signature start updated submits

abbrev prices : List ℕ
prices = 102 ∷ 5000 ∷ 100 ∷ []

median-IsMiddle_example : IsMiddle (median prices) prices
median-IsMiddle_example = median-IsMiddle prices (omega arith)

median_of_majority_example : (100 ≤ median prices) × (median prices ≤ 102)
median_of_majority_example = median_of_majority prices 100 102 (omega arith)

abbrev registered : State
registered = after (register_attestor rt true 0 9 start)

start-SlotsInv : SlotsInv start
start-SlotsInv = record {
  slots = λ p slot. elim (Bool-cases (slot == 50)) [
    | inl e ↦ rw e (record { distinct = (refl, tt); marked = λ k. ground arith; recorded = refl })
    | inr e ↦ rw e (record { distinct = tt; marked = λ k. ground arith; recorded = refl })
  ];
}

submit_price-SlotsInv_example : SlotsInv updated
submit_price-SlotsInv_example =
    submit_price-SlotsInv rt 2 0 104 6 50 2 signature start updated start-SlotsInv submits
