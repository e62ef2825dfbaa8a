-- ===== src/Settlement/Attested/Batch.antt =====
-- The attested settlement of a batch of requests under one bundle of signatures
-- (`attest_batch_settle` of pallets/intent-settlement/src/lib.rs).
use materios_intent_settleme.Common.{
  ℕ, Bool, true, false, List, [], ◌∷◌, none, some, ltb, leb, not, put, if◌then◌else◌, ensure, ok_or,
  Result, ok, ◌>>=◌, ◌>>◌, length, map, sat_add, u32_max, u64_max,
}
use materios_intent_settleme.Settlement.Types.{
  Signature, IntentStatus, Claim, CardanoIdentity, Error, Event,
}
use materios_intent_settleme.Settlement.State.{Runtime, State}
use materios_intent_settleme.Settlement.Currency.{Chain, emit}
use materios_intent_settleme.Settlement.Payloads.{voucher_digest}
use materios_intent_settleme.Settlement.Payloads.Attested.{
  BatchAttestEntryBytes, attest_batch_settle_payload,
}
use materios_intent_settleme.Settlement.Cardano.{cardano_ids}
use materios_intent_settleme.Settlement.Threshold.{verify_threshold_signatures}
use materios_intent_settleme.Settlement.Voucher.{remove_from_pending_batches}
use materios_intent_settleme.Settlement.Settle.{
  set_status, settled_claim, pay_from_pool, check_distinct,
}
use materios_intent_settleme.Settlement.Bonds.{request_expired, put_request, put_bonded}
use materios_intent_settleme.Settlement.Attested.{payment_hash, on_pallet}

-- What the first pass keeps of an entry: the `entry_bytes` and the `hydrated_*` at its index.
pub record Hydrated : Type 0 where
  pub bytes : BatchAttestEntryBytes
  pub amount : ℕ
  pub direct : Bool
  pub intent_id : ℕ
  pub bond : ℕ

unfoldable pub hydrate_request :
    {L : Type 0} → Runtime → CardanoIdentity → Chain L → ℕ → Result Error Hydrated
unfolding request_expired
hydrate_request rt cardano ch cid = do
  request ← ok_or (ch.requests.claim_settlement_requests cid) Error.settlement_request_missing
  ensure (not (request_expired rt ch.pallet request.submitted_block))
      Error.settlement_request_expired
  claim ← ok_or (ch.pallet.claims cid) Error.claim_not_found
  ensure (not claim.is_settled) Error.already_settled
  v ← ok_or (ch.pallet.vouchers cid) Error.voucher_missing
  digest ← voucher_digest rt cardano v
  payment ← payment_hash v
  ok (record {
    bytes = record {
      claim_id = cid;
      voucher_digest = digest;
      cardano_tx_hash = request.evidence.cardano_tx_hash;
      settled_direct = request.settled_direct;
      beneficiary_hash = payment;
      amount_ada = claim.amount_ada;
      depth = request.evidence.observed_at_depth;
      slot = request.evidence.observed_slot;
      mc_genesis = cardano.mainchain_genesis_hash;
    };
    amount = claim.amount_ada;
    direct = request.settled_direct;
    intent_id = claim.intent_id;
    bond = request.bond_amount;
  })

-- The first pass.
unfoldable pub hydrate_requests :
    {L : Type 0} → Runtime → CardanoIdentity → Chain L → List ℕ → Result Error (List Hydrated)
hydrate_requests rt cardano ch [] = ok []
hydrate_requests rt cardano ch (cid ∷ rest) =
    let next = hydrate_requests rt cardano ch rest in
    do h ← hydrate_request rt cardano ch cid; tail ← next; ok (h ∷ tail)

-- The writes for one entry, but for the pool's.
unfoldable pub settle_hydrated_claim : Claim → Hydrated → State → State
settle_hydrated_claim claim h s = remove_from_pending_batches h.intent_id (record s {
  claims =
      put s.claims h.bytes.claim_id (some (settled_claim claim h.bytes.cardano_tx_hash h.direct));
  intents = set_status h.intent_id IntentStatus.settled s.intents;
})

-- `BondedClaimRequester` is written where the pending request is still there.
abbrev pub pin_hydrated : {L : Type 0} → Hydrated → Chain L → Chain L
pin_hydrated h ch =
    let cid = h.bytes.claim_id in
    if ltb 0 h.bond
    then elim (ch.requests.claim_settlement_requests cid) [
      | none ↦
          put_bonded cid (some ch.pallet.block_number) (ch.requests.bonded_claim_requester cid) ch
      | some p ↦ put_bonded cid (some ch.pallet.block_number) (some (p.requester, h.bond)) ch
    ]
    else ch

unfoldable pub settle_hydrated_entry : {L : Type 0} → Hydrated → Chain L → Result Error (Chain L)
unfolding settle_hydrated_claim
settle_hydrated_entry h ch = do
  claim ← ok_or (ch.pallet.claims h.bytes.claim_id) Error.claim_not_found
  ensure (not claim.is_settled) Error.already_settled
  ok (
      put_request h.bytes.claim_id none
        (pin_hydrated h (on_pallet (settle_hydrated_claim claim h ch.pallet) ch)))

-- The loop, with the total amount and the count of direct settlements.
unfoldable pub settle_hydrated :
    {L : Type 0} → List Hydrated → ℕ → ℕ → Chain L → Result Error (Chain L × ℕ × ℕ)
unfolding settle_hydrated_entry
settle_hydrated [] total direct ch = ok (ch, total, direct)
settle_hydrated (h ∷ rest) total direct ch = do
  ch' ← settle_hydrated_entry h ch
  settle_hydrated rest (sat_add u64_max total h.amount)
      (if h.direct then sat_add u32_max direct 1 else direct) ch'

abbrev pub no_ids : List ℕ → Bool
no_ids [] = true
no_ids (_ ∷ _) = false

unfoldable pub attest_batch_settle :
    {L : Type 0} → Runtime → ℕ → List ℕ → List Signature → Chain L → Result Error (Chain L)
unfolding check_distinct hydrate_requests settle_hydrated
attest_batch_settle rt who claim_ids signatures ch = do
  ensure (rt.is_member who) Error.not_committee_member
  ensure (leb (length signatures) rt.max_committee) Error.too_many_signatures
  ensure (not (no_ids claim_ids)) Error.empty_batch
  check_distinct claim_ids
  cardano ← cardano_ids ch.pallet
  hydrated ← hydrate_requests rt cardano ch claim_ids
  let payload = attest_batch_settle_payload rt rt.chain_id (map (λ h. h.bytes) hydrated)
  verify_threshold_signatures rt ch.pallet payload who signatures
  looped ← settle_hydrated hydrated 0 0 ch
  ok (
      emit (Event.batch_settled (length claim_ids) payload looped.2)
        (on_pallet (pay_from_pool looped.1 looped.0.pallet) looped.0))
