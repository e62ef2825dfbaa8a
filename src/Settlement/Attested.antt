-- ===== src/Settlement/Attested.antt =====
-- The attested settlement of claims (`checked_settlement_target`, `settle_attested_claim`,
-- `request_settle`, `attest_settle`, `supersede_settlement_request`, `request_batch_settle` of
-- pallets/intent-settlement/src/lib.rs). `who` is the account of the signed origin.
use materios_intent_settleme.Common.{
  ℕ, Bool, false, List, [], ◌∷◌, none, some, ◌&&◌, ◌==◌, ltb, leb, not, put, if◌then◌else◌, ensure,
  ok_or, Result, ok, ◌>>=◌, ◌>>◌, length, from_bytes,
}
use materios_intent_settleme.Settlement.Evidence.{
  SettlementEvidence, SettlementRequestRecord, SettleAttestedBatchEntry, same_evidence, same_mode,
  max_observed_depth,
}
use materios_intent_settleme.Settlement.Types.{
  Signature, IntentStatus, Claim, Voucher, Error, Event,
}
use materios_intent_settleme.Settlement.State.{Runtime, State, deposit_event}
use materios_intent_settleme.Settlement.Currency.{Currency, Chain, emit}
use materios_intent_settleme.Settlement.Payloads.{
  split_type0_address_bytes, map_err, voucher_digest,
}
use materios_intent_settleme.Settlement.Payloads.Attested.{settle_claim_attested_payload}
use materios_intent_settleme.Settlement.Cardano.{cardano_ids}
use materios_intent_settleme.Settlement.Threshold.{verify_threshold_signatures}
use materios_intent_settleme.Settlement.Voucher.{remove_from_pending_batches}
use materios_intent_settleme.Settlement.Settle.{
  set_status, settled_claim, pay_from_pool, check_distinct,
}
use materios_intent_settleme.Settlement.Bonds.{
  request_expired, put_request, put_bonded, discard_settlement_request, store_settlement_request,
}
pub mod Batch
pub mod Gate

-- The first half of `split_type0_address_bytes`, as its number.
abbrev pub payment_hash : Voucher → Result Error ℕ
payment_hash v = do
  hashes ←
      map_err (split_type0_address_bytes v.beneficiary_cardano_addr)
        Error.invalid_beneficiary_address
  ok (from_bytes 0 hashes.0)

unfoldable pub checked_settlement_target :
    Runtime → ℕ → SettlementEvidence → State → Result Error (Claim × Voucher)
checked_settlement_target rt claim_id evidence s = do
  cardano ← cardano_ids s
  ensure (evidence.mainchain_genesis_hash == cardano.mainchain_genesis_hash)
      Error.wrong_mainchain_genesis
  ensure (leb rt.min_finality_depth evidence.observed_at_depth) Error.finality_depth_below_minimum
  ensure (leb evidence.observed_at_depth max_observed_depth) Error.finality_depth_above_maximum
  claim ← ok_or (s.claims claim_id) Error.claim_not_found
  ensure (not claim.is_settled) Error.already_settled
  v ← ok_or (s.vouchers claim_id) Error.voucher_missing
  ensure (evidence.amount_lovelace == v.amount_ada) Error.settlement_evidence_mismatch
  payment ← payment_hash v
  ensure (evidence.beneficiary_addr_hash == payment) Error.settlement_evidence_mismatch
  ok (claim, v)

unfoldable pub settle_attested_claim : ℕ → Claim → ℕ → Bool → State → State
settle_attested_claim claim_id claim cardano_tx_hash settled_direct s =
    deposit_event (Event.claim_settled claim_id cardano_tx_hash settled_direct) (
      pay_from_pool claim.amount_ada (
        remove_from_pending_batches claim.intent_id (record s {
          claims =
              put s.claims claim_id (some (settled_claim claim cardano_tx_hash settled_direct));
          intents = set_status claim.intent_id IntentStatus.settled s.intents;
        })))

abbrev pub empty_entries : List SettleAttestedBatchEntry → Bool
empty_entries [] = Bool.true
empty_entries (_ ∷ _) = false

abbrev pub entry_ids : List SettleAttestedBatchEntry → List ℕ
entry_ids [] = []
entry_ids (e ∷ rest) = e.claim_id ∷ entry_ids rest

-- The record of a bond is kept past the attestation of its claim.
abbrev pub pin_bond : {L : Type 0} → ℕ → SettlementRequestRecord → Chain L → Chain L
pin_bond claim_id request ch =
    if ltb 0 request.bond_amount
    then put_bonded claim_id (some ch.pallet.block_number)
        (some (request.requester, request.bond_amount)) ch
    else ch

abbrev pub on_pallet : {L : Type 0} → State → Chain L → Chain L
on_pallet s ch = record ch { pallet = s }

unfoldable pub attest_settle :
    {L : Type 0} → Runtime → ℕ → ℕ → List Signature → Chain L → Result Error (Chain L)
unfolding request_expired settle_attested_claim
attest_settle rt who claim_id signatures ch = do
  let s = ch.pallet
  ensure (rt.is_member who) Error.not_committee_member
  ensure (leb (length signatures) rt.max_committee) Error.too_many_signatures
  request ← ok_or (ch.requests.claim_settlement_requests claim_id) Error.settlement_request_missing
  ensure (not (request_expired rt s request.submitted_block)) Error.settlement_request_expired
  claim ← ok_or (s.claims claim_id) Error.claim_not_found
  ensure (not claim.is_settled) Error.already_settled
  v ← ok_or (s.vouchers claim_id) Error.voucher_missing
  cardano ← cardano_ids s
  digest ← voucher_digest rt cardano v
  payment ← payment_hash v
  let payload = settle_claim_attested_payload rt rt.chain_id (record {
    claim_id = claim_id;
    voucher_digest = digest;
    cardano_tx_hash = request.evidence.cardano_tx_hash;
    settled_direct = request.settled_direct;
    beneficiary_hash = payment;
    amount_ada = claim.amount_ada;
    depth = request.evidence.observed_at_depth;
    slot = request.evidence.observed_slot;
    mc_genesis = cardano.mainchain_genesis_hash;
  })
  verify_threshold_signatures rt s payload who signatures
  ok (
      put_request claim_id none (
        pin_bond claim_id request (
          on_pallet
            (settle_attested_claim claim_id claim request.evidence.cardano_tx_hash
              request.settled_direct s)
            ch)))

module _ {L : Type 0} (currency : Currency L) (rt : Runtime) where
  unfoldable pub request_settle :
      ℕ → ℕ → ℕ → Bool → SettlementEvidence → ℕ → Chain L → Result Error (Chain L)
  unfolding checked_settlement_target store_settlement_request
  request_settle who claim_id cardano_tx_hash settled_direct evidence bond_amount ch = do
    ensure (evidence.cardano_tx_hash == cardano_tx_hash) Error.settlement_evidence_mismatch
    target ← checked_settlement_target rt claim_id evidence ch.pallet
    stored ←
        store_settlement_request currency rt claim_id
          (record {
            requester = who;
            evidence = evidence;
            settled_direct = settled_direct;
            submitted_block = ch.pallet.block_number;
            bond_amount = bond_amount;
          })
          ch
    ok (emit (Event.settlement_requested claim_id who cardano_tx_hash settled_direct) stored)

  unfoldable pub supersede_settlement_request :
      ℕ → ℕ → Bool → SettlementEvidence → List Signature → Chain L → Result Error (Chain L)
  unfolding checked_settlement_target discard_settlement_request settle_attested_claim
  supersede_settlement_request who claim_id settled_direct evidence signatures ch = do
    let s = ch.pallet
    ensure (rt.is_member who) Error.not_committee_member
    ensure (leb (length signatures) rt.max_committee) Error.too_many_signatures
    target ← checked_settlement_target rt claim_id evidence s
    let claim = target.0
    request ←
        ok_or (ch.requests.claim_settlement_requests claim_id) Error.settlement_request_missing
    ensure
        (not (
          same_evidence request.evidence evidence
          && same_mode request.settled_direct settled_direct))
        Error.supersede_matches_request
    cardano ← cardano_ids s
    digest ← voucher_digest rt cardano target.1
    let payload = settle_claim_attested_payload rt rt.chain_id (record {
      claim_id = claim_id;
      voucher_digest = digest;
      cardano_tx_hash = evidence.cardano_tx_hash;
      settled_direct = settled_direct;
      beneficiary_hash = evidence.beneficiary_addr_hash;
      amount_ada = claim.amount_ada;
      depth = evidence.observed_at_depth;
      slot = evidence.observed_slot;
      mc_genesis = cardano.mainchain_genesis_hash;
    })
    verify_threshold_signatures rt s payload who signatures
    discarded ← discard_settlement_request currency rt claim_id request ch
    let told = emit (Event.settlement_request_superseded claim_id request.requester) discarded
    ok (
        on_pallet
          (settle_attested_claim claim_id claim evidence.cardano_tx_hash settled_direct told.pallet)
          told)

  -- The loop over the entries.
  unfoldable pub request_entries :
      ℕ → ℕ → ℕ → List SettleAttestedBatchEntry → Chain L → Result Error (Chain L)
  unfolding checked_settlement_target store_settlement_request
  request_entries who now bond_amount [] ch = ok ch
  request_entries who now bond_amount (e ∷ rest) ch = do
    target ← checked_settlement_target rt e.claim_id e.evidence ch.pallet
    stored ←
        store_settlement_request currency rt e.claim_id
          (record {
            requester = who;
            evidence = e.evidence;
            settled_direct = e.settled_direct;
            submitted_block = now;
            bond_amount = bond_amount;
          })
          ch
    request_entries who now bond_amount rest stored

  unfoldable pub request_batch_settle :
      ℕ → List SettleAttestedBatchEntry → ℕ → Chain L → Result Error (Chain L)
  unfolding request_entries
  request_batch_settle who entries bond_amount ch = do
    ensure (not (empty_entries entries)) Error.empty_batch
    check_distinct (entry_ids entries)
    requested ← request_entries who ch.pallet.block_number bond_amount entries ch
    ok (emit (Event.batch_settlement_requested (length entries) who) requested)
