-- ===== src/Tests/Chains.antt =====
-- The theorems on attested settlement and bonds, at the life of one request.
use materios_intent_settleme.Settlement.Threshold.{verify_threshold_signatures}
use materios_intent_settleme.Settlement.Cardano.{cardano_ids}
use materios_intent_settleme.Common.{ℕ, ◌≡◌, ◌≢◌, refl, [], ◌∷◌, ok, some, arith}
use materios_intent_settleme.Settlement.Evidence.{FraudProof}
use materios_intent_settleme.Settlement.Types.{Intent}
use materios_intent_settleme.Settlement.Currency.{Chain}
use materios_intent_settleme.Settlement.Coverage.{CoverageInv}
use materios_intent_settleme.Settlement.Payloads.{
  account_to_bytes, split_type0_address_bytes, voucher_digest, beneficiary_cbor_for, domain_hash,
  canonical_voucher_body, build_type0_address_cbor, compute_fairness_proof_digest,
}
use materios_intent_settleme.Settlement.Payloads.Attested.{
  settlement_request_id, settle_claim_attested_payload, settle_claim_attested_body,
  attest_entry_bytes, slash_bad_settlement_evidence_payload,
}
use materios_intent_settleme.Settlement.Bonds.{request_expired, store_settlement_request}
use materios_intent_settleme.Settlement.Attested.{attest_settle, request_settle}
use materios_intent_settleme.Settlement.Attested.Gate.{
  IsAttestedSettlement, attest_settle-IsAttestedSettlement,
}
use materios_intent_settleme.Settlement.Slash.{
  slash_bad_settlement_evidence, release_settlement_bond,
}
use materios_intent_settleme.Settlement.Solvency.{SolvencyInv}
use materios_intent_settleme.Settlement.Solvency.Slash.{IsSlashed, slash-IsSlashed}
use materios_intent_settleme.Settlement.Solvency.Slashed.{slashed_request_refused}
use materios_intent_settleme.Settlement.Solvency.Release.{
  IsDueBond, IsGivenBack, release_settlement_bond_live,
}
use materios_intent_settleme.Settlement.System.Forward.{Follows}
use materios_intent_settleme.Settlement.System.Finality.{KeepsSettled}
use materios_intent_settleme.Settlement.Pallet.{run_calls, dispatch_call}
use materios_intent_settleme.Settlement.Pallet.Kept.{PalletInv}
use materios_intent_settleme.Settlement.Pallet.Histories.{
  run_calls-PalletInv, run_calls-KeepsSettled, run_calls_keeps_intent,
}
use materios_intent_settleme.Tests.World.{rt}
use materios_intent_settleme.Tests.Ledger.{Ledger, currency}
use materios_intent_settleme.Tests.Bonded.{
  opened, policy_intent, chain, request, request_call, requested, attest_signatures, attest_call,
  attested_chain, slash_signatures, slashed_chain, at_block,
}

opened-CoverageInv : CoverageInv opened
opened-CoverageInv = record {
  ids = 70 ∷ [];
  index = record { distinct = (refl, tt); complete = λ id h. ground arith };
  backed = refl;
  bounded = ground arith;
  paired = λ id. ground arith;
}

chain-PalletInv : PalletInv currency rt chain
chain-PalletInv = record {
  coverage = opened-CoverageInv;
  solvent = record {
    ids = [];
    distinct = tt;
    complete = λ id h. (refl, refl);
    backed = λ a. refl;
    entries = λ id. tt;
  };
}

run_calls-PalletInv_example :
    PalletInv currency rt (run_calls currency rt (request_call ∷ attest_call ∷ []) chain)
run_calls-PalletInv_example =
    run_calls-PalletInv currency rt (request_call ∷ attest_call ∷ []) chain (refl, (refl, tt))
      chain-PalletInv

requested-PalletInv : PalletInv currency rt requested
requested-PalletInv =
    run_calls-PalletInv currency rt (request_call ∷ []) chain (refl, tt) chain-PalletInv

attested-PalletInv : PalletInv currency rt attested_chain
attested-PalletInv =
    run_calls-PalletInv currency rt (attest_call ∷ []) requested (refl, tt) requested-PalletInv

run_calls-KeepsSettled_example :
    KeepsSettled attested_chain.pallet
      (run_calls currency rt (attest_call ∷ request_call ∷ []) attested_chain).pallet
run_calls-KeepsSettled_example =
    run_calls-KeepsSettled currency rt (attest_call ∷ request_call ∷ []) attested_chain
      (refl, (refl, tt)) attested-PalletInv

run_calls_keeps_intent_example :
    (i' : Intent) × ((run_calls currency rt (request_call ∷ attest_call ∷ []) chain).pallet.intents
        40
      ≡ some i')
    × Follows policy_intent i'
run_calls_keeps_intent_example =
    run_calls_keeps_intent currency rt (request_call ∷ attest_call ∷ []) chain 40 policy_intent
      (refl, (refl, tt)) chain-PalletInv refl

attests_requested : attest_settle rt 1 70 attest_signatures requested ≡ ok attested_chain
unfolding run_calls dispatch_call request_settle attest_settle cardano_ids split_type0_address_bytes
    voucher_digest beneficiary_cbor_for verify_threshold_signatures settle_claim_attested_payload
    domain_hash settle_claim_attested_body attest_entry_bytes canonical_voucher_body
    build_type0_address_cbor compute_fairness_proof_digest
attests_requested = refl

attest_settle-IsAttestedSettlement_example :
    IsAttestedSettlement rt 1 70 attest_signatures requested attested_chain
attest_settle-IsAttestedSettlement_example =
    attest_settle-IsAttestedSettlement rt 1 70 attest_signatures requested attested_chain
      attests_requested

slashes_requested :
    slash_bad_settlement_evidence currency rt 1 70 FraudProof.tx_not_found slash_signatures
      requested
    ≡ ok slashed_chain
unfolding run_calls dispatch_call request_settle slash_bad_settlement_evidence cardano_ids
    split_type0_address_bytes verify_threshold_signatures slash_bad_settlement_evidence_payload
    domain_hash settlement_request_id account_to_bytes
slashes_requested = refl

slash-IsSlashed_example :
    IsSlashed currency rt 1 70 FraudProof.tx_not_found slash_signatures requested slashed_chain
slash-IsSlashed_example =
    slash-IsSlashed currency rt 1 70 FraudProof.tx_not_found slash_signatures requested
      slashed_chain requested-PalletInv.solvent slashes_requested

requested_pending : requested.requests.claim_settlement_requests 70 ≡ some request
unfolding run_calls dispatch_call request_settle cardano_ids split_type0_address_bytes
requested_pending = refl

slashed_request_refused_example :
    store_settlement_request currency rt 70 request slashed_chain ≢ ok slashed_chain
slashed_request_refused_example =
    slashed_request_refused currency rt 1 70 FraudProof.tx_not_found slash_signatures requested
      slashed_chain request request slashed_chain requested-PalletInv.solvent requested_pending
      slashes_requested refl

-- The same storage fifty blocks later.
later-SolvencyInv : (n : ℕ) → SolvencyInv currency rt (at_block n requested)
later-SolvencyInv n =
    let inv = requested-PalletInv.solvent in
    record {
      ids = inv.ids;
      distinct = inv.distinct;
      complete = inv.complete;
      backed = inv.backed;
      entries = inv.entries;
    }

requested_due : IsDueBond currency rt 70 (at_block 60 requested)
unfolding run_calls dispatch_call request_settle request_expired cardano_ids
    split_type0_address_bytes
requested_due = IsDueBond.expired request refl (omega arith) refl

release_settlement_bond_live_example :
    (ch' : Chain Ledger) × (release_settlement_bond currency rt 70 (at_block 60 requested) ≡ ok ch')
    × IsGivenBack currency rt 70 (at_block 60 requested) ch'
release_settlement_bond_live_example =
    release_settlement_bond_live currency rt 70 (at_block 60 requested) (later-SolvencyInv 60)
      requested_due
