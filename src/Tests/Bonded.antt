-- ===== src/Tests/Bonded.antt =====
-- A chain with an open claim, and the life of a bonded request for it.
use materios_intent_settleme.Common.{
  ℕ, true, false, List, [], ◌∷◌, ◌==◌, if◌then◌else◌, none, some, from_bytes, replicate,
}
use materios_intent_settleme.Settlement.Evidence.{
  SettlementEvidence, SettlementRequestRecord, FraudProof,
}
use materios_intent_settleme.Settlement.Types.{IntentStatus, Intent, Claim, Signature}
use materios_intent_settleme.Settlement.State.{State, Requests}
use materios_intent_settleme.Settlement.Currency.{Chain}
use materios_intent_settleme.Settlement.Payloads.{voucher_digest}
use materios_intent_settleme.Settlement.Payloads.Attested.{
  BatchAttestEntryBytes, settle_claim_attested_payload, slash_bad_settlement_evidence_payload,
}
use materios_intent_settleme.Settlement.Voucher.{claim_of}
use materios_intent_settleme.Settlement.Attested.Gate.{bytes_of}
use materios_intent_settleme.Settlement.Pallet.{PalletCall, run_calls}
use materios_intent_settleme.Tests.World.{rt, start, kind, voucher, or_zero, quorum}
use materios_intent_settleme.Tests.Ledger.{Ledger, currency}

abbrev pub policy_intent : Intent
policy_intent = record {
  submitter = 5;
  nonce = 0;
  kind = kind;
  submitted_block = 1;
  ttl_block = 11;
  status = IntentStatus.vouchered;
}

abbrev pub open_claim : Claim
open_claim = claim_of 40 voucher

-- Claim 70 of intent 40 is open.
abbrev pub opened : State
opened = record start {
  intents = λ id. if id == 40 then some policy_intent else none;
  claims = λ id. if id == 70 then some open_claim else none;
  vouchers = λ id. if id == 70 then some voucher else none;
  pool = record start.pool { outstanding_coverage_ada = 500 };
}

abbrev pub no_requests : Requests
no_requests = record {
  claim_settlement_requests = λ id. none;
  slashed_settlement_requests = λ id request. false;
  bonded_claim_attested_at = λ id. none;
  bonded_claim_requester = λ id. none;
  policy_expire_requests = λ id. none;
}

-- Account 5 has 1000 free.
abbrev pub chain : Chain Ledger
chain = record {
  pallet = opened;
  requests = no_requests;
  ledger = record { free = λ a. if a == 5 then 1000 else 0; reserved = λ a. 0 };
}

abbrev pub evidence : SettlementEvidence
evidence = record {
  cardano_tx_hash = 88;
  observed_at_depth = 20;
  observed_slot = 3;
  beneficiary_addr_hash = from_bytes 0 (replicate 28 7);
  amount_lovelace = 500;
  mainchain_genesis_hash = 5;
}

abbrev pub request : SettlementRequestRecord
request = record {
  requester = 5;
  evidence = evidence;
  settled_direct = true;
  submitted_block = 1;
  bond_amount = 200;
}

abbrev pub request_call : PalletCall
request_call = PalletCall.requests_settle 5 70 88 true evidence 200

abbrev pub requested : Chain Ledger
requested = run_calls currency rt (request_call ∷ []) chain

abbrev pub cardano_digest : ℕ
cardano_digest = or_zero (
    voucher_digest rt
      (record { network_magic = 1; mainchain_genesis_hash = 5; aegis_policy_v1_script_hash = 0 })
      voucher)

abbrev pub signed_bytes : BatchAttestEntryBytes
signed_bytes =
    bytes_of 70 request open_claim
      (record { network_magic = 1; mainchain_genesis_hash = 5; aegis_policy_v1_script_hash = 0 })
      cardano_digest (from_bytes 0 (replicate 28 7))

abbrev pub attest_signatures : List Signature
attest_signatures = quorum (settle_claim_attested_payload rt rt.chain_id signed_bytes)

abbrev pub attest_call : PalletCall
attest_call = PalletCall.attests_settle 1 70 attest_signatures

abbrev pub attested_chain : Chain Ledger
attested_chain = run_calls currency rt (attest_call ∷ []) requested

abbrev pub slash_signatures : List Signature
slash_signatures =
    quorum (slash_bad_settlement_evidence_payload rt rt.chain_id 70 request FraudProof.tx_not_found)

abbrev pub slash_call : PalletCall
slash_call = PalletCall.slashes 1 70 FraudProof.tx_not_found slash_signatures

abbrev pub slashed_chain : Chain Ledger
slashed_chain = run_calls currency rt (slash_call ∷ []) requested

-- The same chain, ten blocks after the attestation.
abbrev pub at_block : ℕ → Chain Ledger → Chain Ledger
at_block n ch = record ch { pallet = record ch.pallet { block_number = n } }
