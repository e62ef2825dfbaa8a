-- ===== src/Settlement/Payloads/Attested.antt =====
-- The byte strings that the committee signs over the attested calls
-- (`settle_claim_attested_payload`, `expire_policy_attested_payload`, `attest_batch_settle_payload`,
-- `slash_bad_settlement_evidence_payload`, `settlement_request_id` of
-- pallets/intent-settlement/src/lib.rs).
use materios_intent_settleme.Common.{
  ℕ, Bool, List, [], ◌∷◌, ◌++◌, if◌then◌else◌, length, as_bytes, to_le_bytes,
}
use materios_intent_settleme.Settlement.Evidence.{SettlementRequestRecord, FraudProof}
use materios_intent_settleme.Settlement.State.{Runtime}
use materios_intent_settleme.Settlement.Payloads.{Tag, domain_hash, account_to_bytes}

abbrev tag_stca : Tag
tag_stca = b'S' ∷ b'T' ∷ b'C' ∷ b'A' ∷ []

abbrev tag_bsta : Tag
tag_bsta = b'B' ∷ b'S' ∷ b'T' ∷ b'A' ∷ []

abbrev tag_expp : Tag
tag_expp = b'E' ∷ b'X' ∷ b'P' ∷ b'P' ∷ []

abbrev tag_frv2 : Tag
tag_frv2 = b'F' ∷ b'R' ∷ b'V' ∷ b'2' ∷ []

-- One settlement, as its digest commits to it.
pub record BatchAttestEntryBytes : Type 0 where
  pub claim_id : ℕ
  pub voucher_digest : ℕ
  pub cardano_tx_hash : ℕ
  pub settled_direct : Bool
  pub beneficiary_hash : ℕ
  pub amount_ada : ℕ
  pub depth : ℕ
  pub slot : ℕ
  pub mc_genesis : ℕ

unfoldable pub attest_entry_bytes : BatchAttestEntryBytes → List ℕ
attest_entry_bytes e =
    as_bytes 32 e.claim_id
    ++ (as_bytes 32 e.voucher_digest
        ++ (as_bytes 32 e.cardano_tx_hash
            ++ ((if e.settled_direct then 1 else 0)
                ∷ (as_bytes 28 e.beneficiary_hash
                    ++ (to_le_bytes 8 e.amount_ada
                        ++ (to_le_bytes 4 e.depth
                            ++ (to_le_bytes 8 e.slot ++ as_bytes 32 e.mc_genesis)))))))

unfoldable pub settle_claim_attested_body : ℕ → BatchAttestEntryBytes → List ℕ
settle_claim_attested_body chain_id e = as_bytes 32 chain_id ++ attest_entry_bytes e

-- The arguments of the source, after the chain id, are the fields of the record.
unfoldable pub settle_claim_attested_payload : Runtime → ℕ → BatchAttestEntryBytes → ℕ
settle_claim_attested_payload rt chain_id e =
    domain_hash rt tag_stca (settle_claim_attested_body chain_id e)

unfoldable pub expire_policy_attested_body : ℕ → ℕ → ℕ → ℕ → ℕ → ℕ → ℕ → List ℕ
expire_policy_attested_body chain_id intent_id policy_id cardano_tx_hash depth slot mc_genesis =
    as_bytes 32 chain_id
    ++ (as_bytes 32 intent_id
        ++ (as_bytes 32 policy_id
            ++ (as_bytes 32 cardano_tx_hash
                ++ (to_le_bytes 4 depth ++ (to_le_bytes 8 slot ++ as_bytes 32 mc_genesis)))))

unfoldable pub expire_policy_attested_payload : Runtime → ℕ → ℕ → ℕ → ℕ → ℕ → ℕ → ℕ → ℕ
expire_policy_attested_payload rt chain_id intent_id policy_id cardano_tx_hash depth slot
      mc_genesis =
    domain_hash rt tag_expp (
      expire_policy_attested_body chain_id intent_id policy_id cardano_tx_hash depth slot
        mc_genesis)

unfoldable pub attest_entries_bytes : List BatchAttestEntryBytes → List ℕ
attest_entries_bytes [] = []
attest_entries_bytes (e ∷ rest) = attest_entry_bytes e ++ attest_entries_bytes rest

unfoldable pub attest_batch_settle_body : ℕ → List BatchAttestEntryBytes → List ℕ
attest_batch_settle_body chain_id entries =
    as_bytes 32 chain_id ++ (to_le_bytes 4 (length entries) ++ attest_entries_bytes entries)

unfoldable pub attest_batch_settle_payload : Runtime → ℕ → List BatchAttestEntryBytes → ℕ
attest_batch_settle_payload rt chain_id entries =
    domain_hash rt tag_bsta (attest_batch_settle_body chain_id entries)

-- The hash of the SCALE encoding of a tuple, which is the encodings of its parts in order.
unfoldable pub settlement_request_id : Runtime → SettlementRequestRecord → ℕ
settlement_request_id rt request = rt.blake2_256 (
    account_to_bytes rt request.requester
    ++ (to_le_bytes 8 request.submitted_block
        ++ (rt.encode_evidence request.evidence ++ (if request.settled_direct then 1 else 0) ∷ [])))

unfoldable pub slash_bad_settlement_evidence_payload :
    Runtime → ℕ → ℕ → SettlementRequestRecord → FraudProof → ℕ
slash_bad_settlement_evidence_payload rt chain_id claim_id request fraud_proof =
    domain_hash rt tag_frv2 (
      as_bytes 32 chain_id
      ++ (as_bytes 32 claim_id
          ++ (as_bytes 32 (settlement_request_id rt request) ++ rt.encode_fraud_proof fraud_proof)))
