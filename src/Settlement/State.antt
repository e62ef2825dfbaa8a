-- ===== src/Settlement/State.antt =====
-- The storage of the pallet, and what it takes from outside: the constants of `Config`, the
-- committee, the signature verifier, the hash and the SCALE encoder.
use materios_intent_settleme.Common.{ℕ, Bool, List, ◌∷◌, Option}
use materios_intent_settleme.Settlement.Types.{
  Intent, Claim, Voucher, Signature, PoolUtilizationParams, CardanoIdentity, IntentKind,
  BatchFairnessProof, Event,
}
use materios_intent_settleme.Settlement.Evidence.{
  SettlementEvidence, SettlementRequestRecord, FraudProof, ExpiryRequestRecord,
}

-- `trait Config` with `IsCommitteeMember` and `VerifyCommitteeSignature`, whose implementations the
-- runtime chooses, and the calls of the hash and codec crates.
pub record Runtime : Type 0 where
  pub chain_id : ℕ
  pub settlement_version : ℕ
  pub max_committee : ℕ
  pub max_pending_batches : ℕ
  pub default_intent_ttl : ℕ
  pub default_min_signer_threshold : ℕ
  pub is_member : ℕ → Bool
  pub threshold : ℕ
  pub pubkey_of : ℕ → ℕ
  pub account_of_pubkey : ℕ → Option ℕ
  -- public key, signature, message digest
  pub verify : ℕ → ℕ → ℕ → Bool
  pub blake2_256 : List ℕ → ℕ
  pub encode_account : ℕ → List ℕ
  pub encode_kind : IntentKind → List ℕ
  pub encode_proof : BatchFairnessProof → List ℕ
  pub encode_evidence : SettlementEvidence → List ℕ
  pub encode_fraud_proof : FraudProof → List ℕ
  pub min_finality_depth : ℕ
  pub settlement_request_ttl : ℕ
  pub min_settlement_bond : ℕ
  pub bond_release_delay_blocks : ℕ
  pub slash_watcher_share_bps : ℕ
  -- `SettlementTreasuryPalletId::get().into_account_truncating()`
  pub treasury_account : ℕ
  -- the largest `BalanceOf<T>`
  pub balance_max : ℕ

-- The `#[pallet::storage]` items, the block number of frame_system, and the events of the block,
-- newest first.
pub record State : Type 0 where
  pub intents : ℕ → Option Intent
  pub nonces : ℕ → ℕ
  pub credits : ℕ → ℕ
  pub claims : ℕ → Option Claim
  pub vouchers : ℕ → Option Voucher
  pub pending_attestations : ℕ → List Signature
  pub attestation_sigs : ℕ → Option (List Signature)
  pub expiry_queue : ℕ → List ℕ
  pub processed_deposits : ℕ → ℕ → Bool
  pub intent_ttl : ℕ
  pub pool : PoolUtilizationParams
  pub pending_batches : List ℕ
  pub min_signer_threshold : ℕ
  pub pre_audit_settlement : ℕ → Bool
  pub stca_cutover_block : ℕ
  pub settlement_storage_version : ℕ
  pub policy_expire_cutover_block : ℕ
  pub pre_audit_expiry : ℕ → Bool
  pub cardano_ids : Option CardanoIdentity
  pub block_number : ℕ
  pub events : List Event

abbrev pub deposit_event : Event → State → State
deposit_event e s = record s { events = e ∷ s.events }

-- The storage of the attested calls: the pending requests and what is left of the bonded ones.
pub record Requests : Type 0 where
  pub claim_settlement_requests : ℕ → Option SettlementRequestRecord
  -- claim_id, settlement_request_id
  pub slashed_settlement_requests : ℕ → ℕ → Bool
  pub bonded_claim_attested_at : ℕ → Option ℕ
  -- requester, bond_amount
  pub bonded_claim_requester : ℕ → Option (ℕ × ℕ)
  pub policy_expire_requests : ℕ → Option ExpiryRequestRecord
