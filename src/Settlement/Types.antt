-- ===== src/Settlement/Types.antt =====
-- The data of the pallet (pallets/intent-settlement/src/types.rs), its errors and events
-- (pallets/intent-settlement/src/lib.rs). Account ids, 32-byte hashes and keys and 28-byte hashes
-- are the numbers that their bytes spell, the first byte highest, so that `<` on numbers is `<` on
-- `as_bytes()`. Integers keep their width in the operations, not in the type.
use materios_intent_settleme.Common.{ℕ, Bool, List}
use materios_intent_settleme.Settlement.Evidence.{FraudProof}

pub data PerpActionKind : Type 0 where
  open_action close_action liquidation leverage_adjust : PerpActionKind

pub data IntentKind : Type 0 where
  -- product_id, strike, term_slots, premium_ada, beneficiary_cardano_addr
  buy_policy : ℕ → ℕ → ℕ → ℕ → List ℕ → IntentKind
  -- policy_id, oracle_evidence
  request_payout : ℕ → List ℕ → IntentKind
  -- amount_ada
  refund_credit : ℕ → IntentKind
  perp_action : PerpActionKind → IntentKind

pub data IntentStatus : Type 0 where
  pending attested vouchered settled expired refunded : IntentStatus

pub data ExpiryReason : Type 0 where
  ttl policy_expired_on_cardano : ExpiryReason

pub record Intent : Type 0 where
  pub submitter : ℕ
  pub nonce : ℕ
  pub kind : IntentKind
  pub submitted_block : ℕ
  pub ttl_block : ℕ
  pub status : IntentStatus

pub record Claim : Type 0 where
  pub intent_id : ℕ
  pub policy_id : ℕ
  pub amount_ada : ℕ
  pub issued_block : ℕ
  pub expiry_slot_cardano : ℕ
  pub is_settled : Bool
  pub settled_direct : Bool
  pub cardano_tx_hash : ℕ

pub record BatchFairnessProof : Type 0 where
  pub block_range_start : ℕ
  pub block_range_end : ℕ
  pub sorted_intent_ids : List ℕ
  pub requested_amounts_ada : List ℕ
  pub pool_balance_ada : ℕ
  pub pro_rata_scale_bps : ℕ
  pub awarded_amounts_ada : List ℕ

-- A public key with its signature.
abbrev pub Signature : Type 0
Signature = ℕ × ℕ

pub record Voucher : Type 0 where
  pub claim_id : ℕ
  pub policy_id : ℕ
  pub beneficiary_cardano_addr : List ℕ
  pub amount_ada : ℕ
  pub batch_fairness_proof_digest : ℕ
  pub issued_block : ℕ
  pub expiry_slot_cardano : ℕ
  pub committee_sigs : List Signature

pub record PoolUtilizationParams : Type 0 where
  pub target_bps : ℕ
  pub cap_bps : ℕ
  pub total_nav_ada : ℕ
  pub outstanding_coverage_ada : ℕ

pub record CardanoIdentity : Type 0 where
  pub network_magic : ℕ
  pub mainchain_genesis_hash : ℕ
  pub aegis_policy_v1_script_hash : ℕ

pub data Error : Type 0 where
  duplicate_intent insufficient_credit not_committee_member duplicate_pubkey : Error
  intent_status_mismatch intent_not_found claim_not_found duplicate_voucher : Error
  invalid_fairness_proof fairness_digest_mismatch pool_utilization_exceeded : Error
  deposit_already_processed unknown_policy too_many_sigs caller_pubkey_mismatch : Error
  coverage_overflow pending_batches_full insufficient_signatures duplicate_signer : Error
  invalid_signature signer_not_committee_member empty_batch duplicate_claim_in_batch : Error
  batch_claim_already_settled invalid_beneficiary_address too_many_signatures : Error
  threshold_above_committee settlement_evidence_mismatch : Error
  finality_depth_below_minimum wrong_mainchain_genesis already_settled deprecated_extrinsic : Error
  voucher_missing intent_not_eligible_for_expiry finality_depth_above_maximum : Error
  cardano_ids_missing aegis_policy_v1_unbound aegis_policy_v1_already_bound bad_origin : Error
  settlement_request_missing settlement_request_expired : Error
  settlement_request_already_exists supersede_matches_request bond_below_minimum : Error
  bond_amount_conversion_overflow bond_slashed_no_release not_requester : Error
  bond_already_reserved request_already_attested bond_not_reserved : Error
  bond_release_too_early fraud_threshold_not_met fraud_proof_invalid : Error
  expiry_evidence_mismatch expiry_request_missing expiry_request_expired : Error
  expiry_request_already_exists empty_attest_batch duplicate_intent_in_batch : Error
  empty_voucher_batch duplicate_claim_in_voucher_batch empty_intent_batch : Error
  submit_batch_premium_overflow : Error
  -- an error of the currency, passed on
  currency_error : Error

pub data Event : Type 0 where
  -- intent_id, submitter, nonce
  intent_submitted : ℕ → ℕ → ℕ → Event
  -- intent_id, attestor_count
  intent_attested : ℕ → ℕ → Event
  -- claim_id, voucher_digest, fairness_proof_digest
  voucher_issued : ℕ → ℕ → ℕ → Event
  -- claim_id, cardano_tx_hash, settled_direct
  claim_settled : ℕ → ℕ → Bool → Event
  intent_expired : ℕ → ExpiryReason → Event
  -- intent_id, submitter, amount_ada
  credit_refund_requested : ℕ → ℕ → ℕ → Event
  -- account, delta_ada, source_cardano_tx
  credits_credited : ℕ → ℕ → ℕ → Event
  -- total_nav_ada, outstanding_coverage_ada
  pool_utilization_updated : ℕ → ℕ → Event
  -- count, batch_digest, settled_direct_count
  batch_settled : ℕ → ℕ → ℕ → Event
  aegis_policy_v1_bound : ℕ → Event
  -- claim_id, requester, cardano_tx_hash, settled_direct
  settlement_requested : ℕ → ℕ → ℕ → Bool → Event
  -- claim_id, requester
  settlement_request_superseded : ℕ → ℕ → Event
  -- count, requester
  batch_settlement_requested : ℕ → ℕ → Event
  -- claim_id, requester, amount
  settlement_bond_posted : ℕ → ℕ → ℕ → Event
  settlement_bond_released : ℕ → ℕ → ℕ → Event
  -- claim_id, requester, missing_amount
  settlement_bond_reserve_deficit : ℕ → ℕ → ℕ → Event
  -- claim_id, requester, watcher, watcher_share, treasury_share, fraud_proof
  settlement_bond_slashed : ℕ → ℕ → ℕ → ℕ → ℕ → FraudProof → Event
  -- intent_id, requester, cardano_tx_hash, policy_id_witness
  expiry_requested : ℕ → ℕ → ℕ → ℕ → Event
  -- submitted_count, attested_count, batch_digest, signer_count
  batch_intents_attested : ℕ → ℕ → ℕ → ℕ → Event
  -- count, batch_digest, total_amount_ada
  batch_vouchers_issued : ℕ → ℕ → ℕ → Event
  -- submitter, count, batch_digest, total_premium_ada
  batch_intents_submitted : ℕ → ℕ → ℕ → ℕ → Event

-- `IntentStatus` is compared by `==` and `matches!`.
abbrev pub is_pending : IntentStatus → Bool
is_pending IntentStatus.pending = Bool.true
is_pending _ = Bool.false

abbrev pub is_attested : IntentStatus → Bool
is_attested IntentStatus.attested = Bool.true
is_attested _ = Bool.false

abbrev pub is_settled_or_expired : IntentStatus → Bool
is_settled_or_expired IntentStatus.settled = Bool.true
is_settled_or_expired IntentStatus.expired = Bool.true
is_settled_or_expired _ = Bool.false

abbrev pub is_pending_or_attested : IntentStatus → Bool
is_pending_or_attested IntentStatus.pending = Bool.true
is_pending_or_attested IntentStatus.attested = Bool.true
is_pending_or_attested _ = Bool.false

-- The bounds of types.rs.
abbrev pub max_expire_per_block : ℕ
max_expire_per_block = 256

abbrev pub cardano_mainnet_network_magic : ℕ
cardano_mainnet_network_magic = 764824073

abbrev pub cardano_mainnet_shelley_genesis_hash : ℕ
cardano_mainnet_shelley_genesis_hash =
    0x1a3be38bcbb7911969283716ad7aa550250226b76a61fc51cc9a9a35d9276d81
