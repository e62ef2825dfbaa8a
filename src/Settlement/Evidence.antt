-- ===== src/Settlement/Evidence.antt =====
-- What a requester claims to have seen on Cardano, and the pending requests that keep it
-- (`SettlementEvidence` to `ExpiryRequestRecord` of pallets/intent-settlement/src/types.rs). A bond
-- is a u128 amount of the chain's currency.
use materios_intent_settleme.Common.{ℕ, Bool, ◌&&◌, ◌==◌, if◌then◌else◌, not}

pub record SettlementEvidence : Type 0 where
  pub cardano_tx_hash : ℕ
  pub observed_at_depth : ℕ
  pub observed_slot : ℕ
  pub beneficiary_addr_hash : ℕ
  pub amount_lovelace : ℕ
  pub mainchain_genesis_hash : ℕ

pub record SettlementRequestRecord : Type 0 where
  pub requester : ℕ
  pub evidence : SettlementEvidence
  pub settled_direct : Bool
  pub submitted_block : ℕ
  pub bond_amount : ℕ

pub data FraudProof : Type 0 where
  -- actual_lovelace
  wrong_amount : ℕ → FraudProof
  tx_not_found : FraudProof
  -- actual_payment_hash
  wrong_beneficiary : ℕ → FraudProof

pub record SettleAttestedBatchEntry : Type 0 where
  pub claim_id : ℕ
  pub evidence : SettlementEvidence
  pub settled_direct : Bool

pub record ExpiryEvidence : Type 0 where
  pub cardano_tx_hash : ℕ
  pub observed_at_depth : ℕ
  pub observed_slot : ℕ
  pub mainchain_genesis_hash : ℕ
  pub policy_id_witness : ℕ

pub record ExpiryRequestRecord : Type 0 where
  pub requester : ℕ
  pub evidence : ExpiryEvidence
  pub submitted_block : ℕ

-- The derived `==` of evidence, and of the settlement mode.
abbrev pub same_evidence : SettlementEvidence → SettlementEvidence → Bool
same_evidence a b =
    a.cardano_tx_hash == b.cardano_tx_hash
    && a.observed_at_depth == b.observed_at_depth
    && a.observed_slot == b.observed_slot
    && a.beneficiary_addr_hash == b.beneficiary_addr_hash
    && a.amount_lovelace == b.amount_lovelace
    && a.mainchain_genesis_hash == b.mainchain_genesis_hash

abbrev pub same_mode : Bool → Bool → Bool
same_mode a b = if a then b else not b

-- `MAX_OBSERVED_DEPTH`
abbrev pub max_observed_depth : ℕ
max_observed_depth = 2160
