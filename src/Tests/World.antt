-- ===== src/Tests/World.antt =====
-- A small chain to try the model on: three members, a threshold of two, signatures that are the sum
-- of key and digest, and a hash that is the sum of the bytes.
use materios_intent_settleme.Common.{
  ℕ, ◌+◌, true, false, List, [], ◌∷◌, ◌==◌, ltb, if◌then◌else◌, replicate, ◌++◌, none, some, sum,
  Result, ok, err,
}
use materios_intent_settleme.Settlement.Types.{
  IntentKind, BatchFairnessProof, Voucher, Signature, Error,
}
use materios_intent_settleme.Settlement.State.{Runtime, State}
use materios_intent_settleme.Settlement.Payloads.{
  attest_intent_payload, compute_fairness_proof_digest, voucher_digest, request_voucher_payload,
  settle_claim_payload, credit_deposit_payload, account_to_bytes,
}
use materios_intent_settleme.Settlement.Submit.{next_intent_id}
use materios_intent_settleme.Settlement.Settle.{SettleBatchEntry, settle_batch_atomic_payload}
use materios_intent_settleme.Settlement.System.{Call, run}

abbrev pub rt : Runtime
rt = record {
  chain_id = 1;
  settlement_version = 1;
  max_committee = 16;
  max_pending_batches = 100;
  default_intent_ttl = 10;
  default_min_signer_threshold = 2;
  is_member = λ a. ltb a 3;
  threshold = 2;
  pubkey_of = λ a. a;
  account_of_pubkey = λ k. some k;
  verify = λ k sig digest. sig == k + digest;
  blake2_256 = sum;
  encode_account = λ a. a ∷ [];
  encode_kind = λ kind. [];
  encode_proof = λ p. p.sorted_intent_ids;
  encode_evidence = λ e. e.cardano_tx_hash ∷ e.observed_slot ∷ [];
  encode_fraud_proof = λ p. [];
  min_finality_depth = 15;
  settlement_request_ttl = 50;
  min_settlement_bond = 100;
  bond_release_delay_blocks = 10;
  slash_watcher_share_bps = 2500;
  treasury_account = 9;
  balance_max = 340282366920938463463374607431768211455;
}

-- Account 5 holds 1000 lovelace of credit; the legacy paths are open until block 100.
abbrev pub start : State
start = record {
  intents = λ id. none;
  nonces = λ a. 0;
  credits = λ a. if a == 5 then 1000 else 0;
  claims = λ id. none;
  vouchers = λ id. none;
  pending_attestations = λ id. [];
  attestation_sigs = λ id. none;
  expiry_queue = λ n. [];
  processed_deposits = λ target tx. false;
  intent_ttl = 0;
  pool = record {
    target_bps = 5000;
    cap_bps = 8000;
    total_nav_ada = 100000;
    outstanding_coverage_ada = 0;
  };
  pending_batches = [];
  min_signer_threshold = 0;
  pre_audit_settlement = λ id. false;
  stca_cutover_block = 100;
  settlement_storage_version = 1;
  policy_expire_cutover_block = 100;
  pre_audit_expiry = λ id. false;
  cardano_ids =
      some
        (record { network_magic = 1; mainchain_genesis_hash = 5; aegis_policy_v1_script_hash = 0 });
  block_number = 1;
  events = [];
}

abbrev pub sign : ℕ → List ℕ → List Signature
sign digest [] = []
sign digest (k ∷ ks) = (k, k + digest) ∷ sign digest ks

-- Members 1 and 2.
abbrev pub quorum : ℕ → List Signature
quorum digest = sign digest (1 ∷ 2 ∷ [])

abbrev pub address : List ℕ
address = 1 ∷ (replicate 28 7 ++ replicate 28 9)

abbrev pub kind : IntentKind
kind = IntentKind.buy_policy 11 500 20 300 address

abbrev pub id : ℕ
unfolding next_intent_id
id = next_intent_id rt 5 kind start

abbrev pub proof : BatchFairnessProof
proof = record {
  block_range_start = 1;
  block_range_end = 1;
  sorted_intent_ids = 3 ∷ 4 ∷ [];
  requested_amounts_ada = 1001 ∷ 400 ∷ [];
  pool_balance_ada = 1000;
  pro_rata_scale_bps = 5000;
  awarded_amounts_ada = 500 ∷ 200 ∷ [];
}

abbrev pub proof_digest : ℕ
proof_digest = compute_fairness_proof_digest rt proof

abbrev pub voucher : Voucher
voucher = record {
  claim_id = 70;
  policy_id = 11;
  beneficiary_cardano_addr = address;
  amount_ada = 500;
  batch_fairness_proof_digest = proof_digest;
  issued_block = 1;
  expiry_slot_cardano = 9000;
  committee_sigs = [];
}

abbrev pub or_zero : Result Error ℕ → ℕ
or_zero (ok n) = n
or_zero (err e) = 0

abbrev pub mint_digest : ℕ
mint_digest =
    request_voucher_payload rt rt.chain_id 70 id
      (or_zero (
        voucher_digest rt
          (record {
            network_magic = 1;
            mainchain_genesis_hash = 5;
            aegis_policy_v1_script_hash = 0;
          })
          voucher))
      proof_digest

abbrev pub attestation : ℕ → Call
attestation k = Call.attests k id k (k + attest_intent_payload rt rt.chain_id id)

abbrev pub mint : Call
mint = Call.mints 1 70 id voucher proof (quorum mint_digest)

abbrev pub settlement_signatures : List Signature
settlement_signatures = quorum (settle_claim_payload rt rt.chain_id 70 88 true)

abbrev pub settlement : Call
settlement = Call.settles 1 70 88 true settlement_signatures

abbrev pub entries : List SettleBatchEntry
entries = record { claim_id = 70; cardano_tx_hash = 88; settled_direct = true } ∷ []

abbrev pub batch_signatures : List Signature
batch_signatures = quorum (settle_batch_atomic_payload rt rt.chain_id entries)

abbrev pub deposit_signatures : List Signature
deposit_signatures = quorum (credit_deposit_payload rt rt.chain_id (account_to_bytes rt 6) 250 99)

-- The state after the submission, after one attestation, after two, after the mint.
abbrev pub submitted : State
submitted = run rt (Call.submits 5 kind ∷ []) start

abbrev pub half_attested : State
half_attested = run rt (attestation 1 ∷ []) submitted

abbrev pub attested : State
attested = run rt (attestation 2 ∷ []) half_attested

abbrev pub minted : State
minted = run rt (mint ∷ []) attested

abbrev pub settled : State
settled = run rt (settlement ∷ []) minted

abbrev pub history : List Call
history = Call.submits 5 kind ∷ attestation 1 ∷ attestation 2 ∷ mint ∷ settlement ∷ []

abbrev pub batch_settled : State
batch_settled = run rt (Call.settles_batch 1 entries batch_signatures ∷ []) minted

abbrev pub deposited : State
deposited = run rt (Call.deposits 1 6 250 99 deposit_signatures ∷ []) start

abbrev pub bound : State
bound = run rt (Call.binds_policy true 12 ∷ []) start

abbrev pub ask_id : ℕ
unfolding next_intent_id
ask_id = next_intent_id rt 5 (IntentKind.refund_credit 100) start

abbrev pub asked : State
asked = run rt (Call.submits 5 (IntentKind.refund_credit 100) ∷ []) start
