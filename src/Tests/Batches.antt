-- ===== src/Tests/Batches.antt =====
-- The theorems on batches, on attested expiry and on the keeper's view, at concrete inputs.
use materios_intent_settleme.Settlement.Fairness.{validate_fairness_proof}
use materios_intent_settleme.Settlement.Payloads.{
  domain_hash, compute_fairness_proof_digest, voucher_digest, beneficiary_cbor_for,
  canonical_voucher_body, build_type0_address_cbor,
}
use materios_intent_settleme.Settlement.Threshold.{verify_threshold_signatures}
use materios_intent_settleme.Settlement.Cardano.{cardano_ids}
use Prim.Native.Nat.{max}
use materios_intent_settleme.Common.{
  length, ◌≤◌, ◌≡◌, ◌↔◌, ◌⊎◌, refl, true, false, List, [], ◌∷◌, ok, some, none, arith, take, ◌==◌,
  if◌then◌else◌,
}
use materios_intent_settleme.Settlement.Evidence.{ExpiryEvidence, ExpiryRequestRecord}
use materios_intent_settleme.Settlement.Types.{Intent, IntentStatus, Signature}
use materios_intent_settleme.Settlement.State.{State}
use materios_intent_settleme.Settlement.Currency.{Chain}
use materios_intent_settleme.Settlement.Payloads.Attested.{
  BatchAttestEntryBytes, expire_policy_attested_payload, expire_policy_attested_body,
}
use materios_intent_settleme.Settlement.Payloads.Batched.{
  attest_batch_intents_payload, request_batch_vouchers_payload,
}
use materios_intent_settleme.Settlement.Payloads.BatchInjective.{
  IsWellFormed, attest_batch_settle_body-injective,
}
use materios_intent_settleme.Settlement.Bonds.{request_expired}
use materios_intent_settleme.Settlement.PolicyExpiry.{request_expire_policy, attest_expire_policy}
use materios_intent_settleme.Settlement.PolicyExpiry.Gate.{
  IsAttestedExpiry, attest_expire_policy-cases,
}
use materios_intent_settleme.Settlement.Batches.{
  submit_batch_intents, attest_batch_intents, get_pending_batches,
}
use materios_intent_settleme.Settlement.Batches.Vouchers.{
  RequestVoucherEntry, request_batch_vouchers, tuple_of,
}
use materios_intent_settleme.Settlement.Batches.Pending.{all_pending, get_pending_batches-take}
use materios_intent_settleme.Settlement.System.{after}
use materios_intent_settleme.Settlement.Pallet.{PalletCall, run_calls, dispatch_call}
use materios_intent_settleme.Settlement.Pallet.BatchAttest.{
  IsBatchOf, attest_batch_intents-IsBatchOf,
}
use materios_intent_settleme.Settlement.Pallet.BatchMint.{
  IsBatchMinted, request_batch_vouchers-IsBatchMinted,
}
use materios_intent_settleme.Settlement.Pallet.Refine.{IsSubmittedBatch, submit_batch_intents_iff}
use materios_intent_settleme.Tests.World.{rt, start, kind, voucher, proof, proof_digest, quorum}
use materios_intent_settleme.Tests.Ledger.{Ledger, currency}
use materios_intent_settleme.Tests.Bonded.{policy_intent, chain, cardano_digest}

abbrev entry : BatchAttestEntryBytes
entry = record {
  claim_id = 70;
  voucher_digest = 4000;
  cardano_tx_hash = 88;
  settled_direct = true;
  beneficiary_hash = 7;
  amount_ada = 500;
  depth = 20;
  slot = 3;
  mc_genesis = 5;
}

entry-IsWellFormed : IsWellFormed entry
entry-IsWellFormed = record {
  claim_id = ground arith;
  voucher_digest = ground arith;
  cardano_tx_hash = ground arith;
  beneficiary_hash = ground arith;
  amount_ada = ground arith;
  depth = ground arith;
  slot = ground arith;
  mc_genesis = ground arith;
}

attest_batch_settle_body-injective_example : (rt.chain_id ≡ rt.chain_id) × (entry ∷ [] ≡ entry ∷ [])
attest_batch_settle_body-injective_example =
    attest_batch_settle_body-injective rt.chain_id rt.chain_id (entry ∷ []) (entry ∷ [])
      (ground arith, ground arith) (entry-IsWellFormed, tt) (entry-IsWellFormed, tt)
      (ground arith, ground arith) refl

abbrev expiry_evidence : ExpiryEvidence
expiry_evidence = record {
  cardano_tx_hash = 77;
  observed_at_depth = 20;
  observed_slot = 3;
  mainchain_genesis_hash = 5;
  policy_id_witness = 11;
}

abbrev expiring : Chain Ledger
expiring = run_calls currency rt (PalletCall.requests_expiry 3 40 77 expiry_evidence ∷ []) chain

abbrev expiry_signatures : List Signature
expiry_signatures = quorum (expire_policy_attested_payload rt rt.chain_id 40 11 77 20 3 5)

abbrev expired : Chain Ledger
expired = run_calls currency rt (PalletCall.attests_expiry 1 40 expiry_signatures ∷ []) expiring

attests_expiry : attest_expire_policy rt 1 40 expiry_signatures expiring ≡ ok expired
unfolding run_calls dispatch_call request_expire_policy attest_expire_policy cardano_ids
    verify_threshold_signatures expire_policy_attested_payload domain_hash
    expire_policy_attested_body
attests_expiry = refl

attest_expire_policy-cases_example :
    (rt.is_member 1 ≡ true)
    × (length expiry_signatures ≤ rt.max_committee)
    × (q : ExpiryRequestRecord) × (i : Intent) × (expiring.requests.policy_expire_requests 40
        ≡ some q)
    × (request_expired rt expiring.pallet q.submitted_block ≡ false)
    × (expiring.pallet.intents 40 ≡ some i)
    × (expired.requests.policy_expire_requests 40 ≡ none)
    × (((i.status ≡ IntentStatus.expired) × (expired.pallet ≡ expiring.pallet))
        ⊎ IsAttestedExpiry rt 1 40 expiry_signatures q i expiring expired)
attest_expire_policy-cases_example =
    attest_expire_policy-cases rt 1 40 expiry_signatures expiring expired attests_expiry

abbrev batch_submitted : State
batch_submitted = after start (submit_batch_intents rt 5 (kind ∷ kind ∷ []) start)

submit_batch_intents_iff_example :
    (submit_batch_intents rt 5 (kind ∷ kind ∷ []) start ≡ ok batch_submitted)
    ↔ IsSubmittedBatch rt 5 (kind ∷ kind ∷ []) start batch_submitted
submit_batch_intents_iff_example =
    submit_batch_intents_iff rt 5 (kind ∷ kind ∷ []) start batch_submitted

-- Intent 40 has the status; it stands in the index.
abbrev with_status : IntentStatus → State
with_status status = record start {
  intents = λ id. if id == 40 then some (record policy_intent { status = status }) else none;
  pending_batches = 40 ∷ [];
}

get_pending_batches-take_example :
    get_pending_batches (with_status IntentStatus.attested) 1 5
    ≡ take (max 5 1) (
        all_pending
          (with_status IntentStatus.attested)
          1
          (with_status IntentStatus.attested).pending_batches)
get_pending_batches-take_example =
    get_pending_batches-take (with_status IntentStatus.attested) 1 5 (ground arith)

abbrev bundle : List Signature
bundle = quorum (attest_batch_intents_payload rt rt.chain_id (40 ∷ []))

abbrev batch_attested : State
batch_attested =
    after start (attest_batch_intents rt 1 (40 ∷ []) bundle (with_status IntentStatus.pending))

attests_batch :
    attest_batch_intents rt 1 (40 ∷ []) bundle (with_status IntentStatus.pending)
    ≡ ok batch_attested
unfolding attest_batch_intents verify_threshold_signatures attest_batch_intents_payload domain_hash
attests_batch = refl

attest_batch_intents-IsBatchOf_example :
    IsBatchOf rt 1 (40 ∷ []) bundle (with_status IntentStatus.pending) batch_attested
attest_batch_intents-IsBatchOf_example =
    attest_batch_intents-IsBatchOf rt 1 (40 ∷ []) bundle (with_status IntentStatus.pending)
      batch_attested attests_batch

abbrev mint_entries : List RequestVoucherEntry
mint_entries =
    record { claim_id = 70; intent_id = 40; voucher = voucher; fairness_proof = proof } ∷ []

abbrev mint_bundle : List Signature
mint_bundle =
    quorum
      (request_batch_vouchers_payload rt rt.chain_id ((70, 40, cardano_digest, proof_digest) ∷ []))

abbrev batch_minted : State
batch_minted =
    after start
      (request_batch_vouchers rt 1 mint_entries mint_bundle (with_status IntentStatus.attested))

mints_batch :
    request_batch_vouchers rt 1 mint_entries mint_bundle (with_status IntentStatus.attested)
    ≡ ok batch_minted
unfolding request_batch_vouchers cardano_ids tuple_of validate_fairness_proof
    compute_fairness_proof_digest domain_hash voucher_digest beneficiary_cbor_for
    verify_threshold_signatures request_batch_vouchers_payload canonical_voucher_body
    build_type0_address_cbor
mints_batch = refl

request_batch_vouchers-IsBatchMinted_example :
    IsBatchMinted rt 1 mint_entries mint_bundle (with_status IntentStatus.attested) batch_minted
request_batch_vouchers-IsBatchMinted_example =
    request_batch_vouchers-IsBatchMinted rt 1 mint_entries mint_bundle
      (with_status IntentStatus.attested) batch_minted mints_batch
