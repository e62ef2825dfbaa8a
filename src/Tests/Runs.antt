-- ===== src/Tests/Runs.antt =====
-- The life of one intent, from its submission to the settlement of its claim, and a deposit.
use materios_intent_settleme.Common.{◌≡◌, refl, some, ok, true, ◌+◌}
use materios_intent_settleme.Settlement.Types.{IntentKind, IntentStatus}
use materios_intent_settleme.Settlement.Payloads.{
  compute_intent_id, intent_id_body, domain_hash, account_to_bytes, attest_intent_payload,
  attest_intent_body, compute_fairness_proof_digest, voucher_digest, beneficiary_cbor_for,
  canonical_voucher_body, request_voucher_payload, request_voucher_body, settle_claim_payload,
  settle_claim_body, build_type0_address_cbor, credit_deposit_payload, credit_deposit_body,
}
use materios_intent_settleme.Settlement.Submit.{
  next_intent_id, new_intent, submit_intent, do_submit_intent,
}
use materios_intent_settleme.Settlement.Attest.{attest_intent}
use materios_intent_settleme.Settlement.Voucher.{request_voucher, claim_of}
use materios_intent_settleme.Settlement.Fairness.{validate_fairness_proof}
use materios_intent_settleme.Settlement.Threshold.{verify_threshold_signatures}
use materios_intent_settleme.Settlement.Cardano.{cardano_ids, bind_aegis_policy_v1}
use materios_intent_settleme.Settlement.Settle.{
  settle_claim, settle_batch_atomic, settle_batch_atomic_payload,
}
use materios_intent_settleme.Settlement.Deposit.{credit_deposit}
use materios_intent_settleme.Settlement.System.{run, dispatch}
use materios_intent_settleme.Tests.World.{
  rt, start, kind, id, submitted, half_attested, attested, minted, settled, batch_settled,
  deposited, bound, asked, ask_id, voucher, proof, quorum, mint_digest, settlement_signatures,
  entries, batch_signatures, deposit_signatures,
}

pub submits : do_submit_intent rt 5 kind start ≡ ok (id, submitted)
unfolding run dispatch submit_intent do_submit_intent next_intent_id new_intent account_to_bytes
    compute_intent_id intent_id_body domain_hash
submits = refl

pub asks : do_submit_intent rt 5 (IntentKind.refund_credit 100) start ≡ ok (ask_id, asked)
unfolding run dispatch submit_intent do_submit_intent next_intent_id new_intent account_to_bytes
    compute_intent_id intent_id_body domain_hash
asks = refl

pub submitted_intent : submitted.intents id ≡ some (new_intent rt 5 kind start)
unfolding run dispatch submit_intent do_submit_intent next_intent_id new_intent account_to_bytes
    compute_intent_id intent_id_body domain_hash
submitted_intent = refl

pub attests_first :
    attest_intent rt 1 id 1 (1 + attest_intent_payload rt rt.chain_id id) submitted
    ≡ ok half_attested
unfolding run dispatch submit_intent do_submit_intent next_intent_id new_intent account_to_bytes
    compute_intent_id intent_id_body domain_hash attest_intent attest_intent_payload
    attest_intent_body
attests_first = refl

pub attests :
    attest_intent rt 2 id 2 (2 + attest_intent_payload rt rt.chain_id id) half_attested
    ≡ ok attested
unfolding run dispatch submit_intent do_submit_intent next_intent_id new_intent account_to_bytes
    compute_intent_id intent_id_body domain_hash attest_intent attest_intent_payload
    attest_intent_body
attests = refl

pub half_attested_intent : half_attested.intents id ≡ some (new_intent rt 5 kind start)
unfolding run dispatch submit_intent do_submit_intent next_intent_id new_intent account_to_bytes
    compute_intent_id intent_id_body domain_hash attest_intent attest_intent_payload
    attest_intent_body
half_attested_intent = refl

pub attested_intent :
    attested.intents id
    ≡ some (record (new_intent rt 5 kind start) { status = IntentStatus.attested })
unfolding run dispatch submit_intent do_submit_intent next_intent_id new_intent account_to_bytes
    compute_intent_id intent_id_body domain_hash attest_intent attest_intent_payload
    attest_intent_body
attested_intent = refl

pub mints : request_voucher rt 1 70 id voucher proof (quorum mint_digest) attested ≡ ok minted
unfolding run dispatch submit_intent do_submit_intent next_intent_id new_intent account_to_bytes
    compute_intent_id intent_id_body domain_hash attest_intent attest_intent_payload
    attest_intent_body request_voucher compute_fairness_proof_digest voucher_digest
    beneficiary_cbor_for canonical_voucher_body request_voucher_payload request_voucher_body
    validate_fairness_proof verify_threshold_signatures cardano_ids build_type0_address_cbor
mints = refl

pub minted_claim : minted.claims 70 ≡ some (claim_of id voucher)
unfolding run dispatch submit_intent do_submit_intent next_intent_id new_intent account_to_bytes
    compute_intent_id intent_id_body domain_hash attest_intent attest_intent_payload
    attest_intent_body request_voucher compute_fairness_proof_digest voucher_digest
    beneficiary_cbor_for canonical_voucher_body request_voucher_payload request_voucher_body
    validate_fairness_proof verify_threshold_signatures cardano_ids build_type0_address_cbor
minted_claim = refl

pub settles : settle_claim rt 1 70 88 true settlement_signatures minted ≡ ok settled
unfolding run dispatch submit_intent do_submit_intent next_intent_id new_intent account_to_bytes
    compute_intent_id intent_id_body domain_hash attest_intent attest_intent_payload
    attest_intent_body request_voucher compute_fairness_proof_digest voucher_digest
    beneficiary_cbor_for canonical_voucher_body request_voucher_payload request_voucher_body
    validate_fairness_proof verify_threshold_signatures cardano_ids build_type0_address_cbor
    settle_claim settle_claim_payload settle_claim_body
settles = refl

pub settles_batch : settle_batch_atomic rt 1 entries batch_signatures minted ≡ ok batch_settled
unfolding run dispatch submit_intent do_submit_intent next_intent_id new_intent account_to_bytes
    compute_intent_id intent_id_body domain_hash attest_intent attest_intent_payload
    attest_intent_body request_voucher compute_fairness_proof_digest voucher_digest
    beneficiary_cbor_for canonical_voucher_body request_voucher_payload request_voucher_body
    validate_fairness_proof verify_threshold_signatures cardano_ids build_type0_address_cbor
    settle_batch_atomic settle_batch_atomic_payload
settles_batch = refl

pub deposits : credit_deposit rt 1 6 250 99 deposit_signatures start ≡ ok deposited
unfolding run dispatch credit_deposit credit_deposit_payload credit_deposit_body account_to_bytes
    domain_hash verify_threshold_signatures
deposits = refl

pub binds : bind_aegis_policy_v1 true 12 start ≡ ok bound
unfolding run dispatch bind_aegis_policy_v1
binds = refl
