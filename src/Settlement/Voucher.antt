-- ===== src/Settlement/Voucher.antt =====
-- The mint of a voucher (`request_voucher` of pallets/intent-settlement/src/lib.rs). `who` is the
-- account of the signed origin.
use materios_intent_settleme.Common.{
  ℕ, ◌+◌, List, false, some, ◌==◌, leb, not, put, is_some, erase, ensure, ok_or, Result, ok, ◌>>=◌,
  ◌>>◌, length, u64_max,
}
use materios_intent_settleme.Settlement.Types.{
  Signature, IntentStatus, Intent, Claim, Voucher, BatchFairnessProof, Error, Event, is_attested,
}
use materios_intent_settleme.Settlement.State.{Runtime, State, deposit_event}
use materios_intent_settleme.Settlement.Payloads.{
  compute_fairness_proof_digest, voucher_digest, request_voucher_payload,
}
use materios_intent_settleme.Settlement.Cardano.{cardano_ids}
use materios_intent_settleme.Settlement.Fairness.{validate_fairness_proof}
use materios_intent_settleme.Settlement.Threshold.{verify_threshold_signatures}
pub mod Gate

-- `remove_from_pending_batches`
abbrev pub remove_from_pending_batches : ℕ → State → State
remove_from_pending_batches intent_id s = record s {
  pending_batches = erase intent_id s.pending_batches;
}

abbrev pub claim_of : ℕ → Voucher → Claim
claim_of intent_id v = record {
  intent_id = intent_id;
  policy_id = v.policy_id;
  amount_ada = v.amount_ada;
  issued_block = v.issued_block;
  expiry_slot_cardano = v.expiry_slot_cardano;
  is_settled = false;
  settled_direct = false;
  cardano_tx_hash = 0;
}

-- The writes of a mint whose checks have passed.
unfoldable pub issue_voucher : ℕ → ℕ → Intent → Voucher → ℕ → ℕ → ℕ → State → State
issue_voucher claim_id intent_id intent v new_outstanding digest bfpr_digest s =
    deposit_event (Event.voucher_issued claim_id digest bfpr_digest) (
      remove_from_pending_batches intent_id (record s {
        claims = put s.claims claim_id (some (claim_of intent_id v));
        vouchers = put s.vouchers claim_id (some v);
        intents =
            put s.intents intent_id (some (record intent { status = IntentStatus.vouchered }));
        pool = record s.pool { outstanding_coverage_ada = new_outstanding };
      }))

unfoldable pub request_voucher :
    Runtime → ℕ → ℕ → ℕ → Voucher → BatchFairnessProof → List Signature → State → Result Error State
unfolding issue_voucher
request_voucher rt who claim_id intent_id v proof signatures s = do
  ensure (rt.is_member who) Error.not_committee_member
  ensure (leb (length signatures) rt.max_committee) Error.too_many_signatures
  ensure (not (is_some (s.vouchers claim_id))) Error.duplicate_voucher
  intent ← ok_or (s.intents intent_id) Error.intent_not_found
  ensure (is_attested intent.status) Error.intent_status_mismatch
  validate_fairness_proof proof
  let bfpr_digest = compute_fairness_proof_digest rt proof
  ensure (v.batch_fairness_proof_digest == bfpr_digest) Error.fairness_digest_mismatch
  cardano ← cardano_ids s
  digest ← voucher_digest rt cardano v
  verify_threshold_signatures rt s
      (request_voucher_payload rt rt.chain_id claim_id intent_id digest bfpr_digest) who signatures
  let new_outstanding = s.pool.outstanding_coverage_ada + v.amount_ada
  ensure (leb new_outstanding u64_max) Error.coverage_overflow
  ok (issue_voucher claim_id intent_id intent v new_outstanding digest bfpr_digest s)
