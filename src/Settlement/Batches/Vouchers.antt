-- ===== src/Settlement/Batches/Vouchers.antt =====
-- The mint of a batch of vouchers under one bundle of signatures (`request_batch_vouchers` of
-- pallets/intent-settlement/src/lib.rs).
use materios_intent_settleme.Common.{
  ℕ, ◌+◌, Bool, true, false, List, [], ◌∷◌, ◌==◌, leb, not, is_some, ensure, ok_or, Result, ok,
  ◌>>=◌, ◌>>◌, length, sat_add, u64_max,
}
use materios_intent_settleme.Settlement.Types.{
  Signature, Voucher, BatchFairnessProof, CardanoIdentity, Error, Event, is_attested,
}
use materios_intent_settleme.Settlement.State.{Runtime, State, deposit_event}
use materios_intent_settleme.Settlement.Payloads.{compute_fairness_proof_digest, voucher_digest}
use materios_intent_settleme.Settlement.Payloads.Batched.{
  VoucherTuple, request_batch_vouchers_payload,
}
use materios_intent_settleme.Settlement.Cardano.{cardano_ids}
use materios_intent_settleme.Settlement.Fairness.{validate_fairness_proof}
use materios_intent_settleme.Settlement.Threshold.{verify_threshold_signatures}
use materios_intent_settleme.Settlement.Voucher.{issue_voucher}
use materios_intent_settleme.Settlement.Batches.{check_distinct_ids}

pub record RequestVoucherEntry : Type 0 where
  pub claim_id : ℕ
  pub intent_id : ℕ
  pub voucher : Voucher
  pub fairness_proof : BatchFairnessProof

abbrev pub voucher_claim_ids : List RequestVoucherEntry → List ℕ
voucher_claim_ids [] = []
voucher_claim_ids (e ∷ rest) = e.claim_id ∷ voucher_claim_ids rest

-- The checks of one entry that come before the signatures.
unfoldable pub tuple_of :
    Runtime → CardanoIdentity → State → RequestVoucherEntry → Result Error VoucherTuple
tuple_of rt cardano s e = do
  ensure (not (is_some (s.vouchers e.claim_id))) Error.duplicate_voucher
  validate_fairness_proof e.fairness_proof
  let bfpr_digest = compute_fairness_proof_digest rt e.fairness_proof
  ensure (e.voucher.batch_fairness_proof_digest == bfpr_digest) Error.fairness_digest_mismatch
  digest ← voucher_digest rt cardano e.voucher
  ok (e.claim_id, e.intent_id, digest, bfpr_digest)

-- The tuples of the entries, each beside its entry.
unfoldable pub tuples_of :
    Runtime
    → CardanoIdentity
    → State
    → List RequestVoucherEntry
    → Result Error (List (RequestVoucherEntry × VoucherTuple))
tuples_of rt cardano s [] = ok []
tuples_of rt cardano s (e ∷ rest) =
    let next = tuples_of rt cardano s rest in
    do t ← tuple_of rt cardano s e; tail ← next; ok ((e, t) ∷ tail)

abbrev pub tuples : List (RequestVoucherEntry × VoucherTuple) → List VoucherTuple
tuples [] = []
tuples ((_, t) ∷ rest) = t ∷ tuples rest

-- One entry of the loop.
unfoldable pub mint_entry : RequestVoucherEntry → VoucherTuple → State → Result Error State
unfolding issue_voucher
mint_entry e (_, _, digest, bfpr_digest) s = do
  intent ← ok_or (s.intents e.intent_id) Error.intent_not_found
  ensure (is_attested intent.status) Error.intent_status_mismatch
  let new_outstanding = s.pool.outstanding_coverage_ada + e.voucher.amount_ada
  ensure (leb new_outstanding u64_max) Error.coverage_overflow
  ok (issue_voucher e.claim_id e.intent_id intent e.voucher new_outstanding digest bfpr_digest s)

-- The loop, with the running total.
unfoldable pub mint_entries :
    List (RequestVoucherEntry × VoucherTuple) → ℕ → State → Result Error (State × ℕ)
unfolding mint_entry
mint_entries [] total s = ok (s, total)
mint_entries ((e, t) ∷ rest) total s = do
  s' ← mint_entry e t s
  mint_entries rest (sat_add u64_max total e.voucher.amount_ada) s'

abbrev no_entries : List RequestVoucherEntry → Bool
no_entries [] = true
no_entries (_ ∷ _) = false

unfoldable pub request_batch_vouchers :
    Runtime → ℕ → List RequestVoucherEntry → List Signature → State → Result Error State
unfolding check_distinct_ids tuples_of mint_entries
request_batch_vouchers rt who entries signatures s = do
  ensure (rt.is_member who) Error.not_committee_member
  ensure (leb (length signatures) rt.max_committee) Error.too_many_signatures
  ensure (not (no_entries entries)) Error.empty_voucher_batch
  check_distinct_ids Error.duplicate_claim_in_voucher_batch (voucher_claim_ids entries)
  cardano ← cardano_ids s
  pairs ← tuples_of rt cardano s entries
  let payload = request_batch_vouchers_payload rt rt.chain_id (tuples pairs)
  verify_threshold_signatures rt s payload who signatures
  minted ← mint_entries pairs 0 s
  ok (deposit_event (Event.batch_vouchers_issued (length entries) payload minted.1) minted.0)
