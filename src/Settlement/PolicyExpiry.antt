-- ===== src/Settlement/PolicyExpiry.antt =====
-- The attested expiry of policies (`resolve_intent_policy_id`, `request_expire_policy`,
-- `attest_expire_policy` of pallets/intent-settlement/src/lib.rs). `who` is the account of the
-- signed origin.
use materios_intent_settleme.Common.{
  ℕ, Bool, true, false, List, Option, none, some, ◌==◌, leb, not, put, if◌then◌else◌, ensure, ok_or,
  Result, ok, err, ◌>>=◌, ◌>>◌, length,
}
use materios_intent_settleme.Settlement.Evidence.{ExpiryEvidence, ExpiryRequestRecord}
use materios_intent_settleme.Settlement.Types.{
  Signature, IntentKind, IntentStatus, Intent, ExpiryReason, Error, Event,
}
use materios_intent_settleme.Settlement.State.{Runtime, State}
use materios_intent_settleme.Settlement.Currency.{Chain, emit}
use materios_intent_settleme.Settlement.Payloads.Attested.{expire_policy_attested_payload}
use materios_intent_settleme.Settlement.Cardano.{cardano_ids}
use materios_intent_settleme.Settlement.Threshold.{verify_threshold_signatures}
use materios_intent_settleme.Settlement.Voucher.{remove_from_pending_batches}
use materios_intent_settleme.Settlement.Bonds.{request_expired}
use materios_intent_settleme.Settlement.Attested.{on_pallet}
pub mod Gate

abbrev pub is_expired : IntentStatus → Bool
is_expired IntentStatus.expired = true
is_expired _ = false

abbrev pub is_settled_status : IntentStatus → Bool
is_settled_status IntentStatus.settled = true
is_settled_status _ = false

unfoldable pub resolve_intent_policy_id : IntentKind → Result Error ℕ
resolve_intent_policy_id (IntentKind.buy_policy product_id _ _ _ _) = ok product_id
resolve_intent_policy_id (IntentKind.request_payout policy_id _) = ok policy_id
resolve_intent_policy_id _ = err Error.intent_not_eligible_for_expiry

abbrev pub put_expire_request : {L : Type 0} → ℕ → Option ExpiryRequestRecord → Chain L → Chain L
put_expire_request intent_id o ch = record ch {
  requests = record ch.requests {
    policy_expire_requests = put ch.requests.policy_expire_requests intent_id o;
  };
}

-- A request may replace one that is past its time to live.
abbrev replaceable : Runtime → State → Option ExpiryRequestRecord → Bool
replaceable rt s none = true
replaceable rt s (some previous) = request_expired rt s previous.submitted_block

unfoldable pub request_expire_policy :
    {L : Type 0} → Runtime → ℕ → ℕ → ℕ → ExpiryEvidence → Chain L → Result Error (Chain L)
unfolding request_expired resolve_intent_policy_id
request_expire_policy rt who intent_id cardano_tx_hash evidence ch = do
  let s = ch.pallet
  ensure (evidence.cardano_tx_hash == cardano_tx_hash) Error.expiry_evidence_mismatch
  cardano ← cardano_ids s
  ensure (evidence.mainchain_genesis_hash == cardano.mainchain_genesis_hash)
      Error.wrong_mainchain_genesis
  ensure (leb rt.min_finality_depth evidence.observed_at_depth) Error.finality_depth_below_minimum
  intent ← ok_or (s.intents intent_id) Error.unknown_policy
  if is_expired intent.status then ok ch else (do
    ensure (not (is_settled_status intent.status)) Error.intent_not_eligible_for_expiry
    policy_id ← resolve_intent_policy_id intent.kind
    ensure (evidence.policy_id_witness == policy_id) Error.expiry_evidence_mismatch
    ensure (replaceable rt s (ch.requests.policy_expire_requests intent_id))
        Error.expiry_request_already_exists
    ok (
        emit (Event.expiry_requested intent_id who cardano_tx_hash evidence.policy_id_witness) (
          put_expire_request intent_id
            (some
              (record { requester = who; evidence = evidence; submitted_block = s.block_number }))
            ch)))

-- The writes of an attested expiry.
abbrev expire_attested : ℕ → Intent → State → State
expire_attested intent_id intent s = remove_from_pending_batches intent_id (record s {
  intents = put s.intents intent_id (some (record intent { status = IntentStatus.expired }));
})

unfoldable pub attest_expire_policy :
    {L : Type 0} → Runtime → ℕ → ℕ → List Signature → Chain L → Result Error (Chain L)
unfolding request_expired resolve_intent_policy_id
attest_expire_policy rt who intent_id signatures ch = do
  let s = ch.pallet
  ensure (rt.is_member who) Error.not_committee_member
  ensure (leb (length signatures) rt.max_committee) Error.too_many_signatures
  request ← ok_or (ch.requests.policy_expire_requests intent_id) Error.expiry_request_missing
  ensure (not (request_expired rt s request.submitted_block)) Error.expiry_request_expired
  intent ← ok_or (s.intents intent_id) Error.unknown_policy
  if is_expired intent.status then ok (put_expire_request intent_id none ch) else (do
    ensure (not (is_settled_status intent.status)) Error.intent_not_eligible_for_expiry
    policy_id ← resolve_intent_policy_id intent.kind
    cardano ← cardano_ids s
    verify_threshold_signatures rt s
        (expire_policy_attested_payload rt rt.chain_id intent_id policy_id
          request.evidence.cardano_tx_hash request.evidence.observed_at_depth
          request.evidence.observed_slot cardano.mainchain_genesis_hash)
        who signatures
    ok (
        emit (Event.intent_expired intent_id ExpiryReason.policy_expired_on_cardano)
          (put_expire_request intent_id none (on_pallet (expire_attested intent_id intent s) ch))))
