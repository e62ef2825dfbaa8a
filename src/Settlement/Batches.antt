-- ===== src/Settlement/Batches.antt =====
-- The batched calls (`submit_batch_intents`, `attest_batch_intents`, `request_batch_vouchers` of
-- pallets/intent-settlement/src/lib.rs) and the keeper's view of attested intents
-- (`get_pending_batches`). `who` is the account of the signed origin.
use materios_intent_settleme.Common.{
  ℕ, ◌+◌, Bool, true, false, List, [], ◌∷◌, Option, none, some, ◌==◌, ◌&&◌, ◌||◌, ltb, leb, not,
  put, is_some, if◌then◌else◌, ensure, ok_or, Result, ok, err, ◌>>=◌, ◌>>◌, length, take, contains,
  sat_add, u32_max, u64_max, ◌++◌, as_u32,
}
use materios_intent_settleme.Settlement.Types.{
  Signature, IntentKind, IntentStatus, Intent, Voucher, BatchFairnessProof, CardanoIdentity, Error,
  Event, is_pending, is_attested, is_pending_or_attested,
}
use materios_intent_settleme.Settlement.State.{Runtime, State, deposit_event}
use materios_intent_settleme.Settlement.Payloads.{compute_fairness_proof_digest, voucher_digest}
use materios_intent_settleme.Settlement.Payloads.Batched.{
  VoucherTuple, attest_batch_intents_payload, request_batch_vouchers_payload,
  submit_batch_intents_payload,
}
use materios_intent_settleme.Settlement.Cardano.{cardano_ids}
use materios_intent_settleme.Settlement.Fairness.{validate_fairness_proof}
use materios_intent_settleme.Settlement.Threshold.{verify_threshold_signatures}
use materios_intent_settleme.Settlement.Submit.{do_submit_intent}
pub mod Vouchers
pub mod Pending

-- Every pair of ids is compared, the earlier with each later one.
unfoldable pub check_distinct_ids : Error → List ℕ → Result Error (Unit {0})
check_distinct_ids e [] = ok tt
check_distinct_ids e (id ∷ rest) =
    let next = check_distinct_ids e rest in do ensure (not (contains rest id)) e; next

-- `checked_add` over the premiums.
unfoldable pub total_premium : ℕ → List IntentKind → Result Error ℕ
total_premium total [] = ok total
total_premium total (IntentKind.buy_policy _ _ _ premium_ada _ ∷ rest) =
    let next = total_premium (total + premium_ada) rest in
    do ensure (leb (total + premium_ada) u64_max) Error.submit_batch_premium_overflow; next
total_premium total (_ ∷ rest) = total_premium total rest

unfoldable pub submit_entries : Runtime → ℕ → List IntentKind → State → Result Error State
submit_entries rt who [] s = ok s
submit_entries rt who (kind ∷ rest) s = do
  submitted ← do_submit_intent rt who kind s
  submit_entries rt who rest submitted.1

abbrev no_kinds : List IntentKind → Bool
no_kinds [] = true
no_kinds (_ ∷ _) = false

unfoldable pub submit_batch_intents : Runtime → ℕ → List IntentKind → State → Result Error State
unfolding total_premium submit_entries
submit_batch_intents rt who entries s = do
  ensure (not (no_kinds entries)) Error.empty_intent_batch
  let batch_digest = submit_batch_intents_payload rt rt.chain_id entries
  total ← total_premium 0 entries
  s' ← submit_entries rt who entries s
  ok (deposit_event (Event.batch_intents_submitted who (length entries) batch_digest total) s')

-- `hydrated_intents`, with their ids.
unfoldable pub hydrate_intents : List ℕ → State → Result Error (List (ℕ × Intent))
hydrate_intents [] s = ok []
hydrate_intents (id ∷ rest) s =
    let next = hydrate_intents rest s in
    do
      intent ← ok_or (s.intents id) Error.intent_not_found
      ensure (is_pending_or_attested intent.status) Error.intent_status_mismatch
      tail ← next
      ok ((id, intent) ∷ tail)

abbrev pub all_attested : List (ℕ × Intent) → Bool
all_attested [] = true
all_attested ((_, intent) ∷ rest) = is_attested intent.status && all_attested rest

abbrev pub attest_one : ℕ → Intent → List Signature → State → State
attest_one id intent sigs s = deposit_event (Event.intent_attested id (length sigs)) (record s {
  intents = put s.intents id (some (record intent { status = IntentStatus.attested }));
  attestation_sigs = put s.attestation_sigs id (some sigs);
  pending_attestations = put s.pending_attestations id [];
})

-- One entry, with the count of the freshly attested.
abbrev pub attest_entry : ℕ → Intent → List Signature → ℕ → State → Result Error (State × ℕ)
attest_entry id intent sigs fresh s =
    if is_attested intent.status
    then ok (s, fresh)
    else if is_pending intent.status
    then ok (attest_one id intent sigs s, sat_add u32_max fresh 1)
    else err Error.intent_status_mismatch

unfoldable pub attest_entries :
    List (ℕ × Intent) → List Signature → ℕ → State → Result Error (State × ℕ)
attest_entries [] sigs fresh s = ok (s, fresh)
attest_entries ((id, intent) ∷ rest) sigs fresh s = do
  next ← attest_entry id intent sigs fresh s
  attest_entries rest sigs next.1 next.0

abbrev no_ids : List ℕ → Bool
no_ids [] = true
no_ids (_ ∷ _) = false

unfoldable pub attest_batch_intents :
    Runtime → ℕ → List ℕ → List Signature → State → Result Error State
unfolding check_distinct_ids hydrate_intents attest_entries
attest_batch_intents rt who intent_ids signatures s = do
  ensure (rt.is_member who) Error.not_committee_member
  ensure (leb (length signatures) rt.max_committee) Error.too_many_signatures
  ensure (not (no_ids intent_ids)) Error.empty_attest_batch
  let payload = attest_batch_intents_payload rt rt.chain_id intent_ids
  check_distinct_ids Error.duplicate_intent_in_batch intent_ids
  hydrated ← hydrate_intents intent_ids s
  if all_attested hydrated then ok s else (do
    verify_threshold_signatures rt s payload who signatures
    ensure (leb (length signatures) rt.max_committee) Error.too_many_sigs
    attested ← attest_entries hydrated signatures 0 s
    ok (
        deposit_event
          (Event.batch_intents_attested (length intent_ids) attested.1 payload (length signatures))
          attested.0))

-- `get_pending_batches` of the runtime API. The signatures are cut to the static bound of the API's
-- type, `MAX_COMMITTEE`.
abbrev pub max_committee : ℕ
max_committee = 32

pub record BatchPayload : Type 0 where
  pub intent : Intent
  pub intent_id : ℕ
  pub attestation_sigs : List Signature

abbrev pub sigs_or_default : Option (List Signature) → List Signature
sigs_or_default none = []
sigs_or_default (some sigs) = sigs

-- Whether the loop goes on past an id without a result.
abbrev pub is_listed : ℕ → Option Intent → Bool
is_listed since_block none = false
is_listed since_block (some i) = leb since_block i.submitted_block && is_attested i.status

-- The payload of an intent that is there.
abbrev pub payload_of : State → ℕ → Option Intent → List BatchPayload
payload_of s id none = []
payload_of s id (some i) =
    record {
      intent = i;
      intent_id = id;
      attestation_sigs = take max_committee (sigs_or_default (s.attestation_sigs id));
    }
    ∷ []

-- The loop; `count` is the length of what was pushed so far, and the test follows the push.
unfoldable pub pending_from : State → ℕ → ℕ → ℕ → List ℕ → List BatchPayload
pending_from s since_block max_count count [] = []
pending_from s since_block max_count count (id ∷ rest) =
    let i = s.intents id in
    let count' = if is_listed since_block i then count + 1 else count in
    let next = pending_from s since_block max_count count' rest in
    if is_listed since_block i
    then payload_of s id i ++ (if leb max_count (as_u32 count') then [] else next)
    else next

unfoldable pub get_pending_batches : State → ℕ → ℕ → List BatchPayload
unfolding pending_from
get_pending_batches s since_block max_count =
    pending_from s since_block max_count 0 s.pending_batches
