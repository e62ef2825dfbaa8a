-- ===== src/Settlement/Attest.antt =====
-- One committee member's signature toward the attestation of an intent (`attest_intent` of
-- pallets/intent-settlement/src/lib.rs). `who` is the account of the signed origin.
use materios_intent_settleme.Common.{
  ℕ, List, [], ◌∷◌, ◌++◌, ◌==◌, ltb, leb, not, if◌then◌else◌, some, put, ensure, ok_or, Result, ok,
  ◌>>=◌, ◌>>◌, length, any,
}
use materios_intent_settleme.Settlement.Types.{
  Signature, IntentStatus, Intent, Error, Event, is_pending,
}
use materios_intent_settleme.Settlement.State.{Runtime, State, deposit_event}
use materios_intent_settleme.Settlement.Payloads.{attest_intent_payload}
pub mod Bundles

-- The intent is read anew when its bundle has reached the threshold.
unfoldable pub cross_threshold : ℕ → List Signature → State → Result Error State
cross_threshold intent_id bundle s = do
  intent ← ok_or (s.intents intent_id) Error.intent_not_found
  ok (
      if is_pending intent.status
      then deposit_event (Event.intent_attested intent_id (length bundle)) (record s {
        intents = put s.intents intent_id (some (record intent { status = IntentStatus.attested }));
        attestation_sigs = put s.attestation_sigs intent_id (some bundle);
        pending_attestations = put s.pending_attestations intent_id [];
      })
      else s)

unfoldable pub add_attestation : Runtime → ℕ → Signature → State → Result Error State
unfolding cross_threshold
add_attestation rt intent_id (pubkey, sig) s = do
  let bundle = s.pending_attestations intent_id
  ensure (not (any (λ e. e.0 == pubkey) bundle)) Error.duplicate_pubkey
  ensure (rt.verify pubkey sig (attest_intent_payload rt rt.chain_id intent_id))
      Error.invalid_signature
  ensure (ltb (length bundle) rt.max_committee) Error.too_many_sigs
  let grown = bundle ++ (pubkey, sig) ∷ []
  let s' = record s { pending_attestations = put s.pending_attestations intent_id grown }
  if leb rt.threshold (length grown) then cross_threshold intent_id grown s' else ok s'

unfoldable pub attest_intent : Runtime → ℕ → ℕ → ℕ → ℕ → State → Result Error State
unfolding add_attestation
attest_intent rt who intent_id pubkey sig s = do
  ensure (rt.is_member who) Error.not_committee_member
  ensure (rt.pubkey_of who == pubkey) Error.caller_pubkey_mismatch
  intent ← ok_or (s.intents intent_id) Error.intent_not_found
  if is_pending intent.status then add_attestation rt intent_id (pubkey, sig) s else ok s
