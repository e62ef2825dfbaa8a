-- ===== src/Settlement/Pallet.antt =====
-- Histories of the whole pallet: the calls of `System` on the pallet's own storage, the batched
-- calls, and the calls that use settlement and expiry requests and the currency
-- (pallets/intent-settlement/src/lib.rs). A call that fails changes nothing: FRAME rolls it back,
-- the currency's storage too.
use materios_intent_settleme.Common.{
  ℕ, ◌≡◌, inl, inr, Bool, List, [], ◌∷◌, Result, ok, err, ◌>>=◌, Result-cases,
}
use materios_intent_settleme.Settlement.Evidence.{
  SettlementEvidence, FraudProof, SettleAttestedBatchEntry, ExpiryEvidence,
}
use materios_intent_settleme.Settlement.Types.{IntentKind, Signature, Error}
use materios_intent_settleme.Settlement.State.{Runtime, State}
use materios_intent_settleme.Settlement.Currency.{Currency, Chain}
use materios_intent_settleme.Settlement.System.{Call, dispatch}
use materios_intent_settleme.Settlement.Batches.{submit_batch_intents, attest_batch_intents}
use materios_intent_settleme.Settlement.Batches.Vouchers.{
  RequestVoucherEntry, request_batch_vouchers,
}
use materios_intent_settleme.Settlement.Attested.{
  on_pallet, attest_settle, request_settle, supersede_settlement_request, request_batch_settle,
}
use materios_intent_settleme.Settlement.Attested.Batch.{attest_batch_settle}
use materios_intent_settleme.Settlement.Slash.{
  post_settlement_bond, slash_bad_settlement_evidence, release_settlement_bond,
}
use materios_intent_settleme.Settlement.PolicyExpiry.{request_expire_policy, attest_expire_policy}
pub mod Advance
pub mod Batched
pub mod BatchAttest
pub mod BatchMint
pub mod Attested
pub mod Refine
pub mod Kept
pub mod Records
pub mod RequestRecords
pub mod Recorded
pub mod BatchRecorded
pub mod Lasting
pub mod Histories

pub data PalletCall : Type 0 where
  calls : Call → PalletCall
  submits_batch : ℕ → List IntentKind → PalletCall
  attests_batch : ℕ → List ℕ → List Signature → PalletCall
  mints_batch : ℕ → List RequestVoucherEntry → List Signature → PalletCall
  requests_settle : ℕ → ℕ → ℕ → Bool → SettlementEvidence → ℕ → PalletCall
  attests_settle : ℕ → ℕ → List Signature → PalletCall
  supersedes : ℕ → ℕ → Bool → SettlementEvidence → List Signature → PalletCall
  requests_batch_settle : ℕ → List SettleAttestedBatchEntry → ℕ → PalletCall
  attests_batch_settle : ℕ → List ℕ → List Signature → PalletCall
  requests_expiry : ℕ → ℕ → ℕ → ExpiryEvidence → PalletCall
  attests_expiry : ℕ → ℕ → List Signature → PalletCall
  posts_bond : ℕ → ℕ → ℕ → PalletCall
  slashes : ℕ → ℕ → FraudProof → List Signature → PalletCall
  releases_bond : ℕ → PalletCall

-- A call that writes the pallet's own storage alone.
abbrev pub lift : {L : Type 0} → Result Error State → Chain L → Result Error (Chain L)
lift r ch = do s ← r; ok (on_pallet s ch)

abbrev pub after_call : {L : Type 0} → Chain L → Result Error (Chain L) → Chain L
after_call ch (ok ch') = ch'
after_call ch (err e) = ch

module _ {L : Type 0} (currency : Currency L) (rt : Runtime) where
  unfoldable pub dispatch_call : PalletCall → Chain L → Result Error (Chain L)
  dispatch_call (PalletCall.calls c) ch = lift (dispatch rt c ch.pallet) ch
  dispatch_call (PalletCall.submits_batch who entries) ch =
      lift (submit_batch_intents rt who entries ch.pallet) ch
  dispatch_call (PalletCall.attests_batch who ids sigs) ch =
      lift (attest_batch_intents rt who ids sigs ch.pallet) ch
  dispatch_call (PalletCall.mints_batch who entries sigs) ch =
      lift (request_batch_vouchers rt who entries sigs ch.pallet) ch
  dispatch_call (PalletCall.requests_settle who id tx direct evidence bond) ch =
      request_settle currency rt who id tx direct evidence bond ch
  dispatch_call (PalletCall.attests_settle who id sigs) ch = attest_settle rt who id sigs ch
  dispatch_call (PalletCall.supersedes who id direct evidence sigs) ch =
      supersede_settlement_request currency rt who id direct evidence sigs ch
  dispatch_call (PalletCall.requests_batch_settle who entries bond) ch =
      request_batch_settle currency rt who entries bond ch
  dispatch_call (PalletCall.attests_batch_settle who ids sigs) ch =
      attest_batch_settle rt who ids sigs ch
  dispatch_call (PalletCall.requests_expiry who id tx evidence) ch =
      request_expire_policy rt who id tx evidence ch
  dispatch_call (PalletCall.attests_expiry who id sigs) ch = attest_expire_policy rt who id sigs ch
  dispatch_call (PalletCall.posts_bond who id amount) ch =
      post_settlement_bond currency rt who id amount ch
  dispatch_call (PalletCall.slashes who id proof sigs) ch =
      slash_bad_settlement_evidence currency rt who id proof sigs ch
  dispatch_call (PalletCall.releases_bond id) ch = release_settlement_bond currency rt id ch

  unfoldable pub step_call : PalletCall → Chain L → Chain L
  step_call c ch = after_call ch (dispatch_call c ch)

  unfoldable pub run_calls : List PalletCall → Chain L → Chain L
  unfolding step_call
  run_calls [] ch = ch
  run_calls (c ∷ cs) ch = run_calls cs (step_call c ch)

  pub step_call-keeps {ℓ} :
      (P : Chain L → Type ℓ) (c : PalletCall) (ch : Chain L)
      → ((ch' : Chain L) → dispatch_call c ch ≡ ok ch' → P ch')
      → P ch
      → P (step_call c ch)
  unfolding step_call
  step_call-keeps P c ch keep h = elim (Result-cases (dispatch_call c ch)) [
    | inl (e, failed) ↦ rw (failed, step_call) h
    | inr (ch', done) ↦ rw (done, step_call) (keep ch' done)
  ]
