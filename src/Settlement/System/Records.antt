-- ===== src/Settlement/System/Records.antt =====
-- What the calls on the pallet's own storage do to its records of deposits, of the Cardano identity
-- and of attestations (pallets/intent-settlement/src/lib.rs).
use materios_intent_settleme.Common.{
  ℕ, ◌≡◌, ◌∙◌, inl, inr, Bool, List, [], ◌∷◌, ok, arith, Result-cases, put, u32_max,
}
use Prim.Native.Nat.{min}
use materios_intent_settleme.Settlement.Types.{
  IntentKind, Signature, Voucher, BatchFairnessProof, Claim, PoolUtilizationParams,
}
use materios_intent_settleme.Settlement.State.{Runtime, State}
use materios_intent_settleme.Settlement.Submit.{
  do_submit_intent, submit_intent, request_credit_refund,
}
use materios_intent_settleme.Settlement.Voucher.{request_voucher}
use materios_intent_settleme.Settlement.Settle.{
  SettleBatchEntry, settle_entry, settle_entries, settle_claim, settle_batch_atomic, hydrate,
}
use materios_intent_settleme.Settlement.Expire.{
  expire_intent, expire_intents, on_initialize, expire_policy_mirror,
}
use materios_intent_settleme.Settlement.Deposit.{set_pool_utilization}
use materios_intent_settleme.Settlement.Threshold.{set_min_signer_threshold}

-- The deposits, the identity and the bundles of attestations are the same in both states.
pub record KeepsRecords (s s' : State) : Type 0 where
  pub deposits : s'.processed_deposits ≡ s.processed_deposits
  pub identity : s'.cardano_ids ≡ s.cardano_ids
  pub collected : s'.pending_attestations ≡ s.pending_attestations
  pub stored : s'.attestation_sigs ≡ s.attestation_sigs

pub KeepsRecords-trans : (s t u : State) → KeepsRecords s t → KeepsRecords t u → KeepsRecords s u
KeepsRecords-trans s t u x y = record {
  deposits = y.deposits ∙ x.deposits;
  identity = y.identity ∙ x.identity;
  collected = y.collected ∙ x.collected;
  stored = y.stored ∙ x.stored;
}

pub do_submit_intent-KeepsRecords :
    (rt : Runtime) (who : ℕ) (kind : IntentKind) (s : State) (id : ℕ) (s' : State)
    → do_submit_intent rt who kind s ≡ ok (id, s')
    → KeepsRecords s s'
unfolding do_submit_intent
do_submit_intent-KeepsRecords rt who (IntentKind.buy_policy a b c d e) s id s' h = ground arith
do_submit_intent-KeepsRecords rt who kind s id s' h = ground arith

pub submit_intent-KeepsRecords :
    (rt : Runtime) (who : ℕ) (kind : IntentKind) (s s' : State)
    → submit_intent rt who kind s ≡ ok s'
    → KeepsRecords s s'
unfolding submit_intent
submit_intent-KeepsRecords rt who kind s s' h =
    elim (Result-cases (do_submit_intent rt who kind s)) [
      | inl (e, failed) ↦ ground arith
      | inr ((id, t), done) ↦ ground (arith, do_submit_intent-KeepsRecords rt who kind s id t done)
    ]

pub request_credit_refund-KeepsRecords :
    (rt : Runtime) (who amount : ℕ) (s s' : State)
    → request_credit_refund rt who amount s ≡ ok s'
    → KeepsRecords s s'
unfolding request_credit_refund
request_credit_refund-KeepsRecords rt who amount s s' h =
    elim (Result-cases (do_submit_intent rt who (IntentKind.refund_credit amount) s)) [
      | inl (e, failed) ↦ ground arith
      | inr ((id, t), done) ↦ ground (arith, do_submit_intent-KeepsRecords rt who _ s id t done)
    ]

pub request_voucher-KeepsRecords :
    (rt : Runtime) (who claim_id id : ℕ) (v : Voucher) (proof : BatchFairnessProof)
    (sigs : List Signature) (s s' : State)
    → request_voucher rt who claim_id id v proof sigs s ≡ ok s'
    → KeepsRecords s s'
unfolding request_voucher
request_voucher-KeepsRecords rt who claim_id id v proof sigs s s' h = ground arith

pub settle_claim-KeepsRecords :
    (rt : Runtime) (who claim_id tx : ℕ) (direct : Bool) (sigs : List Signature) (s s' : State)
    → settle_claim rt who claim_id tx direct sigs s ≡ ok s'
    → KeepsRecords s s'
unfolding settle_claim
settle_claim-KeepsRecords rt who claim_id tx direct sigs s s' h = ground arith

pub settle_entries-KeepsRecords :
    (pairs : List (SettleBatchEntry × Claim)) (total direct : ℕ) (s : State)
    → KeepsRecords s (settle_entries pairs total direct s).0
unfolding settle_entries
settle_entries-KeepsRecords [] total direct s = ground arith
settle_entries-KeepsRecords ((e, c) ∷ rest) total direct s =
    let t = settle_entry e.claim_id c e.cardano_tx_hash e.settled_direct s in
    KeepsRecords-trans s t _ (ground arith) (settle_entries-KeepsRecords rest _ _ t)

pub settle_batch_atomic-KeepsRecords :
    (rt : Runtime) (who : ℕ) (entries : List SettleBatchEntry) (sigs : List Signature)
    (s s' : State)
    → settle_batch_atomic rt who entries sigs s ≡ ok s'
    → KeepsRecords s s'
unfolding settle_batch_atomic
settle_batch_atomic-KeepsRecords rt who entries sigs s s' h =
    elim (Result-cases (hydrate entries s)) [
      | inl (e, failed) ↦ ground arith
      | inr (pairs, read) ↦ ground (arith, settle_entries-KeepsRecords pairs 0 0 s)
    ]

pub expire_intents-KeepsRecords : (ids : List ℕ) (s : State) → KeepsRecords s (expire_intents ids s)
unfolding expire_intents
expire_intents-KeepsRecords [] s = ground arith
expire_intents-KeepsRecords (id ∷ ids) s =
    KeepsRecords-trans s (expire_intent id s) _ (expire_intent-KeepsRecords id s)
      (expire_intents-KeepsRecords ids (expire_intent id s))
  where
    expire_intent-KeepsRecords : (id : ℕ) (s : State) → KeepsRecords s (expire_intent id s)
    expire_intent-KeepsRecords id s = ground arith

pub on_initialize-KeepsRecords : (n : ℕ) (s : State) → KeepsRecords s (on_initialize n s)
unfolding on_initialize
on_initialize-KeepsRecords n s =
    let n_u32 = min n u32_max in
    let t = record s { expiry_queue = put s.expiry_queue n_u32 [] } in
    KeepsRecords-trans s t _ (ground arith) (expire_intents-KeepsRecords (s.expiry_queue n_u32) t)

pub expire_policy_mirror-KeepsRecords :
    (rt : Runtime) (who id : ℕ) (s s' : State)
    → expire_policy_mirror rt who id s ≡ ok s'
    → KeepsRecords s s'
unfolding expire_policy_mirror
expire_policy_mirror-KeepsRecords rt who id s s' h = ground arith

pub set_pool_utilization-KeepsRecords :
    (is_root : Bool) (params : PoolUtilizationParams) (s s' : State)
    → set_pool_utilization is_root params s ≡ ok s'
    → KeepsRecords s s'
unfolding set_pool_utilization
set_pool_utilization-KeepsRecords is_root params s s' h = ground arith

pub set_min_signer_threshold-KeepsRecords :
    (rt : Runtime) (is_root : Bool) (floor : ℕ) (s s' : State)
    → set_min_signer_threshold rt is_root floor s ≡ ok s'
    → KeepsRecords s s'
unfolding set_min_signer_threshold
set_min_signer_threshold-KeepsRecords rt is_root floor s s' h = ground arith
