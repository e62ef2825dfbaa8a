-- ===== src/Settlement/Pallet/Recorded.antt =====
-- The records of deposits, of the identity and of attestations through each call on the pallet's own
-- storage (pallets/intent-settlement/src/lib.rs).
use materios_intent_settleme.Common.{ℕ, ◌∙◌, ◌≡◌, ◌≢◌, Bool, true, List, [], some, ok, arith}
use materios_intent_settleme.Settlement.Types.{Signature, CardanoIdentity}
use materios_intent_settleme.Settlement.State.{Runtime, State}
use materios_intent_settleme.Settlement.Attest.{attest_intent}
use materios_intent_settleme.Settlement.Attest.Bundles.{BundlesInv, attest_intent-BundlesInv}
use materios_intent_settleme.Settlement.Deposit.{credit_deposit}
use materios_intent_settleme.Settlement.Cardano.{bind_aegis_policy_v1}
use materios_intent_settleme.Settlement.Expire.{on_initialize}
use materios_intent_settleme.Settlement.System.{Call, dispatch}
use materios_intent_settleme.Settlement.System.Records.{
  KeepsRecords, KeepsRecords-trans, submit_intent-KeepsRecords, request_credit_refund-KeepsRecords,
  request_voucher-KeepsRecords, settle_claim-KeepsRecords, settle_batch_atomic-KeepsRecords,
  on_initialize-KeepsRecords, expire_policy_mirror-KeepsRecords, set_pool_utilization-KeepsRecords,
  set_min_signer_threshold-KeepsRecords,
}

-- A processed deposit stays processed, a bound identity stays, well-formed bundles stay well-formed.
pub record IsRecorded (rt : Runtime) (s s' : State) : Type 0 where
  pub deposits :
      (target tx : ℕ)
      → s.processed_deposits target tx ≡ true
      → s'.processed_deposits target tx ≡ true
  pub identity :
      (ids : CardanoIdentity)
      → s.cardano_ids ≡ some ids
      → ids.aegis_policy_v1_script_hash ≢ 0
      → s'.cardano_ids ≡ some ids
  pub bundles : BundlesInv rt s → BundlesInv rt s'

pub IsRecorded-refl : (rt : Runtime) (s : State) → IsRecorded rt s s
IsRecorded-refl rt s = record {
  deposits = λ target tx p. p;
  identity = λ ids e bound. e;
  bundles = λ inv. inv;
}

pub IsRecorded-trans :
    (rt : Runtime) (s t u : State) → IsRecorded rt s t → IsRecorded rt t u → IsRecorded rt s u
IsRecorded-trans rt s t u x y = record {
  deposits = λ target tx p. y.deposits target tx (x.deposits target tx p);
  identity = λ ids e bound. y.identity ids (x.identity ids e bound) bound;
  bundles = λ inv. y.bundles (x.bundles inv);
}

pub BundlesInv-kept :
    (rt : Runtime) (s s' : State)
    → s'.pending_attestations ≡ s.pending_attestations
    → s'.attestation_sigs ≡ s.attestation_sigs
    → BundlesInv rt s
    → BundlesInv rt s'
BundlesInv-kept rt s s' c b inv = record {
  collected = rw c inv.collected;
  stored = rw b inv.stored;
}

pub IsRecorded-kept : (rt : Runtime) (s s' : State) → KeepsRecords s s' → IsRecorded rt s s'
IsRecorded-kept rt s s' x = record {
  deposits = λ target tx p. rw x.deposits p;
  identity = λ ids e bound. x.identity ∙ e;
  bundles = BundlesInv-kept rt s s' x.collected x.stored;
}

attest_intent-IsRecorded :
    (rt : Runtime) (who id pubkey sig : ℕ) (s s' : State)
    → attest_intent rt who id pubkey sig s ≡ ok s'
    → IsRecorded rt s s'
unfolding attest_intent
attest_intent-IsRecorded rt who id pubkey sig s s' h = record {
  deposits = λ target tx p. ground arith;
  identity = λ ids e bound. ground arith;
  bundles = λ inv. attest_intent-BundlesInv rt who id pubkey sig s s' inv h;
}

credit_deposit-IsRecorded :
    (rt : Runtime) (who target amount tx : ℕ) (sigs : List Signature) (s s' : State)
    → credit_deposit rt who target amount tx sigs s ≡ ok s'
    → IsRecorded rt s s'
unfolding credit_deposit
credit_deposit-IsRecorded rt who target amount tx sigs s s' h = record {
  deposits = λ t x p. ground arith;
  identity = λ ids e bound. ground arith;
  bundles = BundlesInv-kept rt s s' (ground arith) (ground arith);
}

bind_aegis_policy_v1-IsRecorded :
    (rt : Runtime) (is_root : Bool) (hash : ℕ) (s s' : State)
    → bind_aegis_policy_v1 is_root hash s ≡ ok s'
    → IsRecorded rt s s'
unfolding bind_aegis_policy_v1
bind_aegis_policy_v1-IsRecorded rt is_root hash s s' h = record {
  deposits = λ t x p. ground arith;
  identity = λ ids e bound. ground arith;
  bundles = BundlesInv-kept rt s s' (ground arith) (ground arith);
}

pub dispatch-IsRecorded :
    (rt : Runtime) (c : Call) (s s' : State) → dispatch rt c s ≡ ok s' → IsRecorded rt s s'
unfolding dispatch
dispatch-IsRecorded rt (Call.submits who kind) s s' h =
    IsRecorded-kept rt s s' (submit_intent-KeepsRecords rt who kind s s' h)
dispatch-IsRecorded rt (Call.attests who id pubkey sig) s s' h =
    attest_intent-IsRecorded rt who id pubkey sig s s' h
dispatch-IsRecorded rt (Call.mints who claim id v proof sigs) s s' h =
    IsRecorded-kept rt s s' (request_voucher-KeepsRecords rt who claim id v proof sigs s s' h)
dispatch-IsRecorded rt (Call.asks_refund who amount) s s' h =
    IsRecorded-kept rt s s' (request_credit_refund-KeepsRecords rt who amount s s' h)
dispatch-IsRecorded rt (Call.settles who claim tx direct sigs) s s' h =
    IsRecorded-kept rt s s' (settle_claim-KeepsRecords rt who claim tx direct sigs s s' h)
dispatch-IsRecorded rt (Call.settles_batch who entries sigs) s s' h =
    IsRecorded-kept rt s s' (settle_batch_atomic-KeepsRecords rt who entries sigs s s' h)
dispatch-IsRecorded rt (Call.mirrors_expiry who id) s s' h =
    IsRecorded-kept rt s s' (expire_policy_mirror-KeepsRecords rt who id s s' h)
dispatch-IsRecorded rt (Call.deposits who target amount tx sigs) s s' h =
    credit_deposit-IsRecorded rt who target amount tx sigs s s' h
dispatch-IsRecorded rt (Call.sets_pool is_root params) s s' h =
    IsRecorded-kept rt s s' (set_pool_utilization-KeepsRecords is_root params s s' h)
dispatch-IsRecorded rt (Call.sets_floor is_root floor) s s' h =
    IsRecorded-kept rt s s' (set_min_signer_threshold-KeepsRecords rt is_root floor s s' h)
dispatch-IsRecorded rt (Call.binds_policy is_root hash) s s' h =
    bind_aegis_policy_v1-IsRecorded rt is_root hash s s' h
dispatch-IsRecorded rt (Call.begins_block n) s s' h =
    let t : State = record s { block_number = n; events = [] } in
    let result : s' ≡ on_initialize n t = ground arith in
    rw result (
      IsRecorded-kept rt s (on_initialize n t) (
        KeepsRecords-trans s t (on_initialize n t) (ground arith) (on_initialize-KeepsRecords n t)))
