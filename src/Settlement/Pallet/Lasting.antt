-- ===== src/Settlement/Pallet/Lasting.antt =====
-- What lasts over any history of the whole pallet: processed deposits, the bound identity and the
-- bundles of attestations (pallets/intent-settlement/src/lib.rs).
use materios_intent_settleme.Common.{
  ℕ, ◌≤◌, ◌≡◌, ◌≢◌, Bool, true, List, [], ◌∷◌, some, ok, err, arith, length, Result,
}
use materios_intent_settleme.Settlement.Types.{Signature, CardanoIdentity, Error}
use materios_intent_settleme.Settlement.State.{Runtime, State}
use materios_intent_settleme.Settlement.Currency.{Currency, Chain}
use materios_intent_settleme.Settlement.Deposit.{credit_deposit}
use materios_intent_settleme.Settlement.Deposit.Replay.{
  credit_deposit_effect, credit_deposit_replayed,
}
use materios_intent_settleme.Settlement.Cardano.{
  bind_aegis_policy_v1, bind_aegis_policy_v1_effect, cardano_ids,
}
use materios_intent_settleme.Settlement.Pallet.{
  PalletCall, lift, dispatch_call, step_call, run_calls, step_call-keeps,
}
use materios_intent_settleme.Settlement.Pallet.Kept.{lift-ok}
use materios_intent_settleme.Settlement.Pallet.Records.{
  submit_batch_intents-KeepsRecords, request_batch_vouchers-KeepsRecords,
  attest_settle-KeepsRecords, request_expire_policy-KeepsRecords, attest_expire_policy-KeepsRecords,
  attest_batch_settle-KeepsRecords,
}
use materios_intent_settleme.Settlement.Pallet.Recorded.{
  IsRecorded, IsRecorded-refl, IsRecorded-trans, IsRecorded-kept, dispatch-IsRecorded,
}
use materios_intent_settleme.Settlement.Pallet.RequestRecords.{
  request_settle-KeepsRecords, request_batch_settle-KeepsRecords, supersede-KeepsRecords,
  post_settlement_bond-KeepsRecords, slash-KeepsRecords, release-KeepsRecords,
}
use materios_intent_settleme.Settlement.Pallet.BatchRecorded.{attest_batch_intents-IsRecorded}

lifted-IsRecorded :
    {L : Type 0} (rt : Runtime) (r : Result Error State) (ch ch' : Chain L)
    → lift r ch ≡ ok ch'
    → ((s : State) → r ≡ ok s → IsRecorded rt ch.pallet s)
    → IsRecorded rt ch.pallet ch'.pallet
lifted-IsRecorded rt r ch ch' h recorded = let x = lift-ok r ch ch' h in rw x.2 (recorded x.0 x.1)

module _ {L : Type 0} (currency : Currency L) (rt : Runtime) where
  dispatch_call-IsRecorded :
      (c : PalletCall) (ch ch' : Chain L)
      → dispatch_call currency rt c ch ≡ ok ch'
      → IsRecorded rt ch.pallet ch'.pallet
  unfolding dispatch_call
  dispatch_call-IsRecorded (PalletCall.calls c) ch ch' h =
      lifted-IsRecorded rt _ ch ch' h (dispatch-IsRecorded rt c ch.pallet)
  dispatch_call-IsRecorded (PalletCall.submits_batch who entries) ch ch' h =
      lifted-IsRecorded rt _ ch ch' h λ s done.
        IsRecorded-kept rt ch.pallet s
          (submit_batch_intents-KeepsRecords rt who entries ch.pallet s done)
  dispatch_call-IsRecorded (PalletCall.attests_batch who ids sigs) ch ch' h =
      lifted-IsRecorded rt _ ch ch' h (attest_batch_intents-IsRecorded rt who ids sigs ch.pallet)
  dispatch_call-IsRecorded (PalletCall.mints_batch who entries sigs) ch ch' h =
      lifted-IsRecorded rt _ ch ch' h λ s done.
        IsRecorded-kept rt ch.pallet s
          (request_batch_vouchers-KeepsRecords rt who entries sigs ch.pallet s done)
  dispatch_call-IsRecorded (PalletCall.requests_settle who id tx direct evidence bond) ch ch' h =
      IsRecorded-kept rt ch.pallet ch'.pallet
        (request_settle-KeepsRecords currency rt who id tx direct evidence bond ch ch' h)
  dispatch_call-IsRecorded (PalletCall.attests_settle who id sigs) ch ch' h =
      IsRecorded-kept rt ch.pallet ch'.pallet (attest_settle-KeepsRecords rt who id sigs ch ch' h)
  dispatch_call-IsRecorded (PalletCall.supersedes who id direct evidence sigs) ch ch' h =
      IsRecorded-kept rt ch.pallet ch'.pallet
        (supersede-KeepsRecords currency rt who id direct evidence sigs ch ch' h)
  dispatch_call-IsRecorded (PalletCall.requests_batch_settle who entries bond) ch ch' h =
      IsRecorded-kept rt ch.pallet ch'.pallet
        (request_batch_settle-KeepsRecords currency rt who entries bond ch ch' h)
  dispatch_call-IsRecorded (PalletCall.attests_batch_settle who ids sigs) ch ch' h =
      IsRecorded-kept rt ch.pallet ch'.pallet
        (attest_batch_settle-KeepsRecords rt who ids sigs ch ch' h)
  dispatch_call-IsRecorded (PalletCall.requests_expiry who id tx evidence) ch ch' h =
      IsRecorded-kept rt ch.pallet ch'.pallet
        (request_expire_policy-KeepsRecords rt who id tx evidence ch ch' h)
  dispatch_call-IsRecorded (PalletCall.attests_expiry who id sigs) ch ch' h =
      IsRecorded-kept rt ch.pallet ch'.pallet
        (attest_expire_policy-KeepsRecords rt who id sigs ch ch' h)
  dispatch_call-IsRecorded (PalletCall.posts_bond who id amount) ch ch' h =
      IsRecorded-kept rt ch.pallet ch'.pallet
        (post_settlement_bond-KeepsRecords currency rt who id amount ch ch' h)
  dispatch_call-IsRecorded (PalletCall.slashes who id proof sigs) ch ch' h =
      IsRecorded-kept rt ch.pallet ch'.pallet
        (slash-KeepsRecords currency rt who id proof sigs ch ch' h)
  dispatch_call-IsRecorded (PalletCall.releases_bond id) ch ch' h =
      IsRecorded-kept rt ch.pallet ch'.pallet (release-KeepsRecords currency rt id ch ch' h)

  run_calls-IsRecorded :
      (cs : List PalletCall) (ch : Chain L)
      → IsRecorded rt ch.pallet (run_calls currency rt cs ch).pallet
  unfolding run_calls
  run_calls-IsRecorded [] ch = IsRecorded-refl rt ch.pallet
  run_calls-IsRecorded (c ∷ cs) ch =
      let next = step_call currency rt c ch in
      IsRecorded-trans rt ch.pallet next.pallet (run_calls currency rt cs next).pallet
        (step_call-keeps currency rt (λ t. IsRecorded rt ch.pallet t.pallet) c ch
          (λ t h. dispatch_call-IsRecorded c ch t h) (IsRecorded-refl rt ch.pallet))
        (run_calls-IsRecorded cs next)

  -- A deposit that was credited is refused ever after: after any history of the pallet's calls and
  -- blocks, a member that brings the same transaction for the same target again, with whatever
  -- amount and whatever signatures, no more than the committee may have, gets an error that says it
  -- was processed.
  pub run_calls_credit_once :
      (who target amount tx : ℕ) (signatures : List Signature) (s : State) (ch : Chain L)
      (cs : List PalletCall) (who' amount' : ℕ) (signatures' : List Signature)
      → credit_deposit rt who target amount tx signatures s ≡ ok ch.pallet
      → rt.is_member who' ≡ true
      → length signatures' ≤ rt.max_committee
      → credit_deposit rt who' target amount' tx signatures' (run_calls currency rt cs ch).pallet
        ≡ err Error.deposit_already_processed
  run_calls_credit_once who target amount tx signatures s ch cs who' amount' signatures' h member
        fits =
      let credited = credit_deposit_effect rt who target amount tx signatures s ch.pallet h in
      credit_deposit_replayed rt who' target amount' tx signatures'
        (run_calls currency rt cs ch).pallet
        ((run_calls-IsRecorded cs ch).deposits target tx credited.2) member fits

  -- A binding that succeeds came from root, named a hash other than 0 and found an identity without
  -- one. After any history of the pallet's calls and blocks, that identity with the new hash serves
  -- the pallet's calls, on mainnet too, and a root call that names any hash other than 0 fails as
  -- already bound.
  pub run_calls_bound_once :
      (is_root : Bool) (hash : ℕ) (s : State) (ch : Chain L) (cs : List PalletCall)
      → bind_aegis_policy_v1 is_root hash s ≡ ok ch.pallet
      → let t = (run_calls currency rt cs ch).pallet in
        (is_root ≡ true)
        × (hash ≢ 0)
        × ((ids : CardanoIdentity) × (s.cardano_ids ≡ some ids)
            × (ids.aegis_policy_v1_script_hash ≡ 0)
            × (cardano_ids t ≡ ok (record ids { aegis_policy_v1_script_hash = hash })))
        × ((hash' : ℕ)
            → hash' ≢ 0
            → bind_aegis_policy_v1 true hash' t ≡ err Error.aegis_policy_v1_already_bound)
  unfolding bind_aegis_policy_v1 cardano_ids
  run_calls_bound_once is_root hash s ch cs h =
      let (root, nonzero, ids, was, unbound, now) =
        bind_aegis_policy_v1_effect is_root hash s ch.pallet h in
      let later = (run_calls-IsRecorded cs ch).identity _ now nonzero in
      (root, nonzero, (ids, was, unbound, ground arith), λ hash' other. ground arith)
