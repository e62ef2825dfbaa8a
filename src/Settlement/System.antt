-- ===== src/Settlement/System.antt =====
-- Histories of the pallet: the dispatchables and the hook of the children, as the calls of blocks
-- (pallets/intent-settlement/src/lib.rs). A call that fails changes nothing: FRAME rolls it back.
use materios_intent_settleme.Common.{
  ℕ, ◌≡◌, ◌⊎◌, inl, inr, Bool, List, [], ◌∷◌, Result, ok, err, Result-cases,
}
use materios_intent_settleme.Settlement.Types.{
  IntentKind, Voucher, BatchFairnessProof, Signature, PoolUtilizationParams, Error,
}
use materios_intent_settleme.Settlement.State.{Runtime, State}
use materios_intent_settleme.Settlement.Submit.{submit_intent, request_credit_refund}
use materios_intent_settleme.Settlement.Attest.{attest_intent}
use materios_intent_settleme.Settlement.Voucher.{request_voucher}
use materios_intent_settleme.Settlement.Settle.{SettleBatchEntry, settle_claim, settle_batch_atomic}
use materios_intent_settleme.Settlement.Expire.{on_initialize, expire_policy_mirror}
use materios_intent_settleme.Settlement.Deposit.{credit_deposit, set_pool_utilization}
use materios_intent_settleme.Settlement.Threshold.{set_min_signer_threshold}
use materios_intent_settleme.Settlement.Cardano.{bind_aegis_policy_v1}
pub mod Untouched
pub mod Coverage
pub mod Records
pub mod Forward
pub mod Advances
pub mod Progress
pub mod Finality

-- Signed calls begin with the account of their origin, root calls with the result of `ensure_root`.
pub data Call : Type 0 where
  submits : ℕ → IntentKind → Call
  attests : ℕ → ℕ → ℕ → ℕ → Call
  mints : ℕ → ℕ → ℕ → Voucher → BatchFairnessProof → List Signature → Call
  asks_refund : ℕ → ℕ → Call
  settles : ℕ → ℕ → ℕ → Bool → List Signature → Call
  settles_batch : ℕ → List SettleBatchEntry → List Signature → Call
  mirrors_expiry : ℕ → ℕ → Call
  deposits : ℕ → ℕ → ℕ → ℕ → List Signature → Call
  sets_pool : Bool → PoolUtilizationParams → Call
  sets_floor : Bool → ℕ → Call
  binds_policy : Bool → ℕ → Call
  -- frame_system enters the block, then the hook runs
  begins_block : ℕ → Call

unfoldable pub dispatch : Runtime → Call → State → Result Error State
dispatch rt (Call.submits who kind) s = submit_intent rt who kind s
dispatch rt (Call.attests who id pubkey sig) s = attest_intent rt who id pubkey sig s
dispatch rt (Call.mints who claim id v proof sigs) s =
    request_voucher rt who claim id v proof sigs s
dispatch rt (Call.asks_refund who amount) s = request_credit_refund rt who amount s
dispatch rt (Call.settles who claim tx direct sigs) s = settle_claim rt who claim tx direct sigs s
dispatch rt (Call.settles_batch who entries sigs) s = settle_batch_atomic rt who entries sigs s
dispatch rt (Call.mirrors_expiry who id) s = expire_policy_mirror rt who id s
dispatch rt (Call.deposits who target amount tx sigs) s =
    credit_deposit rt who target amount tx sigs s
dispatch rt (Call.sets_pool is_root params) s = set_pool_utilization is_root params s
dispatch rt (Call.sets_floor is_root floor) s = set_min_signer_threshold rt is_root floor s
dispatch rt (Call.binds_policy is_root hash) s = bind_aegis_policy_v1 is_root hash s
dispatch rt (Call.begins_block n) s =
    ok (on_initialize n (record s { block_number = n; events = [] }))

abbrev pub after : State → Result Error State → State
after s (ok s') = s'
after s (err e) = s

unfoldable pub step : Runtime → Call → State → State
step rt c s = after s (dispatch rt c s)

unfoldable pub run : Runtime → List Call → State → State
unfolding step
run rt [] s = s
run rt (c ∷ cs) s = run rt cs (step rt c s)

-- What every successful call keeps, a history keeps.
pub step-keeps {ℓ} :
    (P : State → Type ℓ) (rt : Runtime) (c : Call) (s : State)
    → ((s' : State) → dispatch rt c s ≡ ok s' → P s')
    → P s
    → P (step rt c s)
unfolding step
step-keeps P rt c s keep h = elim (Result-cases (dispatch rt c s)) [
  | inl (e, failed) ↦ rw (failed, step) h
  | inr (s', done) ↦ rw (done, step) (keep s' done)
]
