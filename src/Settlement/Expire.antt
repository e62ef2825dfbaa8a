-- ===== src/Settlement/Expire.antt =====
-- The expiry of intents: the sweep at the start of a block and the legacy mirror (`on_initialize`,
-- `expire_policy_mirror`, `ensure_legacy_expire_path_open` of
-- pallets/intent-settlement/src/lib.rs). `who` is the account of the signed origin.
use materios_intent_settleme.Common.{
  ℕ, true, List, [], ◌∷◌, none, some, ◌==◌, ltb, put, if◌then◌else◌, ensure, ok_or, Result, ok,
  ◌>>=◌, ◌>>◌, sat_add, u32_max, u64_max,
}
use Prim.Native.Nat.{min}
use materios_intent_settleme.Settlement.Types.{
  IntentKind, IntentStatus, Intent, ExpiryReason, Error, Event, is_pending_or_attested,
  is_settled_or_expired,
}
use materios_intent_settleme.Settlement.State.{Runtime, State, deposit_event}
use materios_intent_settleme.Settlement.Voucher.{remove_from_pending_batches}
pub mod Sweep

-- Only a bought policy's premium goes back to its submitter.
abbrev refund_premium : IntentKind → ℕ → (ℕ → ℕ) → ℕ → ℕ
refund_premium (IntentKind.buy_policy _ _ _ premium_ada _) submitter credits =
    put credits submitter (sat_add u64_max (credits submitter) premium_ada)
refund_premium _ submitter credits = credits

abbrev expire_found : ℕ → Intent → State → State
expire_found intent_id i s =
    if is_pending_or_attested i.status
    then deposit_event (Event.intent_expired intent_id ExpiryReason.ttl) (
        remove_from_pending_batches intent_id (record s {
          credits = refund_premium i.kind i.submitter s.credits;
          intents = put s.intents intent_id (some (record i { status = IntentStatus.expired }));
        }))
    else s

-- One id of the block's queue.
unfoldable pub expire_intent : ℕ → State → State
expire_intent intent_id s = elim (s.intents intent_id) [
  | none ↦ s
  | some i ↦ expire_found intent_id i s
]

unfoldable pub expire_intents : List ℕ → State → State
unfolding expire_intent
expire_intents [] s = s
expire_intents (id ∷ ids) s = expire_intents ids (expire_intent id s)

-- `ExpiryQueue::take`, then the loop over what it held.
unfoldable pub on_initialize : ℕ → State → State
unfolding expire_intents
on_initialize n s =
    let n_u32 = min n u32_max in
    expire_intents (s.expiry_queue n_u32) (record s { expiry_queue = put s.expiry_queue n_u32 [] })

unfoldable pub ensure_legacy_expire_path_open : State → Result Error (Unit {0})
ensure_legacy_expire_path_open s =
    if s.policy_expire_cutover_block == 0
    then ensure (ltb s.settlement_storage_version 2) Error.deprecated_extrinsic
    else ensure (ltb s.block_number s.policy_expire_cutover_block) Error.deprecated_extrinsic

unfoldable pub expire_policy_mirror : Runtime → ℕ → ℕ → State → Result Error State
unfolding ensure_legacy_expire_path_open
expire_policy_mirror rt who intent_id s = do
  ensure_legacy_expire_path_open s
  ensure (rt.is_member who) Error.not_committee_member
  intent ← ok_or (s.intents intent_id) Error.unknown_policy
  ok (
      if is_settled_or_expired intent.status
      then s
      else deposit_event (Event.intent_expired intent_id ExpiryReason.policy_expired_on_cardano)
          (record (remove_from_pending_batches intent_id s) {
            intents =
                put s.intents intent_id (some (record intent { status = IntentStatus.expired }));
            pre_audit_expiry = put s.pre_audit_expiry intent_id true;
          }))
