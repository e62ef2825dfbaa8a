-- ===== src/Settlement/Deposit.antt =====
-- Credits from Cardano deposits, and the root's pool parameters (`credit_deposit`,
-- `set_pool_utilization` of pallets/intent-settlement/src/lib.rs). `who` is the account of the
-- signed origin, `is_root` the result of `ensure_root`.
use materios_intent_settleme.Common.{
  ℕ, Bool, true, List, not, leb, put, put₂, ensure, Result, ok, ◌>>=◌, ◌>>◌, length, sat_add,
  u64_max,
}
use materios_intent_settleme.Settlement.Types.{Signature, PoolUtilizationParams, Error, Event}
use materios_intent_settleme.Settlement.State.{Runtime, State, deposit_event}
use materios_intent_settleme.Settlement.Payloads.{account_to_bytes, credit_deposit_payload}
use materios_intent_settleme.Settlement.Threshold.{verify_threshold_signatures}
pub mod Replay

-- The writes of a deposit that is new and signed.
unfoldable apply_deposit : ℕ → ℕ → ℕ → State → State
apply_deposit target amount_ada cardano_tx_hash s =
    deposit_event (Event.credits_credited target amount_ada cardano_tx_hash) (record s {
      processed_deposits = put₂ s.processed_deposits target cardano_tx_hash true;
      credits = put s.credits target (sat_add u64_max (s.credits target) amount_ada);
      pool = record s.pool { total_nav_ada = sat_add u64_max s.pool.total_nav_ada amount_ada };
    })

unfoldable pub credit_deposit :
    Runtime → ℕ → ℕ → ℕ → ℕ → List Signature → State → Result Error State
unfolding apply_deposit
credit_deposit rt who target amount_ada cardano_tx_hash signatures s = do
  ensure (rt.is_member who) Error.not_committee_member
  ensure (leb (length signatures) rt.max_committee) Error.too_many_signatures
  ensure (not (s.processed_deposits target cardano_tx_hash)) Error.deposit_already_processed
  verify_threshold_signatures rt s
      (credit_deposit_payload rt rt.chain_id (account_to_bytes rt target) amount_ada
        cardano_tx_hash)
      who signatures
  ok (apply_deposit target amount_ada cardano_tx_hash s)

unfoldable pub set_pool_utilization : Bool → PoolUtilizationParams → State → Result Error State
set_pool_utilization is_root params s = do
  ensure is_root Error.bad_origin
  ok (
      deposit_event
        (Event.pool_utilization_updated params.total_nav_ada params.outstanding_coverage_ada)
        (record s { pool = params }))
