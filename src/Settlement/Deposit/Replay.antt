-- ===== src/Settlement/Deposit/Replay.antt =====
-- A Cardano deposit is credited once.
use materios_intent_settleme.Common.{
  ℕ, ◌≤◌, ◌≡◌, ◌≢◌, true, Bool, List, ok, err, arith, length, u64_max, sat_add,
}
use materios_intent_settleme.Settlement.Types.{Signature, Error}
use materios_intent_settleme.Settlement.State.{Runtime, State}
use materios_intent_settleme.Settlement.Payloads.{account_to_bytes, credit_deposit_payload}
use materios_intent_settleme.Settlement.Threshold.Quorum.{IsQuorum, verify_threshold_signatures_iff}
use materios_intent_settleme.Settlement.Deposit.{credit_deposit}

-- A deposit that succeeds was not processed before and had a quorum over its target, amount and
-- transaction; it raises the target's credit and the pool's net asset value by the amount, up to
-- the bound of 64 bits, leaves every other credit alone, and is processed from then on.
pub credit_deposit_effect :
    (rt : Runtime) (who target amount tx : ℕ) (signatures : List Signature) (s s' : State)
    → credit_deposit rt who target amount tx signatures s ≡ ok s'
    → IsQuorum rt s
        (credit_deposit_payload rt rt.chain_id (account_to_bytes rt target) amount tx)
        who
        signatures
      × (s.processed_deposits target tx ≡ Bool.false)
      × (s'.processed_deposits target tx ≡ true)
      × (s'.credits target ≡ sat_add u64_max (s.credits target) amount)
      × (s'.pool.total_nav_ada ≡ sat_add u64_max s.pool.total_nav_ada amount)
      × ((a : ℕ) → a ≢ target → s'.credits a ≡ s.credits a)
unfolding credit_deposit
credit_deposit_effect rt who target amount tx signatures s s' h = (
  (verify_threshold_signatures_iff rt s _ who signatures).0 (ground arith),
  ground arith,
  ground arith,
  ground arith,
  ground arith,
  λ a ne. ground arith,
)

-- A deposit that was processed is refused as processed, whichever member brings it again, with
-- whatever amount and whatever signatures, as long as they are no more than the committee may have.
pub credit_deposit_replayed :
    (rt : Runtime) (who target amount tx : ℕ) (signatures : List Signature) (s : State)
    → s.processed_deposits target tx ≡ true
    → rt.is_member who ≡ true
    → length signatures ≤ rt.max_committee
    → credit_deposit rt who target amount tx signatures s ≡ err Error.deposit_already_processed
unfolding credit_deposit
credit_deposit_replayed rt who target amount tx signatures s done member fits = ground arith
