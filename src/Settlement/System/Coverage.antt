-- ===== src/Settlement/System/Coverage.antt =====
-- The coverage over whole histories.
use materios_intent_settleme.Settlement.System.Untouched.{
  IsUntouched, submit_intent-IsUntouched, request_credit_refund-IsUntouched,
  attest_intent-IsUntouched, expire_policy_mirror-IsUntouched, credit_deposit-IsUntouched,
  set_min_signer_threshold-IsUntouched, bind_aegis_policy_v1-IsUntouched, begin_block-IsUntouched,
}
use materios_intent_settleme.Common.{
  All, ap, ◌∙◌, ◌≡◌, refl, Bool, true, false, List, [], ◌∷◌, ok, arith,
}
use materios_intent_settleme.Settlement.Types.{PoolUtilizationParams}
use materios_intent_settleme.Settlement.State.{Runtime, State}
use materios_intent_settleme.Settlement.Expire.{on_initialize}
use materios_intent_settleme.Settlement.Deposit.{set_pool_utilization}
use materios_intent_settleme.Settlement.Coverage.{CoverageInv, total_owed}
use materios_intent_settleme.Settlement.Coverage.Mint.{request_voucher-CoverageInv}
use materios_intent_settleme.Settlement.Coverage.Pay.{settle_claim-CoverageInv}
use materios_intent_settleme.Settlement.Coverage.BatchTotals.{settle_batch_atomic-CoverageInv}
use materios_intent_settleme.Settlement.System.{Call, dispatch, step, run, step-keeps}

pub IsUntouched-CoverageInv : (s s' : State) → IsUntouched s s' → CoverageInv s → CoverageInv s'
IsUntouched-CoverageInv s s' u inv = record {
  ids = inv.ids;
  index = rw u.claims inv.index;
  backed =
      ap (λ claims. total_owed claims inv.ids) u.claims ∙ omega (arith, inv.backed, u.coverage);
  bounded = omega (arith, u.coverage, inv.bounded);
  paired = rw (u.claims, u.vouchers) inv.paired;
}

pub set_pool_utilization-claims :
    (is_root : Bool) (params : PoolUtilizationParams) (s s' : State)
    → set_pool_utilization is_root params s ≡ ok s'
    → (s'.claims ≡ s.claims) × (s'.vouchers ≡ s.vouchers)
unfolding set_pool_utilization
set_pool_utilization-claims is_root params s s' h = (ground arith, ground arith)

-- The calls that write claims, and the root's own setting of the pool.
abbrev is_claim_call : Call → Bool
is_claim_call (Call.mints _ _ _ _ _ _) = true
is_claim_call (Call.settles _ _ _ _ _) = true
is_claim_call (Call.settles_batch _ _ _) = true
is_claim_call _ = false

abbrev pub is_pool_call : Call → Bool
is_pool_call (Call.sets_pool _ _) = true
is_pool_call _ = false

-- All other calls leave the invariant's fields alone.
pub dispatch-IsUntouched :
    (rt : Runtime) (c : Call) (s s' : State)
    → is_claim_call c ≡ false
    → is_pool_call c ≡ false
    → dispatch rt c s ≡ ok s'
    → IsUntouched s s'
unfolding dispatch
dispatch-IsUntouched rt (Call.submits who kind) s s' k l h =
    submit_intent-IsUntouched rt who kind s s' h
dispatch-IsUntouched rt (Call.attests who id pubkey sig) s s' k l h =
    attest_intent-IsUntouched rt who id pubkey sig s s' h
dispatch-IsUntouched rt (Call.mints who claim id v proof sigs) s s' k l h = cc
dispatch-IsUntouched rt (Call.asks_refund who amount) s s' k l h =
    request_credit_refund-IsUntouched rt who amount s s' h
dispatch-IsUntouched rt (Call.settles who claim tx direct sigs) s s' k l h = cc
dispatch-IsUntouched rt (Call.settles_batch who entries sigs) s s' k l h = cc
dispatch-IsUntouched rt (Call.mirrors_expiry who id) s s' k l h =
    expire_policy_mirror-IsUntouched rt who id s s' h
dispatch-IsUntouched rt (Call.deposits who target amount tx sigs) s s' k l h =
    credit_deposit-IsUntouched rt who target amount tx sigs s s' h
dispatch-IsUntouched rt (Call.sets_pool is_root params) s s' k l h = cc
dispatch-IsUntouched rt (Call.sets_floor is_root floor) s s' k l h =
    set_min_signer_threshold-IsUntouched rt is_root floor s s' h
dispatch-IsUntouched rt (Call.binds_policy is_root hash) s s' k l h =
    bind_aegis_policy_v1-IsUntouched is_root hash s s' h
dispatch-IsUntouched rt (Call.begins_block n) s s' k l h =
    let same : on_initialize n (record s { block_number = n; events = [] }) ≡ s' = cc in
    rw (← same) (begin_block-IsUntouched n s)

pub dispatch-CoverageInv :
    (rt : Runtime) (c : Call) (s s' : State)
    → is_pool_call c ≡ false
    → CoverageInv s
    → dispatch rt c s ≡ ok s'
    → CoverageInv s'
unfolding dispatch
dispatch-CoverageInv rt (Call.mints who claim id v proof sigs) s s' l inv h =
    request_voucher-CoverageInv rt who claim id v proof sigs s s' inv h
dispatch-CoverageInv rt (Call.settles who claim tx direct sigs) s s' l inv h =
    settle_claim-CoverageInv rt who claim tx direct sigs s s' inv h
dispatch-CoverageInv rt (Call.settles_batch who entries sigs) s s' l inv h =
    settle_batch_atomic-CoverageInv rt who entries sigs s s' inv h
dispatch-CoverageInv rt c s s' l inv h =
    IsUntouched-CoverageInv s s' (dispatch-IsUntouched rt c s s' refl l h) inv

-- Over any history of calls and blocks in which the root does not set the pool, the coverage
-- counter, if it starts so, stays the sum of what the unsettled claims owe and fits in 64 bits, and
-- claims and vouchers exist under the same ids.
pub run-CoverageInv :
    (rt : Runtime) (cs : List Call) (s : State)
    → All (λ c. is_pool_call c ≡ false) cs
    → CoverageInv s
    → CoverageInv (run rt cs s)
unfolding run
run-CoverageInv rt [] s l inv = inv
run-CoverageInv rt (c ∷ cs) s l inv =
    run-CoverageInv rt cs (step rt c s) l.1
      (step-keeps CoverageInv rt c s (λ s' h. dispatch-CoverageInv rt c s s' l.0 inv h) inv)
