-- ===== src/Settlement/System/Progress.antt =====
-- Intents over whole histories: none is lost or altered, and none goes back.
use materios_intent_settleme.Settlement.System.Advances.{
  Advances, Advances-trans, Advances-of_same, submit_intent-Advances,
  request_credit_refund-Advances, attest_intent-Advances, request_voucher-Advances,
  settle_claim-Advances, settle_batch_atomic-Advances, expire_policy_mirror-Advances,
  on_initialize-Advances, credit_deposit-intents, set_pool_utilization-intents,
  set_min_signer_threshold-intents, bind_aegis_policy_v1-intents,
}
use materios_intent_settleme.Common.{ℕ, ◌≡◌, refl, List, [], ◌∷◌, Option, none, some, ok}
use materios_intent_settleme.Settlement.Types.{Intent}
use materios_intent_settleme.Settlement.State.{Runtime, State}
use materios_intent_settleme.Settlement.Expire.{on_initialize}
use materios_intent_settleme.Settlement.System.Forward.{Follows, Forward, AllForward-refl}
use materios_intent_settleme.Settlement.System.{Call, dispatch, step, run, step-keeps}

pub dispatch-Advances :
    (rt : Runtime) (c : Call) (s s' : State) → dispatch rt c s ≡ ok s' → Advances s s'
unfolding dispatch
dispatch-Advances rt (Call.submits who kind) s s' h = submit_intent-Advances rt who kind s s' h
dispatch-Advances rt (Call.attests who id k g) s s' h = attest_intent-Advances rt who id k g s s' h
dispatch-Advances rt (Call.mints who claim id v proof sigs) s s' h =
    request_voucher-Advances rt who claim id v proof sigs s s' h
dispatch-Advances rt (Call.asks_refund who amount) s s' h =
    request_credit_refund-Advances rt who amount s s' h
dispatch-Advances rt (Call.settles who claim tx direct sigs) s s' h =
    settle_claim-Advances rt who claim tx direct sigs s s' h
dispatch-Advances rt (Call.settles_batch who entries sigs) s s' h =
    settle_batch_atomic-Advances rt who entries sigs s s' h
dispatch-Advances rt (Call.mirrors_expiry who id) s s' h =
    expire_policy_mirror-Advances rt who id s s' h
dispatch-Advances rt (Call.deposits who target amount tx sigs) s s' h =
    Advances-of_same s s' (credit_deposit-intents rt who target amount tx sigs s s' h)
dispatch-Advances rt (Call.sets_pool is_root params) s s' h =
    Advances-of_same s s' (set_pool_utilization-intents is_root params s s' h)
dispatch-Advances rt (Call.sets_floor is_root floor) s s' h =
    Advances-of_same s s' (set_min_signer_threshold-intents rt is_root floor s s' h)
dispatch-Advances rt (Call.binds_policy is_root hash) s s' h =
    Advances-of_same s s' (bind_aegis_policy_v1-intents is_root hash s s' h)
dispatch-Advances rt (Call.begins_block n) s s' h =
    let same : on_initialize n (record s { block_number = n; events = [] }) ≡ s' = cc in
    rw (← same) (on_initialize-Advances n (record s { block_number = n; events = [] }))

run-Advances : (rt : Runtime) (cs : List Call) (s : State) → Advances s (run rt cs s)
unfolding run
run-Advances rt [] s = AllForward-refl s.intents
run-Advances rt (c ∷ cs) s =
    Advances-trans s (step rt c s) (run rt cs (step rt c s))
      (step-keeps (Advances s) rt c s (dispatch-Advances rt c s) (AllForward-refl s.intents))
      (run-Advances rt cs (step rt c s))

pub Forward-some :
    (i : Intent) (o : Option Intent)
    → Forward (some i) o
    → (i' : Intent) × (o ≡ some i') × Follows i i'
Forward-some i none f = absurd f
Forward-some i (some i') f = (i', refl, f)

-- Over any history an intent that was submitted stays in the storage with its submitter, nonce,
-- kind and blocks, and its status never falls back in the order pending, attested, vouchered,
-- refunded, expired, settled.
pub run_keeps_intent :
    (rt : Runtime) (cs : List Call) (s : State) (id : ℕ) (i : Intent)
    → s.intents id ≡ some i
    → (i' : Intent) × ((run rt cs s).intents id ≡ some i') × Follows i i'
run_keeps_intent rt cs s id i e =
    Forward-some i ((run rt cs s).intents id) (rw e at (run-Advances rt cs s id))
