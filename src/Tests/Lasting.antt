-- ===== src/Tests/Lasting.antt =====
-- The theorems on what lasts over any history of the whole pallet.
use materios_intent_settleme.Common.{ℕ, ◌≡◌, ◌≢◌, refl, true, List, [], ◌∷◌, some, ok, err, arith}
use materios_intent_settleme.Settlement.Types.{CardanoIdentity, Error}
use materios_intent_settleme.Settlement.State.{State}
use materios_intent_settleme.Settlement.Currency.{Chain}
use materios_intent_settleme.Settlement.Payloads.Batched.{attest_batch_intents_payload}
use materios_intent_settleme.Settlement.Cardano.{cardano_ids, bind_aegis_policy_v1}
use materios_intent_settleme.Settlement.Deposit.{credit_deposit}
use materios_intent_settleme.Settlement.System.{Call}
use materios_intent_settleme.Settlement.Pallet.{PalletCall, run_calls}
use materios_intent_settleme.Settlement.Pallet.Lasting.{run_calls_credit_once, run_calls_bound_once}
use materios_intent_settleme.Tests.World.{
  rt, start, id, deposited, deposit_signatures, bound, quorum, attestation,
}
use materios_intent_settleme.Tests.Runs.{deposits, binds}
use materios_intent_settleme.Tests.Ledger.{Ledger, currency}
use materios_intent_settleme.Tests.Bonded.{chain, request_call}

abbrev on : State → Chain Ledger
on s = record chain { pallet = s }

-- A single attestation, then one of a batch, and a new block.
abbrev history : List PalletCall
history =
    PalletCall.calls (attestation 1)
    ∷ PalletCall.attests_batch 1 (id ∷ [])
        (quorum (attest_batch_intents_payload rt rt.chain_id (id ∷ [])))
    ∷ PalletCall.calls (Call.begins_block 2)
    ∷ request_call
    ∷ []

run_calls_credit_once_example :
    credit_deposit rt 2 6 300 99 [] (run_calls currency rt history (on deposited)).pallet
    ≡ err Error.deposit_already_processed
run_calls_credit_once_example =
    run_calls_credit_once currency rt 1 6 250 99 deposit_signatures start (on deposited) history 2
      300 [] deposits refl (omega arith)

abbrev script : ℕ
script = 12

run_calls_bound_once_example :
    let t = (run_calls currency rt history (on bound)).pallet in
    (true ≡ true)
    × (script ≢ 0)
    × ((ids : CardanoIdentity) × (start.cardano_ids ≡ some ids)
        × (ids.aegis_policy_v1_script_hash ≡ 0)
        × (cardano_ids t ≡ ok (record ids { aegis_policy_v1_script_hash = 12 })))
    × ((hash' : ℕ)
        → hash' ≢ 0
        → bind_aegis_policy_v1 true hash' t ≡ err Error.aegis_policy_v1_already_bound)
run_calls_bound_once_example =
    run_calls_bound_once currency rt true 12 start (on bound) history binds
