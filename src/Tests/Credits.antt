-- ===== src/Tests/Credits.antt =====
-- The theorems on deposits, expiries and the utilization cap.
use materios_intent_settleme.Common.{
  ℕ, ◌+◌, ◌-◌, ◌≤◌, ◌≡◌, refl, ◌≢◌, true, Bool, some, put, ok, arith, Distinct, u64_max, sat_add,
}
use materios_intent_settleme.Settlement.Types.{IntentKind, IntentStatus}
use materios_intent_settleme.Settlement.State.{State}
use materios_intent_settleme.Settlement.Payloads.{
  account_to_bytes, credit_deposit_payload, compute_intent_id, intent_id_body, domain_hash,
  attest_intent_payload, attest_intent_body,
}
use materios_intent_settleme.Settlement.Threshold.Quorum.{IsQuorum}
use materios_intent_settleme.Settlement.Submit.{
  reserve_credit, submit_intent, do_submit_intent, next_intent_id, new_intent, ttl_block_of,
}
use materios_intent_settleme.Settlement.Submit.Cap.{true_bps, bought_policy_under_cap, cap_bypassed}
use materios_intent_settleme.Settlement.Deposit.Replay.{credit_deposit_effect}
use materios_intent_settleme.Settlement.Expire.{expire_intent, on_initialize}
use materios_intent_settleme.Settlement.Expire.Sweep.{
  due_refunds, buy_policy-expire, on_initialize_refunds,
}
use materios_intent_settleme.Settlement.Attest.{attest_intent}
use materios_intent_settleme.Settlement.System.{run, dispatch}
use materios_intent_settleme.Tests.World.{
  rt, start, kind, id, address, submitted, attested, deposited, deposit_signatures,
}
use materios_intent_settleme.Tests.Runs.{submits, deposits, attested_intent}

credit_deposit_effect_example :
    IsQuorum rt start
      (credit_deposit_payload rt rt.chain_id (account_to_bytes rt 6) 250 99)
      1
      deposit_signatures
    × (start.processed_deposits 6 99 ≡ Bool.false)
    × (deposited.processed_deposits 6 99 ≡ true)
    × (deposited.credits 6 ≡ sat_add u64_max (start.credits 6) 250)
    × (deposited.pool.total_nav_ada ≡ sat_add u64_max start.pool.total_nav_ada 250)
    × ((a : ℕ) → a ≢ 6 → deposited.credits a ≡ start.credits a)
credit_deposit_effect_example =
    credit_deposit_effect rt 1 6 250 99 deposit_signatures start deposited deposits

refund_room : attested.credits 5 + (start.credits 5 - submitted.credits 5) ≤ u64_max
unfolding run dispatch submit_intent do_submit_intent next_intent_id new_intent account_to_bytes
    compute_intent_id intent_id_body domain_hash attest_intent attest_intent_payload
    attest_intent_body
refund_room = ground arith

-- The policy is attested before it expires.
buy_policy-expire_example :
    let u = expire_intent id attested in
    (u.credits 5 ≡ attested.credits 5 + (start.credits 5 - submitted.credits 5))
    × ((a : ℕ) → a ≢ 5 → u.credits a ≡ attested.credits a)
    × (u.intents id ≡ some (record (new_intent rt 5 kind start) { status = IntentStatus.expired }))
buy_policy-expire_example =
    buy_policy-expire rt 5 11 500 20 300 address start submitted attested id IntentStatus.attested
      submits attested_intent refl refund_room

queue-Distinct : Distinct (submitted.expiry_queue 11)
unfolding run dispatch submit_intent do_submit_intent next_intent_id ttl_block_of
queue-Distinct = (refl, tt)

refund_fits :
    submitted.credits 5 + due_refunds 5 submitted.intents (submitted.expiry_queue 11) ≤ u64_max
unfolding run dispatch submit_intent do_submit_intent next_intent_id new_intent ttl_block_of
refund_fits = ground arith

on_initialize_refunds_example :
    (on_initialize 11 submitted).credits 5
    ≡ submitted.credits 5 + due_refunds 5 submitted.intents (submitted.expiry_queue 11)
on_initialize_refunds_example =
    on_initialize_refunds 11 5 submitted (ground arith) queue-Distinct refund_fits

abbrev reserved : State
reserved = record start { credits = put start.credits 5 700 }

reserves : reserve_credit 5 kind start ≡ ok reserved
unfolding reserve_credit
reserves = refl

bought_policy_under_cap_example :
    (true_bps start.pool 300 ≤ start.pool.cap_bps) × (300 ≤ start.credits 5)
bought_policy_under_cap_example =
    bought_policy_under_cap 5 11 500 20 300 address start reserved (ground arith) (ground arith)
      reserves

-- A pool that holds nothing, and an account that holds 2^28 lovelace of credit.
abbrev empty_pool : State
empty_pool = record start {
  credits = λ a. 268435456;
  pool = record start.pool { total_nav_ada = 0 };
}

cap_bypassed_example :
    (reserve_credit 5 (IntentKind.buy_policy 11 500 20 268435456 address) empty_pool
      ≡ ok (record empty_pool { credits = put empty_pool.credits 5 (268435456 - 268435456) }))
    × (true_bps empty_pool.pool 268435456 ≡ 2684354560000)
cap_bypassed_example =
    cap_bypassed 5 11 500 20 268435456 1 address empty_pool (omega arith) refl (ground arith)
      (omega arith)
