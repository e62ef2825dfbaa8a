-- ===== src/Settlement/Slash.antt =====
-- Bonds by their own calls (`post_settlement_bond`, `slash_bad_settlement_evidence`,
-- `release_settlement_bond` of pallets/intent-settlement/src/lib.rs). `who` is the account of the
-- signed origin.
use materios_intent_settleme.Common.{
  ℕ, ◌-◌, ◌/◌, Bool, true, List, none, some, ◌==◌, ltb, leb, not, put₂, if◌then◌else◌, ensure,
  ok_or, Result, ok, ◌>>=◌, ◌>>◌, length, sat_mul, u128_max,
}
use Prim.Native.Nat.{min}
use materios_intent_settleme.Settlement.Evidence.{SettlementRequestRecord, FraudProof}
use materios_intent_settleme.Settlement.Types.{Signature, Error, Event}
use materios_intent_settleme.Settlement.State.{Runtime}
use materios_intent_settleme.Settlement.Currency.{Currency, Chain, emit}
use materios_intent_settleme.Settlement.Payloads.Attested.{
  settlement_request_id, slash_bad_settlement_evidence_payload,
}
use materios_intent_settleme.Settlement.Threshold.{effective_threshold, verify_threshold_signatures}
use materios_intent_settleme.Settlement.Bonds.{
  request_expired, put_request, emit_deficit, reserve_settlement_bond, refund_settlement_bond,
  remove_expired_settlement_request,
}

-- A proof alleges something else than the request's evidence says.
unfoldable pub alleges : FraudProof → SettlementRequestRecord → Bool
alleges (FraudProof.wrong_amount actual_lovelace) request =
    not (actual_lovelace == request.evidence.amount_lovelace)
alleges (FraudProof.wrong_beneficiary actual_payment_hash) request =
    not (actual_payment_hash == request.evidence.beneficiary_addr_hash)
alleges FraudProof.tx_not_found request = true

unfoldable pub watcher_share : Runtime → ℕ → ℕ
watcher_share rt bond = sat_mul u128_max bond (min rt.slash_watcher_share_bps 10000) / 10000

module _ {L : Type 0} (currency : Currency L) (rt : Runtime) where
  open currency use {repatriate_reserved_named}

  unfoldable pub post_settlement_bond : ℕ → ℕ → ℕ → Chain L → Result Error (Chain L)
  unfolding request_expired reserve_settlement_bond
  post_settlement_bond who claim_id amount ch = do
    request ←
        ok_or (ch.requests.claim_settlement_requests claim_id) Error.settlement_request_missing
    ensure (not (request_expired rt ch.pallet request.submitted_block))
        Error.settlement_request_expired
    ensure (request.requester == who) Error.not_requester
    ensure (request.bond_amount == 0) Error.bond_already_reserved
    ensure (elim (ch.pallet.claims claim_id) [ none ↦ true | some c ↦ not c.is_settled ])
        Error.request_already_attested
    bonded ← reserve_settlement_bond currency rt claim_id who amount ch
    ok (put_request claim_id (some (record request { bond_amount = amount })) bonded)

  -- The closure `repatriate`: what was moved, and the ledger.
  unfoldable pub repatriate : ℕ → ℕ → ℕ → L → Result Error (ℕ × L)
  repatriate requester beneficiary share ledger = if share == 0 then ok (0, ledger) else (do
    moved ←
        ok_or (repatriate_reserved_named requester beneficiary share ledger) Error.currency_error
    ok (share - moved.0, moved.1))

  -- The end of a slash: the deficit, the tombstone, the request's removal, the event.
  abbrev pub slashed : ℕ → ℕ → SettlementRequestRecord → FraudProof → ℕ → ℕ → L → Chain L → Chain L
  slashed who claim_id request fraud_proof watcher_paid treasury_paid ledger' ch =
      let told =
        emit_deficit claim_id request.requester (request.bond_amount - watcher_paid - treasury_paid)
          (record ch { ledger = ledger' }) in
      emit
        (Event.settlement_bond_slashed claim_id request.requester who watcher_paid treasury_paid
          fraud_proof)
        (put_request claim_id none (record told {
          requests = record told.requests {
            slashed_settlement_requests =
                put₂ told.requests.slashed_settlement_requests claim_id
                  (settlement_request_id rt request) true;
          };
        }))

  unfoldable pub slash_bad_settlement_evidence :
      ℕ → ℕ → FraudProof → List Signature → Chain L → Result Error (Chain L)
  unfolding request_expired effective_threshold repatriate alleges watcher_share
  slash_bad_settlement_evidence who claim_id fraud_proof signatures ch = do
    ensure (rt.is_member who) Error.not_committee_member
    ensure (leb (length signatures) rt.max_committee) Error.too_many_signatures
    ensure (leb (effective_threshold rt ch.pallet) (length signatures))
        Error.fraud_threshold_not_met
    request ←
        ok_or (ch.requests.claim_settlement_requests claim_id) Error.settlement_request_missing
    ensure (not (request_expired rt ch.pallet request.submitted_block))
        Error.settlement_request_expired
    ensure (ltb 0 request.bond_amount) Error.bond_not_reserved
    ensure (alleges fraud_proof request) Error.fraud_proof_invalid
    verify_threshold_signatures rt ch.pallet
        (slash_bad_settlement_evidence_payload rt rt.chain_id claim_id request fraud_proof) who
        signatures
    let bond = request.bond_amount
    let for_watcher = watcher_share rt bond
    let for_treasury = bond - for_watcher
    ensure (leb for_watcher rt.balance_max) Error.bond_amount_conversion_overflow
    ensure (leb for_treasury rt.balance_max) Error.bond_amount_conversion_overflow
    watcher_paid ← repatriate request.requester who for_watcher ch.ledger
    treasury_paid ← repatriate request.requester rt.treasury_account for_treasury watcher_paid.1
    ok (slashed who claim_id request fraud_proof watcher_paid.0 treasury_paid.0 treasury_paid.1 ch)

  unfoldable pub release_settlement_bond : ℕ → Chain L → Result Error (Chain L)
  unfolding request_expired remove_expired_settlement_request refund_settlement_bond
  release_settlement_bond claim_id ch = elim (ch.requests.bonded_claim_attested_at claim_id) [
    | none ↦ do
      request ← ok_or (ch.requests.claim_settlement_requests claim_id) Error.bond_not_reserved
      ensure (ltb 0 request.bond_amount) Error.bond_not_reserved
      ensure (request_expired rt ch.pallet request.submitted_block) Error.bond_release_too_early
      remove_expired_settlement_request currency rt claim_id ch
    | some attested_at ↦ do
      held ← ok_or (ch.requests.bonded_claim_requester claim_id) Error.bond_not_reserved
      ensure (leb rt.bond_release_delay_blocks (ch.pallet.block_number - attested_at))
          Error.bond_release_too_early
      refund_settlement_bond currency rt claim_id held.0 held.1 ch
  ]
