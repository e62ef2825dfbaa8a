-- ===== src/Settlement/Bonds.antt =====
-- Settlement requests and their bonds (`request_expired`, `remove_expired_settlement_request`,
-- `discard_settlement_request`, `store_settlement_request`, `reserve_settlement_bond`,
-- `refund_settlement_bond` of pallets/intent-settlement/src/lib.rs).
use materios_intent_settleme.Common.{
  ℕ, ◌-◌, Bool, Option, none, some, ◌&&◌, ltb, leb, not, put, if◌then◌else◌, ensure, ok_or, Result,
  ok, ◌>>=◌, ◌>>◌,
}
use materios_intent_settleme.Settlement.Evidence.{SettlementRequestRecord}
use materios_intent_settleme.Settlement.Types.{Error, Event}
use materios_intent_settleme.Settlement.State.{Runtime, State}
use materios_intent_settleme.Settlement.Currency.{Currency, Chain, emit}
use materios_intent_settleme.Settlement.Payloads.Attested.{settlement_request_id}

unfoldable pub request_expired : Runtime → State → ℕ → Bool
request_expired rt s submitted = ltb rt.settlement_request_ttl (s.block_number - submitted)

abbrev pub put_request : {L : Type 0} → ℕ → Option SettlementRequestRecord → Chain L → Chain L
put_request claim_id o ch = record ch {
  requests = record ch.requests {
    claim_settlement_requests = put ch.requests.claim_settlement_requests claim_id o;
  };
}

-- The two records of a bond whose claim is attested.
abbrev pub put_bonded : {L : Type 0} → ℕ → Option ℕ → Option (ℕ × ℕ) → Chain L → Chain L
put_bonded claim_id attested_at requester ch = record ch {
  requests = record ch.requests {
    bonded_claim_attested_at = put ch.requests.bonded_claim_attested_at claim_id attested_at;
    bonded_claim_requester = put ch.requests.bonded_claim_requester claim_id requester;
  };
}

-- The event of a shortfall, where there is one.
abbrev pub emit_deficit : {L : Type 0} → ℕ → ℕ → ℕ → Chain L → Chain L
emit_deficit claim_id requester missing ch =
    if ltb 0 missing
    then emit (Event.settlement_bond_reserve_deficit claim_id requester missing) ch
    else ch

module _ {L : Type 0} (currency : Currency L) (rt : Runtime) where
  open currency use {reserve_named, unreserve_named}

  unfoldable pub reserve_settlement_bond : ℕ → ℕ → ℕ → Chain L → Result Error (Chain L)
  reserve_settlement_bond claim_id requester amount ch = do
    ensure (ltb 0 amount && leb rt.min_settlement_bond amount) Error.bond_below_minimum
    ensure (leb amount rt.balance_max) Error.bond_amount_conversion_overflow
    ledger' ← ok_or (reserve_named requester amount ch.ledger) Error.currency_error
    ok (
        emit (Event.settlement_bond_posted claim_id requester amount)
          (record ch { ledger = ledger' }))

  -- The writes of a refund, on what the currency returned.
  abbrev pub refunded : ℕ → ℕ → ℕ → ℕ × L → Chain L → Chain L
  refunded claim_id requester bond_amount (missing, ledger') ch =
      emit (Event.settlement_bond_released claim_id requester (bond_amount - missing)) (
        put_bonded claim_id none none
          (emit_deficit claim_id requester missing (record ch { ledger = ledger' })))

  unfoldable pub refund_settlement_bond : ℕ → ℕ → ℕ → Chain L → Result Error (Chain L)
  refund_settlement_bond claim_id requester bond_amount ch = do
    ensure (leb bond_amount rt.balance_max) Error.bond_amount_conversion_overflow
    ok (
        refunded claim_id requester bond_amount (unreserve_named requester bond_amount ch.ledger)
          ch)

  unfoldable pub discard_settlement_request :
      ℕ → SettlementRequestRecord → Chain L → Result Error (Chain L)
  unfolding refund_settlement_bond
  discard_settlement_request claim_id request ch = do
    ch' ←
        if ltb 0 request.bond_amount
        then refund_settlement_bond claim_id request.requester request.bond_amount ch
        else ok ch
    ok (put_request claim_id none ch')

  unfoldable pub remove_expired_settlement_request : ℕ → Chain L → Result Error (Chain L)
  unfolding discard_settlement_request
  remove_expired_settlement_request claim_id ch =
      elim (ch.requests.claim_settlement_requests claim_id) [
        | none ↦ ok ch
        | some request ↦ do
          ensure (request_expired rt ch.pallet request.submitted_block)
              Error.settlement_request_already_exists
          discard_settlement_request claim_id request ch
      ]

  unfoldable pub store_settlement_request :
      ℕ → SettlementRequestRecord → Chain L → Result Error (Chain L)
  unfolding remove_expired_settlement_request reserve_settlement_bond
  store_settlement_request claim_id request ch = do
    cleared ← remove_expired_settlement_request claim_id ch
    ensure
        (not (
          cleared.requests.slashed_settlement_requests claim_id (settlement_request_id rt request)))
        Error.bond_slashed_no_release
    bonded ← reserve_settlement_bond claim_id request.requester request.bond_amount cleared
    ok (put_request claim_id (some request) bonded)
