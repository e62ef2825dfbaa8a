-- ===== src/Settlement/Solvency/Slashed.antt =====
-- A request that was slashed is never stored again (`store_settlement_request` of
-- pallets/intent-settlement/src/lib.rs).
use materios_intent_settleme.Common.{
  ℕ, ◌≡◌, ◌≢◌, inl, inr, true, ok, arith, Result-cases, some, List,
}
use materios_intent_settleme.Settlement.Evidence.{SettlementRequestRecord, FraudProof}
use materios_intent_settleme.Settlement.Types.{Signature}
use materios_intent_settleme.Settlement.State.{Runtime}
use materios_intent_settleme.Settlement.Currency.{Currency, Chain}
use materios_intent_settleme.Settlement.Payloads.Attested.{settlement_request_id}
use materios_intent_settleme.Settlement.Slash.{slash_bad_settlement_evidence}
use materios_intent_settleme.Settlement.Bonds.{
  remove_expired_settlement_request, store_settlement_request,
}
use materios_intent_settleme.Settlement.Solvency.{SolvencyInv}
use materios_intent_settleme.Settlement.Solvency.Slash.{slash-IsSlashed}

module _ {L : Type 0} (currency : Currency L) (rt : Runtime) where
  remove_expired-marks :
      (id : ℕ) (ch ch' : Chain L)
      → remove_expired_settlement_request currency rt id ch ≡ ok ch'
      → ch'.requests.slashed_settlement_requests ≡ ch.requests.slashed_settlement_requests
  unfolding remove_expired_settlement_request
  remove_expired-marks id ch ch' h = ground arith

  marked_refused :
      (id : ℕ) (q : SettlementRequestRecord) (ch ch' : Chain L)
      → ch.requests.slashed_settlement_requests id (settlement_request_id rt q) ≡ true
      → store_settlement_request currency rt id q ch ≢ ok ch'
  unfolding store_settlement_request
  marked_refused id q ch ch' marked h =
      elim (Result-cases (remove_expired_settlement_request currency rt id ch)) [
        | inl (x, failed) ↦ ground arith
        | inr (cleared, removed) ↦
            let same = remove_expired-marks id ch cleared removed in ground (arith, same)
      ]

  -- Where the bonds are backed, after a slash that succeeds, of the request that a claim had, no
  -- request of the same id is stored for that claim by the next call, whatever bond it names.
  pub slashed_request_refused :
      (who id : ℕ) (proof : FraudProof) (sigs : List Signature) (ch ch' : Chain L)
      (q q' : SettlementRequestRecord) (out : Chain L)
      → SolvencyInv currency rt ch
      → ch.requests.claim_settlement_requests id ≡ some q
      → slash_bad_settlement_evidence currency rt who id proof sigs ch ≡ ok ch'
      → settlement_request_id rt q' ≡ settlement_request_id rt q
      → store_settlement_request currency rt id q' ch' ≢ ok out
  slashed_request_refused who id proof sigs ch ch' q q' out inv e h same =
      let x = slash-IsSlashed currency rt who id proof sigs ch ch' inv h in
      let mine : x.request ≡ q = ground (arith, x.pending) in
      marked_refused id q' ch' out (rw (x.marked, same, ← mine) (ground arith))
