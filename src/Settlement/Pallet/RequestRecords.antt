-- ===== src/Settlement/Pallet/RequestRecords.antt =====
-- What the calls on settlement requests and bonds leave of the pallet's records of deposits, of the
-- Cardano identity and of attestations (pallets/intent-settlement/src/lib.rs).
use materios_intent_settleme.Common.{
  ℕ, ◌≡◌, inl, inr, Bool, List, [], ◌∷◌, ok, arith, Result-cases, Option-cases,
}
use materios_intent_settleme.Settlement.Types.{Signature}
use materios_intent_settleme.Settlement.Evidence.{
  SettlementEvidence, SettleAttestedBatchEntry, SettlementRequestRecord, FraudProof,
}
use materios_intent_settleme.Settlement.State.{Runtime}
use materios_intent_settleme.Settlement.Currency.{Currency, Chain}
use materios_intent_settleme.Settlement.Bonds.{
  discard_settlement_request, store_settlement_request, reserve_settlement_bond,
  remove_expired_settlement_request, refund_settlement_bond,
}
use materios_intent_settleme.Settlement.Attested.{
  supersede_settlement_request, request_settle, request_entries, request_batch_settle,
}
use materios_intent_settleme.Settlement.Slash.{
  post_settlement_bond, slash_bad_settlement_evidence, release_settlement_bond,
}
use materios_intent_settleme.Settlement.System.Records.{KeepsRecords, KeepsRecords-trans}

module _ {L : Type 0} (currency : Currency L) (rt : Runtime) where
  discard-KeepsRecords :
      (id : ℕ) (q : SettlementRequestRecord) (ch ch' : Chain L)
      → discard_settlement_request currency rt id q ch ≡ ok ch'
      → KeepsRecords ch.pallet ch'.pallet
  unfolding discard_settlement_request
  discard-KeepsRecords id q ch ch' h = ground arith

  remove_expired-KeepsRecords :
      (id : ℕ) (ch ch' : Chain L)
      → remove_expired_settlement_request currency rt id ch ≡ ok ch'
      → KeepsRecords ch.pallet ch'.pallet
  unfolding remove_expired_settlement_request
  remove_expired-KeepsRecords id ch ch' h =
      elim (Option-cases (ch.requests.claim_settlement_requests id)) [
        | inl e ↦ ground arith
        | inr (q, e) ↦ discard-KeepsRecords id q ch ch' (ground arith)
      ]

  reserve-KeepsRecords :
      (id who amount : ℕ) (ch ch' : Chain L)
      → reserve_settlement_bond currency rt id who amount ch ≡ ok ch'
      → KeepsRecords ch.pallet ch'.pallet
  unfolding reserve_settlement_bond
  reserve-KeepsRecords id who amount ch ch' h = ground arith

  store-KeepsRecords :
      (id : ℕ) (q : SettlementRequestRecord) (ch ch' : Chain L)
      → store_settlement_request currency rt id q ch ≡ ok ch'
      → KeepsRecords ch.pallet ch'.pallet
  unfolding store_settlement_request
  store-KeepsRecords id q ch ch' h =
      elim (Result-cases (remove_expired_settlement_request currency rt id ch)) [
        | inl (x, failed) ↦ ground arith
        | inr (t, removed) ↦
            elim (Result-cases
              (reserve_settlement_bond currency rt id q.requester q.bond_amount t)) [
                | inl (x, failed) ↦ ground arith
                | inr (u, reserved) ↦
                    KeepsRecords-trans ch.pallet t.pallet ch'.pallet
                      (remove_expired-KeepsRecords id ch t removed)
                      (KeepsRecords-trans t.pallet u.pallet ch'.pallet
                        (reserve-KeepsRecords id q.requester q.bond_amount t u reserved)
                        (ground arith))
              ]
      ]

  pub request_settle-KeepsRecords :
      (who id tx : ℕ) (direct : Bool) (evidence : SettlementEvidence) (bond : ℕ) (ch ch' : Chain L)
      → request_settle currency rt who id tx direct evidence bond ch ≡ ok ch'
      → KeepsRecords ch.pallet ch'.pallet
  unfolding request_settle
  request_settle-KeepsRecords who id tx direct evidence bond ch ch' h =
      let q : SettlementRequestRecord = record {
        requester = who;
        evidence = evidence;
        settled_direct = direct;
        submitted_block = ch.pallet.block_number;
        bond_amount = bond;
      } in
      elim (Result-cases (store_settlement_request currency rt id q ch)) [
        | inl (x, failed) ↦ ground arith
        | inr (t, stored) ↦
            KeepsRecords-trans ch.pallet t.pallet ch'.pallet (store-KeepsRecords id q ch t stored)
              (ground arith)
      ]

  request_entries-KeepsRecords :
      (who now bond : ℕ) (entries : List SettleAttestedBatchEntry) (ch ch' : Chain L)
      → request_entries currency rt who now bond entries ch ≡ ok ch'
      → KeepsRecords ch.pallet ch'.pallet
  unfolding request_entries
  request_entries-KeepsRecords who now bond [] ch ch' h = ground arith
  request_entries-KeepsRecords who now bond (e ∷ rest) ch ch' h =
      let q : SettlementRequestRecord = record {
        requester = who;
        evidence = e.evidence;
        settled_direct = e.settled_direct;
        submitted_block = now;
        bond_amount = bond;
      } in
      elim (Result-cases (store_settlement_request currency rt e.claim_id q ch)) [
        | inl (x, failed) ↦ ground arith
        | inr (t, stored) ↦
            KeepsRecords-trans ch.pallet t.pallet ch'.pallet
              (store-KeepsRecords e.claim_id q ch t stored)
              (request_entries-KeepsRecords who now bond rest t ch' (ground arith))
      ]

  pub request_batch_settle-KeepsRecords :
      (who : ℕ) (entries : List SettleAttestedBatchEntry) (bond : ℕ) (ch ch' : Chain L)
      → request_batch_settle currency rt who entries bond ch ≡ ok ch'
      → KeepsRecords ch.pallet ch'.pallet
  unfolding request_batch_settle
  request_batch_settle-KeepsRecords who entries bond ch ch' h =
      elim (Result-cases (request_entries currency rt who ch.pallet.block_number bond entries ch)) [
        | inl (x, failed) ↦ ground arith
        | inr (t, done) ↦
            KeepsRecords-trans ch.pallet t.pallet ch'.pallet
              (request_entries-KeepsRecords who _ bond entries ch t done) (ground arith)
      ]

  pub supersede-KeepsRecords :
      (who id : ℕ) (direct : Bool) (evidence : SettlementEvidence) (sigs : List Signature)
      (ch ch' : Chain L)
      → supersede_settlement_request currency rt who id direct evidence sigs ch ≡ ok ch'
      → KeepsRecords ch.pallet ch'.pallet
  unfolding supersede_settlement_request
  supersede-KeepsRecords who id direct evidence sigs ch ch' h =
      elim (Option-cases (ch.requests.claim_settlement_requests id)) [
        | inl missing ↦ ground arith
        | inr (q, e) ↦ elim (Result-cases (discard_settlement_request currency rt id q ch)) [
          | inl (x, failed) ↦ ground arith
          | inr (t, done) ↦
              KeepsRecords-trans ch.pallet t.pallet ch'.pallet (discard-KeepsRecords id q ch t done)
                (ground arith)
        ]
      ]

  pub post_settlement_bond-KeepsRecords :
      (who id amount : ℕ) (ch ch' : Chain L)
      → post_settlement_bond currency rt who id amount ch ≡ ok ch'
      → KeepsRecords ch.pallet ch'.pallet
  unfolding post_settlement_bond
  post_settlement_bond-KeepsRecords who id amount ch ch' h =
      elim (Result-cases (reserve_settlement_bond currency rt id who amount ch)) [
        | inl (x, failed) ↦ ground arith
        | inr (t, done) ↦
            KeepsRecords-trans ch.pallet t.pallet ch'.pallet
              (reserve-KeepsRecords id who amount ch t done) (ground arith)
      ]

  pub slash-KeepsRecords :
      (who id : ℕ) (proof : FraudProof) (sigs : List Signature) (ch ch' : Chain L)
      → slash_bad_settlement_evidence currency rt who id proof sigs ch ≡ ok ch'
      → KeepsRecords ch.pallet ch'.pallet
  unfolding slash_bad_settlement_evidence
  slash-KeepsRecords who id proof sigs ch ch' h = ground arith

  refund-KeepsRecords :
      (id who amount : ℕ) (ch ch' : Chain L)
      → refund_settlement_bond currency rt id who amount ch ≡ ok ch'
      → KeepsRecords ch.pallet ch'.pallet
  unfolding refund_settlement_bond
  refund-KeepsRecords id who amount ch ch' h = ground arith

  pub release-KeepsRecords :
      (id : ℕ) (ch ch' : Chain L)
      → release_settlement_bond currency rt id ch ≡ ok ch'
      → KeepsRecords ch.pallet ch'.pallet
  unfolding release_settlement_bond
  release-KeepsRecords id ch ch' h = elim (Option-cases (ch.requests.bonded_claim_attested_at id)) [
    | inl e ↦ remove_expired-KeepsRecords id ch ch' (ground arith)
    | inr (n, e) ↦ elim (Option-cases (ch.requests.bonded_claim_requester id)) [
      | inl missing ↦ ground arith
      | inr (held, f) ↦ refund-KeepsRecords id held.0 held.1 ch ch' (ground arith)
    ]
  ]
