-- ===== src/Settlement/Attested/Gate.antt =====
-- What an attested settlement rests on (`attest_settle` of
-- pallets/intent-settlement/src/lib.rs).
use materios_intent_settleme.Common.{
  ℕ, ◌≡◌, inl, inr, false, true, List, some, ok, arith, Option-cases, Result-cases,
}
use materios_intent_settleme.Settlement.Evidence.{SettlementRequestRecord}
use materios_intent_settleme.Settlement.Types.{Signature, Claim, Voucher, CardanoIdentity}
use materios_intent_settleme.Settlement.State.{Runtime}
use materios_intent_settleme.Settlement.Currency.{Chain}
use materios_intent_settleme.Settlement.Payloads.{voucher_digest}
use materios_intent_settleme.Settlement.Payloads.Attested.{
  BatchAttestEntryBytes, settle_claim_attested_payload,
}
use materios_intent_settleme.Settlement.Cardano.{cardano_ids}
use materios_intent_settleme.Settlement.Settle.{settled_claim}
use materios_intent_settleme.Settlement.Threshold.Quorum.{IsQuorum, verify_threshold_signatures_iff}
use materios_intent_settleme.Settlement.Bonds.{request_expired}
use materios_intent_settleme.Settlement.Attested.{payment_hash, attest_settle}

-- The settlement that the committee signs, from the pending request and the chain's own data.
abbrev pub bytes_of :
    ℕ → SettlementRequestRecord → Claim → CardanoIdentity → ℕ → ℕ → BatchAttestEntryBytes
bytes_of id q c cardano digest payment = record {
  claim_id = id;
  voucher_digest = digest;
  cardano_tx_hash = q.evidence.cardano_tx_hash;
  settled_direct = q.settled_direct;
  beneficiary_hash = payment;
  amount_ada = c.amount_ada;
  depth = q.evidence.observed_at_depth;
  slot = q.evidence.observed_slot;
  mc_genesis = cardano.mainchain_genesis_hash;
}

pub record IsAttestedSettlement {L : Type 0} (rt : Runtime) (who id : ℕ) (sigs : List Signature)
    (ch ch' : Chain L) : Type 0 where
  pub request : SettlementRequestRecord
  pub claim : Claim
  pub v : Voucher
  pub cardano : CardanoIdentity
  pub digest : ℕ
  pub payment : ℕ
  pub member : rt.is_member who ≡ true
  pub pending : ch.requests.claim_settlement_requests id ≡ some request
  pub fresh : request_expired rt ch.pallet request.submitted_block ≡ false
  pub was : ch.pallet.claims id ≡ some claim
  pub was_open : claim.is_settled ≡ false
  pub minted : ch.pallet.vouchers id ≡ some v
  pub network : cardano_ids ch.pallet ≡ ok cardano
  pub hashed : voucher_digest rt cardano v ≡ ok digest
  pub paid_to : payment_hash v ≡ ok payment
  pub quorum :
      IsQuorum rt ch.pallet
        (settle_claim_attested_payload rt rt.chain_id
          (bytes_of id request claim cardano digest payment))
        who
        sigs
  pub settled :
      ch'.pallet.claims id
      ≡ some (settled_claim claim request.evidence.cardano_tx_hash request.settled_direct)

-- An attestation that succeeds comes from a member, over a request that is pending and within its
-- time to live, of a claim that is open and has a voucher. The bundle is a quorum over the digest
-- of the request's transaction, depth, slot and mode with the chain's own voucher digest, payment
-- hash, amount and mainchain genesis hash. The claim is then settled by the request's transaction
-- and mode.
pub attest_settle-IsAttestedSettlement :
    {L : Type 0} (rt : Runtime) (who id : ℕ) (sigs : List Signature) (ch ch' : Chain L)
    → attest_settle rt who id sigs ch ≡ ok ch'
    → IsAttestedSettlement rt who id sigs ch ch'
unfolding attest_settle
attest_settle-IsAttestedSettlement rt who id sigs ch ch' h =
    elim (Option-cases (ch.requests.claim_settlement_requests id)) [
      | inl missing ↦ ground arith
      | inr (q, e) ↦ elim (Option-cases (ch.pallet.claims id)) [
        | inl missing ↦ ground arith
        | inr (c, f) ↦ elim (Option-cases (ch.pallet.vouchers id)) [
          | inl missing ↦ ground arith
          | inr (v, g) ↦ elim (Result-cases (cardano_ids ch.pallet)) [
            | inl (x, failed) ↦ ground arith
            | inr (cardano, n) ↦ elim (Result-cases (voucher_digest rt cardano v)) [
              | inl (x, failed) ↦ ground arith
              | inr (digest, d) ↦ elim (Result-cases (payment_hash v)) [
                | inl (x, failed) ↦ ground arith
                | inr (payment, p) ↦ record {
                  request = q;
                  claim = c;
                  v = v;
                  cardano = cardano;
                  digest = digest;
                  payment = payment;
                  member = ground arith;
                  pending = e;
                  fresh = ground arith;
                  was = f;
                  was_open = ground arith;
                  minted = g;
                  network = n;
                  hashed = d;
                  paid_to = p;
                  quorum =
                      (verify_threshold_signatures_iff rt ch.pallet
                          (settle_claim_attested_payload rt rt.chain_id
                            (bytes_of id q c cardano digest payment))
                          who sigs).0
                        (ground arith);
                  settled = ground arith;
                }
              ]
            ]
          ]
        ]
      ]
    ]
