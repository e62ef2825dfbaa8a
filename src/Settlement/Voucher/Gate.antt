-- ===== src/Settlement/Voucher/Gate.antt =====
-- What stands behind a minted voucher.
use materios_intent_settleme.Common.{
  ℕ, ◌≡◌, inl, inr, List, none, some, ok, arith, Option-cases, Result-cases, put,
}
use materios_intent_settleme.Settlement.Types.{
  IntentStatus, Intent, Voucher, BatchFairnessProof, CardanoIdentity, Signature,
}
use materios_intent_settleme.Settlement.State.{Runtime, State}
use materios_intent_settleme.Settlement.Payloads.{
  compute_fairness_proof_digest, voucher_digest, request_voucher_payload,
}
use materios_intent_settleme.Settlement.Cardano.{cardano_ids}
use materios_intent_settleme.Settlement.Fairness.Rules.{
  IsFair, IsInRange, validate_fairness_proof_iff,
}
use materios_intent_settleme.Settlement.Threshold.Quorum.{IsQuorum, verify_threshold_signatures_iff}
use materios_intent_settleme.Settlement.Voucher.{request_voucher, claim_of}

-- What a mint that succeeded has found and done.
pub record IsBacked (rt : Runtime) (who claim_id intent_id : ℕ) (v : Voucher)
    (proof : BatchFairnessProof) (signatures : List Signature) (s s' : State) : Type 0 where
  pub intent : Intent
  pub was : s.intents intent_id ≡ some intent
  pub attested : intent.status ≡ IntentStatus.attested
  pub unused : s.vouchers claim_id ≡ none
  pub fair : IsFair proof
  pub bound_to_proof : v.batch_fairness_proof_digest ≡ compute_fairness_proof_digest rt proof
  pub cardano : CardanoIdentity
  pub digest : ℕ
  pub settles_on : cardano_ids s ≡ ok cardano
  pub digest_of_voucher : voucher_digest rt cardano v ≡ ok digest
  pub quorum :
      IsQuorum rt s
        (request_voucher_payload rt rt.chain_id claim_id intent_id digest
          (compute_fairness_proof_digest rt proof))
        who
        signatures
  pub vouchered :
      s'.intents
      ≡ put s.intents intent_id (some (record intent { status = IntentStatus.vouchered }))
  pub claim_stored : s'.claims ≡ put s.claims claim_id (some (claim_of intent_id v))

-- Given a proof whose fields are in the range of their types, a voucher is minted only for an
-- attested intent, under a claim id that has no voucher yet, over a fair proof that the voucher's
-- digest binds, on a chain whose Cardano identity serves, and with a quorum of the committee over
-- the claim, the intent, the voucher's digest and the proof's; the mint then stores the claim and
-- turns that intent alone to vouchered.
pub request_voucher-IsBacked :
    (rt : Runtime) (who claim_id intent_id : ℕ) (v : Voucher) (proof : BatchFairnessProof)
    (signatures : List Signature) (s s' : State)
    → IsInRange proof
    → request_voucher rt who claim_id intent_id v proof signatures s ≡ ok s'
    → IsBacked rt who claim_id intent_id v proof signatures s s'
unfolding request_voucher
request_voucher-IsBacked rt who claim_id intent_id v proof signatures s s' range h =
    elim (Option-cases (s.intents intent_id)) [
      | inl missing ↦ ground arith
      | inr (i, e) ↦ elim (Result-cases (cardano_ids s)) [
        | inl (x, failed) ↦ ground arith
        | inr (cardano, c) ↦ elim (Result-cases (voucher_digest rt cardano v)) [
          | inl (x, failed) ↦ ground arith
          | inr (digest, d) ↦ record {
            intent = i;
            was = e;
            attested = ground arith;
            unused = ground arith;
            fair = (validate_fairness_proof_iff proof range).0 (ground arith);
            bound_to_proof = ground arith;
            cardano = cardano;
            digest = digest;
            settles_on = c;
            digest_of_voucher = d;
            quorum =
                (verify_threshold_signatures_iff rt s
                    (request_voucher_payload rt rt.chain_id claim_id intent_id digest
                      (compute_fairness_proof_digest rt proof))
                    who signatures).0
                  (ground arith);
            vouchered = ground arith;
            claim_stored = ground arith;
          }
        ]
      ]
    ]
