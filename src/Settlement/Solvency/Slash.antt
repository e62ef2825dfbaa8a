-- ===== src/Settlement/Solvency/Slash.antt =====
-- A slash moves exactly the bond (`slash_bad_settlement_evidence` of
-- pallets/intent-settlement/src/lib.rs).
use Prim.Native.Nat.{min}
use native.Mathlib.Nat.{mul-le-mul_left}
use materios_intent_settleme.Common.{
  ℕ, ◌+◌, ◌-◌, ◌≤◌, ◌<◌, ◌≡◌, refl, inl, inr, true, List, ◌∷◌, none, some, ok, put, put₂, arith,
  if◌then◌else◌, ◌==◌, Option-cases, Result-cases, false,
}
use materios_intent_settleme.Settlement.Evidence.{SettlementRequestRecord, FraudProof}
use materios_intent_settleme.Settlement.Types.{Signature, Event}
use materios_intent_settleme.Settlement.State.{Runtime}
use materios_intent_settleme.Settlement.Currency.{Currency, Chain}
use materios_intent_settleme.Settlement.Payloads.Attested.{
  settlement_request_id, slash_bad_settlement_evidence_payload,
}
use materios_intent_settleme.Settlement.Bonds.{request_expired}
use materios_intent_settleme.Settlement.Threshold.Quorum.{IsQuorum, verify_threshold_signatures_iff}
use materios_intent_settleme.Settlement.Slash.{
  alleges, repatriate, watcher_share, slash_bad_settlement_evidence,
}
use materios_intent_settleme.Settlement.Solvency.{SolvencyInv, bond_of}
use materios_intent_settleme.Settlement.Solvency.Change.{IsChange-SolvencyInv, bond-reserved}
use materios_intent_settleme.Settlement.Solvency.Refund.{
  IsLogged, pending_alone, KeepsSettlement-logged,
}

-- A bond is an amount of u128, so the product of the share does not saturate into more than it.
pub watcher_share-le : (rt : Runtime) (bond : ℕ) → watcher_share rt bond ≤ bond
unfolding watcher_share
watcher_share-le rt bond =
    let clamped : min rt.slash_watcher_share_bps 10000 ≤ 10000 = omega arith in
    omega (arith, mul-le-mul_left bond clamped)

module _ {L : Type 0} (currency : Currency L) (rt : Runtime) where
  open currency use {reserved_balance_named, free_balance}

  -- What `repatriate` returns when the reserve covers the share: all of it moves to the other.
  pub repatriate-exact :
      (from to share : ℕ) (l : L) (r : ℕ × L)
      → share ≤ reserved_balance_named from l
      → repatriate currency rt from to share l ≡ ok r
      → (r.0 ≡ share)
        × ((a : ℕ)
            → reserved_balance_named a r.1
              ≡ reserved_balance_named a l - (if a == from then share else 0))
        × ((a : ℕ) → free_balance a r.1 ≡ free_balance a l + (if a == to then share else 0))
  unfolding repatriate
  repatriate-exact from to share l r covered h =
      elim (Option-cases (currency.repatriate_reserved_named from to share l)) [
        | inl failed ↦ (ground arith, λ a. ground arith, λ a. ground arith)
        | inr (m, e) ↦
            let unpaid = currency.repatriate_reserved_named_unpaid from to share l m e in
            (
              ground (arith, unpaid),
              λ a. ground (arith, currency.repatriate_reserved_named_lem from to share l m e a),
              λ a.
                  ground
                    (arith, unpaid, currency.repatriate_reserved_named_paid from to share l m e a),
            )
      ]

  -- The request is gone and marked, and its bond has left the reserve in two parts.
  pub record IsSlashed (who id : ℕ) (proof : FraudProof) (sigs : List Signature) (ch ch' : Chain L)
      : Type 0 where
    pub member : rt.is_member who ≡ true
    pub request : SettlementRequestRecord
    pub pending : ch.requests.claim_settlement_requests id ≡ some request
    pub fresh : request_expired rt ch.pallet request.submitted_block ≡ false
    pub bonded : 0 < request.bond_amount
    pub alleged : alleges proof request ≡ true
    pub quorum :
        IsQuorum rt ch.pallet
          (slash_bad_settlement_evidence_payload rt rt.chain_id id request proof)
          who
          sigs
    pub gone :
        ch'.requests.claim_settlement_requests ≡ put ch.requests.claim_settlement_requests id none
    pub marked :
        ch'.requests.slashed_settlement_requests
        ≡ put₂ ch.requests.slashed_settlement_requests id (settlement_request_id rt request) true
    pub same_block : ch'.requests.bonded_claim_attested_at ≡ ch.requests.bonded_claim_attested_at
    pub same_held : ch'.requests.bonded_claim_requester ≡ ch.requests.bonded_claim_requester
    pub logged : IsLogged ch.pallet ch'.pallet
    pub told :
        ch'.pallet.events
        ≡ Event.settlement_bond_slashed id request.requester who
            (watcher_share rt request.bond_amount)
            (request.bond_amount - watcher_share rt request.bond_amount)
            proof
          ∷ ch.pallet.events
    pub reserve :
        (a : ℕ)
        → reserved_balance_named a ch'.ledger
          ≡ reserved_balance_named a ch.ledger
            - (if a == request.requester then request.bond_amount else 0)
    pub paid :
        (a : ℕ)
        → free_balance a ch'.ledger
          ≡ free_balance a ch.ledger
            + (if a == who then watcher_share rt request.bond_amount else 0)
            + (if a == rt.treasury_account
                then request.bond_amount - watcher_share rt request.bond_amount
                else 0)

  slash_covered :
      (who id : ℕ) (proof : FraudProof) (sigs : List Signature) (ch ch' : Chain L)
      (q : SettlementRequestRecord)
      → ch.requests.claim_settlement_requests id ≡ some q
      → q.bond_amount ≤ reserved_balance_named q.requester ch.ledger
      → slash_bad_settlement_evidence currency rt who id proof sigs ch ≡ ok ch'
      → IsSlashed who id proof sigs ch ch'
  unfolding slash_bad_settlement_evidence
  slash_covered who id proof sigs ch ch' q e covered h =
      let share = watcher_share rt q.bond_amount in
      let le = watcher_share-le rt q.bond_amount in
      elim (Result-cases (repatriate currency rt q.requester who share ch.ledger)) [
        | inl (x, failed) ↦ ground arith
        | inr (w, first) ↦
            let rest = q.bond_amount - share in
            let x = repatriate-exact q.requester who share ch.ledger w (ground arith) first in
            elim (Result-cases (repatriate currency rt q.requester rt.treasury_account rest w.1)) [
              | inl (y, failed) ↦ ground arith
              | inr (t, second) ↦
                  let y =
                    repatriate-exact q.requester rt.treasury_account rest w.1 t
                      (ground (arith, x.1 q.requester)) second in
                  record {
                    member = ground arith;
                    request = q;
                    pending = e;
                    fresh = ground arith;
                    bonded = ground arith;
                    alleged = ground arith;
                    quorum =
                        (verify_threshold_signatures_iff rt ch.pallet
                            (slash_bad_settlement_evidence_payload rt rt.chain_id id q proof) who
                            sigs).0
                          (ground arith);
                    gone = ground arith;
                    marked = ground arith;
                    same_block = ground arith;
                    same_held = ground arith;
                    logged = record {
                      claims = ground arith;
                      vouchers = ground arith;
                      intents = ground arith;
                      pool = ground arith;
                      block = ground arith;
                    };
                    told = ground (arith, x.0, y.0);
                    reserve = λ a. ground (arith, x.1 a, y.1 a);
                    paid = λ a. ground (arith, x.2 a, y.2 a);
                  }
            ]
      ]

  -- Where the bonds are backed, a slash that succeeds comes from a member and is of a request that is
  -- pending, within its time to live and bonded. The proof alleges something else than the request's evidence, and the
  -- bundle is a quorum over the digest of the claim, the request and the proof. The request is gone
  -- and marked as slashed. Its whole bond, and nothing else, has left the requester's reserve: the
  -- free balance of the watcher who called is up by the watcher's share, that of the treasury by the
  -- rest, and no other free balance changes. The one event tells these amounts, and no deficit.
  pub slash-IsSlashed :
      (who id : ℕ) (proof : FraudProof) (sigs : List Signature) (ch ch' : Chain L)
      → SolvencyInv currency rt ch
      → slash_bad_settlement_evidence currency rt who id proof sigs ch ≡ ok ch'
      → IsSlashed who id proof sigs ch ch'
  unfolding slash_bad_settlement_evidence
  slash-IsSlashed who id proof sigs ch ch' inv h =
      elim (Option-cases (ch.requests.claim_settlement_requests id)) [
        | inl missing ↦ ground arith
        | inr (q, e) ↦
            let alone = pending_alone currency rt id q ch (inv.entries id) e in
            let mine : bond_of ch.requests q.requester id ≡ q.bond_amount =
              ground (arith, e, alone.1) in
            slash_covered who id proof sigs ch ch' q e
              (omega (arith, mine, bond-reserved currency rt ch inv q.requester id)) h
      ]

  pub slash-SolvencyInv :
      (who id : ℕ) (proof : FraudProof) (sigs : List Signature) (ch ch' : Chain L)
      → SolvencyInv currency rt ch
      → slash_bad_settlement_evidence currency rt who id proof sigs ch ≡ ok ch'
      → SolvencyInv currency rt ch' × IsLogged ch.pallet ch'.pallet
  slash-SolvencyInv who id proof sigs ch ch' inv h =
      let x = slash-IsSlashed who id proof sigs ch ch' inv h in
      let alone = pending_alone currency rt id x.request ch (inv.entries id) x.pending in
      (
        IsChange-SolvencyInv currency rt id ch ch' inv (record {
          others = λ j e. rw (x.gone, x.same_block, x.same_held) (ground arith, refl, refl);
          kept = KeepsSettlement-logged ch.pallet ch'.pallet x.logged;
          entry = rw (x.gone, x.same_block, x.same_held) (rw (alone.0, alone.1) (ground arith));
          moved = λ a.
              rw (x.gone, x.same_held)
                (ground
                  (arith, x.pending, alone.1, x.reserve a, bond-reserved currency rt ch inv a id));
        }),
        x.logged,
      )
