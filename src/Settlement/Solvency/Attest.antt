-- ===== src/Settlement/Solvency/Attest.antt =====
-- An attestation turns the bond of a pending request into a held bond (`attest_settle`,
-- `supersede_settlement_request`, `attest_batch_settle` of
-- pallets/intent-settlement/src/lib.rs).
use materios_intent_settleme.Common.{
  ℕ, ap, ◌-◌, ◌<◌, ◌≡◌, ◌∙◌, refl, inl, inr, Bool, false, List, Option, none, some, ok, put, ltb,
  arith, Bool-cases, Option-cases, Result-cases, put-elim,
}
use materios_intent_settleme.Settlement.Evidence.{SettlementEvidence, SettlementRequestRecord}
use materios_intent_settleme.Settlement.Types.{Claim, Signature, Event, IntentStatus}
use materios_intent_settleme.Settlement.State.{Runtime, State}
use materios_intent_settleme.Settlement.Currency.{Currency, Chain, emit}
use materios_intent_settleme.Settlement.Settle.{settled_claim, set_status}
use materios_intent_settleme.Settlement.Bonds.{discard_settlement_request}
use materios_intent_settleme.Settlement.Attested.{
  checked_settlement_target, settle_attested_claim, on_pallet, attest_settle,
  supersede_settlement_request,
}
use materios_intent_settleme.Settlement.Solvency.{SolvencyInv, IsSettledClaim}
use materios_intent_settleme.Settlement.Solvency.Change.{
  KeepsSettlement, IsChange-SolvencyInv, aside-SolvencyInv,
}
use materios_intent_settleme.Settlement.Solvency.Refund.{
  OthersKept, pending_alone, discard-IsDiscarded, IsDiscarded-SolvencyInv,
}
use materios_intent_settleme.Settlement.Solvency.Post.{checked-open}

-- What a settlement does to the maps: the claim is the stored one, open before, and its intent
-- follows.
pub record IsSettledBy (id tx : ℕ) (direct : Bool) (c : Claim) (s s' : State) : Type 0 where
  pub was : s.claims id ≡ some c
  pub was_open : c.is_settled ≡ false
  pub claims : s'.claims ≡ put s.claims id (some (settled_claim c tx direct))
  pub vouchers : s'.vouchers ≡ s.vouchers
  pub intents : s'.intents ≡ set_status c.intent_id IntentStatus.settled s.intents
  pub coverage : s'.pool.outstanding_coverage_ada ≡ s.pool.outstanding_coverage_ada - c.amount_ada
  pub nav : s'.pool.total_nav_ada ≡ s.pool.total_nav_ada - c.amount_ada

pub KeepsSettlement-settled :
    (m : ℕ → Option Claim) (id tx : ℕ) (direct : Bool) (c : Claim)
    → KeepsSettlement m (put m id (some (settled_claim c tx direct)))
KeepsSettlement-settled m id tx direct c =
    put-elim (λ j o. IsSettledClaim (m j) → IsSettledClaim o) m id
      (some (settled_claim c tx direct)) (λ j done. done) (λ done. refl)

pub settle_attested_claim-IsSettledBy :
    (id tx : ℕ) (direct : Bool) (c : Claim) (s : State)
    → s.claims id ≡ some c
    → c.is_settled ≡ false
    → IsSettledBy id tx direct c s (settle_attested_claim id c tx direct s)
unfolding settle_attested_claim
settle_attested_claim-IsSettledBy id tx direct c s was due = record {
  was = was;
  was_open = due;
  claims = refl;
  vouchers = refl;
  intents = refl;
  coverage = refl;
  nav = refl;
}

-- The request is consumed, and its bond, if there is one, is held from this block on.
pub record IsPinned {L : Type 0} (id : ℕ) (q : SettlementRequestRecord) (ch ch' : Chain L)
    : Type 0 where
  pub pending : ch.requests.claim_settlement_requests id ≡ some q
  pub gone : ch'.requests.claim_settlement_requests id ≡ none
  pub unbonded :
      q.bond_amount ≡ 0
      → (ch'.requests.bonded_claim_attested_at id ≡ ch.requests.bonded_claim_attested_at id)
        × (ch'.requests.bonded_claim_requester id ≡ ch.requests.bonded_claim_requester id)
  pub bonded :
      0 < q.bond_amount
      → (ch'.requests.bonded_claim_attested_at id ≡ some ch.pallet.block_number)
        × (ch'.requests.bonded_claim_requester id ≡ some (q.requester, q.bond_amount))
  pub others : OthersKept id ch.requests ch'.requests
  pub ledger : ch'.ledger ≡ ch.ledger

pub attest_settle-IsPinned :
    {L : Type 0} (rt : Runtime) (who id : ℕ) (sigs : List Signature) (ch ch' : Chain L)
    → attest_settle rt who id sigs ch ≡ ok ch'
    → (q : SettlementRequestRecord) × (c : Claim) × IsPinned id q ch ch'
      × IsSettledBy id q.evidence.cardano_tx_hash q.settled_direct c ch.pallet ch'.pallet
unfolding attest_settle
attest_settle-IsPinned rt who id sigs ch ch' h =
    elim (Option-cases (ch.requests.claim_settlement_requests id)) [
      | inl missing ↦ ground arith
      | inr (q, e) ↦ elim (Option-cases (ch.pallet.claims id)) [
        | inl missing ↦ ground arith
        | inr (c, f) ↦ (
          q,
          c,
          record {
            pending = e;
            gone = ground arith;
            unbonded = λ z. (ground arith, ground arith);
            bonded = λ p. (ground arith, ground arith);
            others = λ j other. (ground arith, ground arith, ground arith);
            ledger = ground arith;
          },
          record {
            was = f;
            was_open = ground arith;
            claims = ground arith;
            vouchers = ground arith;
            intents = ground arith;
            coverage = ground arith;
            nav = ground arith;
          },
        )
      ]
    ]

module _ {L : Type 0} (currency : Currency L) (rt : Runtime) where
  pub IsPinned-SolvencyInv :
      (id : ℕ) (q : SettlementRequestRecord) (ch ch' : Chain L)
      → SolvencyInv currency rt ch
      → IsPinned id q ch ch'
      → KeepsSettlement ch.pallet.claims ch'.pallet.claims
      → IsSettledClaim (ch'.pallet.claims id)
      → SolvencyInv currency rt ch'
  IsPinned-SolvencyInv id q ch ch' inv x keep done =
      let alone = pending_alone currency rt id q ch (inv.entries id) x.pending in
      elim (Bool-cases (ltb 0 q.bond_amount)) [
        | inl yes_bond ↦
            let b = x.bonded (ground arith) in
            IsChange-SolvencyInv currency rt id ch ch' inv (record {
              others = x.others;
              kept = keep;
              entry = rw (x.gone, b.0, b.1) (alone.2, done);
              moved = λ a. ground (arith, x.pending, alone.1, x.gone, b.1, x.ledger);
            })
        | inr no_bond ↦
            let u = x.unbonded (ground arith) in
            let zero_bond : q.bond_amount ≡ 0 = ground arith in
            IsChange-SolvencyInv currency rt id ch ch' inv (record {
              others = x.others;
              kept = keep;
              entry = rw (x.gone, u.0, u.1, alone.0, alone.1) tt;
              moved = λ a. ground (arith, x.pending, alone.1, x.gone, u.1, x.ledger, zero_bond);
            })
      ]

  pub KeepsSettlement-by :
      (id tx : ℕ) (direct : Bool) (c : Claim) (s s' : State)
      → IsSettledBy id tx direct c s s'
      → KeepsSettlement s.claims s'.claims × IsSettledClaim (s'.claims id)
  KeepsSettlement-by id tx direct c s s' x =
      rw x.claims (KeepsSettlement-settled s.claims id tx direct c, ground arith)

  pub attest_settle-SolvencyInv :
      (who id : ℕ) (sigs : List Signature) (ch ch' : Chain L)
      → SolvencyInv currency rt ch
      → attest_settle rt who id sigs ch ≡ ok ch'
      → SolvencyInv currency rt ch'
  attest_settle-SolvencyInv who id sigs ch ch' inv h =
      let x = attest_settle-IsPinned rt who id sigs ch ch' h in
      let k = KeepsSettlement-by id _ _ x.1 ch.pallet ch'.pallet x.3 in
      IsPinned-SolvencyInv id x.0 ch ch' inv x.2 k.0 k.1

  -- A superseded request is discarded, then the claim is settled on the committee's evidence.
  pub record IsSuperseded (id tx : ℕ) (direct : Bool) (ch ch' : Chain L) : Type 0 where
    pub request : SettlementRequestRecord
    pub claim : Claim
    pub between : Chain L
    pub pending : ch.requests.claim_settlement_requests id ≡ some request
    pub discarded : discard_settlement_request currency rt id request ch ≡ ok between
    pub settled : IsSettledBy id tx direct claim between.pallet ch'.pallet
    pub requests : ch'.requests ≡ between.requests
    pub ledger : ch'.ledger ≡ between.ledger

  pub supersede-IsSuperseded :
      (who id : ℕ) (direct : Bool) (evidence : SettlementEvidence) (sigs : List Signature)
      (ch ch' : Chain L)
      → supersede_settlement_request currency rt who id direct evidence sigs ch ≡ ok ch'
      → IsSuperseded id evidence.cardano_tx_hash direct ch ch'
  unfolding supersede_settlement_request
  supersede-IsSuperseded who id direct evidence sigs ch ch' h =
      elim (Result-cases (checked_settlement_target rt id evidence ch.pallet)) [
        | inl (x, failed) ↦ ground arith
        | inr ((c, v), checked) ↦ elim (Option-cases (ch.requests.claim_settlement_requests id)) [
          | inl missing ↦ ground arith
          | inr (q, e) ↦ elim (Result-cases (discard_settlement_request currency rt id q ch)) [
            | inl (x, failed) ↦ ground arith
            | inr (t, done) ↦
                let due = checked-open rt id evidence ch.pallet checked in
                let logged = (discard-IsDiscarded currency rt id q ch t done).logged in
                let told = emit (Event.settlement_request_superseded id q.requester) t in
                let x =
                  settle_attested_claim-IsSettledBy id evidence.cardano_tx_hash direct c told.pallet
                    (ap (λ m. m id) logged.claims ∙ due.0) due.1 in
                let same : ch'
                    ≡ on_pallet
                        (settle_attested_claim id c evidence.cardano_tx_hash direct told.pallet)
                        told =
                  ground arith in
                rw same (record {
                  request = q;
                  claim = c;
                  between = t;
                  pending = e;
                  discarded = done;
                  settled = record {
                    was = x.was;
                    was_open = x.was_open;
                    claims = x.claims;
                    vouchers = x.vouchers;
                    intents = x.intents;
                    coverage = x.coverage;
                    nav = x.nav;
                  };
                  requests = refl;
                  ledger = refl;
                })
          ]
        ]
      ]

  pub supersede-SolvencyInv :
      (who id : ℕ) (direct : Bool) (evidence : SettlementEvidence) (sigs : List Signature)
      (ch ch' : Chain L)
      → SolvencyInv currency rt ch
      → supersede_settlement_request currency rt who id direct evidence sigs ch ≡ ok ch'
      → SolvencyInv currency rt ch'
  supersede-SolvencyInv who id direct evidence sigs ch ch' inv h =
      let x = supersede-IsSuperseded who id direct evidence sigs ch ch' h in
      let d = discard-IsDiscarded currency rt id x.request ch x.between x.discarded in
      let t = IsDiscarded-SolvencyInv currency rt id x.request ch x.between inv x.pending d in
      aside-SolvencyInv currency rt x.between ch' t
        (ap (λ r. r.claim_settlement_requests) x.requests)
        (ap (λ r. r.bonded_claim_attested_at) x.requests)
        (ap (λ r. r.bonded_claim_requester) x.requests) x.ledger
        (KeepsSettlement-by id _ _ x.claim x.between.pallet ch'.pallet x.settled).0
