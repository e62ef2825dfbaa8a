-- ===== src/Settlement/Solvency/Post.antt =====
-- A bond is reserved as its request is written (`store_settlement_request`,
-- `post_settlement_bond`, `request_settle`, `request_batch_settle` of
-- pallets/intent-settlement/src/lib.rs).
use materios_intent_settleme.Common.{
  ℕ, length, ◌≡◌, ◌∙◌, refl, inl, inr, Bool, false, List, [], ◌∷◌, Option, none, some, ok, arith,
  Option-cases, Result-cases,
}
use materios_intent_settleme.Settlement.Evidence.{
  SettlementEvidence, SettlementRequestRecord, SettleAttestedBatchEntry,
}
use materios_intent_settleme.Settlement.Types.{Claim, Event}
use materios_intent_settleme.Settlement.State.{Runtime, State}
use materios_intent_settleme.Settlement.Currency.{Currency, Chain, emit}
use materios_intent_settleme.Settlement.Bonds.{
  put_request, reserve_settlement_bond, remove_expired_settlement_request, store_settlement_request,
}
use materios_intent_settleme.Settlement.Attested.{
  checked_settlement_target, request_settle, request_entries, request_batch_settle,
}
use materios_intent_settleme.Settlement.Slash.{post_settlement_bond}
use materios_intent_settleme.Settlement.Solvency.{SolvencyInv, IsEntry, EntryAt, IsSettledClaim}
use materios_intent_settleme.Settlement.Solvency.Change.{aside-SolvencyInv}
use materios_intent_settleme.Settlement.Solvency.Refund.{
  IsLogged, IsPosted, IsPosted-SolvencyInv, remove_expired-IsCleared, pending_alone,
}

pub IsLogged-refl : (s : State) → IsLogged s s
IsLogged-refl s = record {
  claims = refl;
  vouchers = refl;
  intents = refl;
  pool = refl;
  block = refl;
}

pub IsLogged-trans : (s t u : State) → IsLogged s t → IsLogged t u → IsLogged s u
IsLogged-trans s t u x y = record {
  claims = y.claims ∙ x.claims;
  vouchers = y.vouchers ∙ x.vouchers;
  intents = y.intents ∙ x.intents;
  pool = y.pool ∙ x.pool;
  block = y.block ∙ x.block;
}

-- An open claim without a request has no held bond either.
open_bare :
    (bound : ℕ) (c : Option Claim) (n : Option ℕ) (h : Option (ℕ × ℕ))
    → (IsSettledClaim c → ⊥)
    → IsEntry bound c none n h
    → (n ≡ none) × (h ≡ none)
open_bare bound c none none open_claim e = (refl, refl)
open_bare bound c (some n) (some h) open_claim e = absurd (open_claim e.1)
open_bare bound c none (some h) open_claim e = absurd e
open_bare bound c (some n) none open_claim e = absurd e

-- The check of a request finds its claim open.
pub checked-open :
    (rt : Runtime) (id : ℕ) (evidence : SettlementEvidence) (s : State) {r : Claim × _}
    → checked_settlement_target rt id evidence s ≡ ok r
    → (s.claims id ≡ some r.0) × (r.0.is_settled ≡ false)
unfolding checked_settlement_target
checked-open rt id evidence s {r} h = (ground arith, ground arith)

open-unsettled :
    (o : Option Claim) {c : Claim} → (o ≡ some c) × (c.is_settled ≡ false) → IsSettledClaim o → ⊥
open-unsettled none due done = done
open-unsettled (some c) due done = ground arith

module _ {L : Type 0} (currency : Currency L) (rt : Runtime) where
  pub emit-SolvencyInv :
      (e : Event) (ch : Chain L) → SolvencyInv currency rt ch → SolvencyInv currency rt (emit e ch)
  emit-SolvencyInv e ch inv =
      aside-SolvencyInv currency rt ch (emit e ch) inv refl refl refl refl (λ j c. c)

  pub IsLogged-emit :
      (ch : Chain L) (e : Event) (t : Chain L)
      → IsLogged ch.pallet t.pallet
      → IsLogged ch.pallet (emit e t).pallet
  IsLogged-emit ch e t x = record {
    claims = x.claims;
    vouchers = x.vouchers;
    intents = x.intents;
    pool = x.pool;
    block = x.block;
  }

  reserve-IsPosted :
      (id : ℕ) (q : SettlementRequestRecord) (ch ch' : Chain L)
      → reserve_settlement_bond currency rt id q.requester q.bond_amount ch ≡ ok ch'
      → IsPosted currency rt id q ch (put_request id (some q) ch')
  unfolding reserve_settlement_bond
  reserve-IsPosted id q ch ch' h =
      elim (Option-cases (currency.reserve_named q.requester q.bond_amount ch.ledger)) [
        | inl refused ↦ ground arith
        | inr (l, e) ↦ record {
          logged = record {
            claims = ground arith;
            vouchers = ground arith;
            intents = ground arith;
            pool = ground arith;
            block = ground arith;
          };
          fits = ground arith;
          positive = ground arith;
          written = ground arith;
          same_block = ground arith;
          same_held = ground arith;
          others = λ j other. (ground arith, ground arith, ground arith);
          reserve = λ a.
              ground (arith, currency.reserve_named_lem q.requester q.bond_amount ch.ledger l e a);
        }
      ]

  pub store-SolvencyInv :
      (id : ℕ) (q : SettlementRequestRecord) (ch ch' : Chain L)
      → SolvencyInv currency rt ch
      → (IsSettledClaim (ch.pallet.claims id) → ⊥)
      → store_settlement_request currency rt id q ch ≡ ok ch'
      → SolvencyInv currency rt ch' × IsLogged ch.pallet ch'.pallet
  unfolding store_settlement_request
  store-SolvencyInv id q ch ch' inv open_claim h =
      elim (Result-cases (remove_expired_settlement_request currency rt id ch)) [
        | inl (x, failed) ↦ ground arith
        | inr (cleared, removed) ↦
            elim (Result-cases
              (reserve_settlement_bond currency rt id q.requester q.bond_amount cleared)) [
                | inl (x, failed) ↦ ground arith
                | inr (bonded, reserved) ↦
                    let c = remove_expired-IsCleared currency rt id ch cleared inv removed in
                    let p = reserve-IsPosted id q cleared bonded reserved in
                    let same : ch' ≡ put_request id (some q) bonded = ground arith in
                    let entry : EntryAt rt cleared id = c.solvent.entries id in
                    let bare =
                      open_bare rt.balance_max (cleared.pallet.claims id)
                        (cleared.requests.bonded_claim_attested_at id)
                        (cleared.requests.bonded_claim_requester id) (rw c.logged.claims open_claim)
                        (rw c.gone at entry) in
                    rw same (
                      IsPosted-SolvencyInv currency rt id q cleared _ c.solvent
                          (λ a. rw (c.gone, bare.1) refl) bare.0 bare.1 p,
                      IsLogged-trans ch.pallet cleared.pallet _ c.logged p.logged,
                    )
              ]
      ]

  pub request_settle-SolvencyInv :
      (who id tx : ℕ) (direct : Bool) (evidence : SettlementEvidence) (bond : ℕ) (ch ch' : Chain L)
      → SolvencyInv currency rt ch
      → request_settle currency rt who id tx direct evidence bond ch ≡ ok ch'
      → SolvencyInv currency rt ch' × IsLogged ch.pallet ch'.pallet
  unfolding request_settle
  request_settle-SolvencyInv who id tx direct evidence bond ch ch' inv h =
      let q : SettlementRequestRecord = record {
        requester = who;
        evidence = evidence;
        settled_direct = direct;
        submitted_block = ch.pallet.block_number;
        bond_amount = bond;
      } in
      elim (Result-cases (checked_settlement_target rt id evidence ch.pallet)) [
        | inl (x, failed) ↦ ground arith
        | inr (r, checked) ↦ elim (Result-cases (store_settlement_request currency rt id q ch)) [
          | inl (x, failed) ↦ ground arith
          | inr (stored, done) ↦
              let due = checked-open rt id evidence ch.pallet checked in
              let s = store-SolvencyInv id q ch stored inv (open-unsettled _ due) done in
              let same : ch' ≡ emit (Event.settlement_requested id who tx direct) stored =
                ground arith in
              rw same (emit-SolvencyInv _ stored s.0, IsLogged-emit ch _ stored s.1)
        ]
      ]

  pub request_entries-SolvencyInv :
      (who now bond : ℕ) (entries : List SettleAttestedBatchEntry) (ch ch' : Chain L)
      → SolvencyInv currency rt ch
      → request_entries currency rt who now bond entries ch ≡ ok ch'
      → SolvencyInv currency rt ch' × IsLogged ch.pallet ch'.pallet
  unfolding request_entries
  request_entries-SolvencyInv who now bond [] ch ch' inv h =
      let same : ch' ≡ ch = ground arith in rw same (inv, IsLogged-refl ch.pallet)
  request_entries-SolvencyInv who now bond (e ∷ rest) ch ch' inv h =
      let q : SettlementRequestRecord = record {
        requester = who;
        evidence = e.evidence;
        settled_direct = e.settled_direct;
        submitted_block = now;
        bond_amount = bond;
      } in
      elim (Result-cases (checked_settlement_target rt e.claim_id e.evidence ch.pallet)) [
        | inl (x, failed) ↦ ground arith
        | inr (r, checked) ↦
            elim (Result-cases (store_settlement_request currency rt e.claim_id q ch)) [
              | inl (x, failed) ↦ ground arith
              | inr (stored, done) ↦
                  let due = checked-open rt e.claim_id e.evidence ch.pallet checked in
                  let s =
                    store-SolvencyInv e.claim_id q ch stored inv (open-unsettled _ due) done in
                  let ih =
                    request_entries-SolvencyInv who now bond rest stored ch' s.0 (ground arith) in
                  (ih.0, IsLogged-trans ch.pallet stored.pallet ch'.pallet s.1 ih.1)
            ]
      ]

  pub request_batch_settle-SolvencyInv :
      (who : ℕ) (entries : List SettleAttestedBatchEntry) (bond : ℕ) (ch ch' : Chain L)
      → SolvencyInv currency rt ch
      → request_batch_settle currency rt who entries bond ch ≡ ok ch'
      → SolvencyInv currency rt ch' × IsLogged ch.pallet ch'.pallet
  unfolding request_batch_settle
  request_batch_settle-SolvencyInv who entries bond ch ch' inv h =
      elim (Result-cases (request_entries currency rt who ch.pallet.block_number bond entries ch)) [
        | inl (x, failed) ↦ ground arith
        | inr (t, done) ↦
            let s =
              request_entries-SolvencyInv who ch.pallet.block_number bond entries ch t inv done in
            let same : ch' ≡ emit (Event.batch_settlement_requested (length entries) who) t =
              ground arith in
            rw same (emit-SolvencyInv _ t s.0, IsLogged-emit ch _ t s.1)
      ]

  pub post_settlement_bond-SolvencyInv :
      (who id amount : ℕ) (ch ch' : Chain L)
      → SolvencyInv currency rt ch
      → post_settlement_bond currency rt who id amount ch ≡ ok ch'
      → SolvencyInv currency rt ch' × IsLogged ch.pallet ch'.pallet
  unfolding post_settlement_bond
  post_settlement_bond-SolvencyInv who id amount ch ch' inv h =
      elim (Option-cases (ch.requests.claim_settlement_requests id)) [
        | inl missing ↦ ground arith
        | inr (q, e) ↦ elim (Result-cases (reserve_settlement_bond currency rt id who amount ch)) [
          | inl (x, failed) ↦ ground arith
          | inr (t, done) ↦
              let q' : SettlementRequestRecord = record q { bond_amount = amount } in
              let mine : q.requester ≡ who = ground arith in
              let p = reserve-IsPosted id q' ch t (rw mine done) in
              let alone = pending_alone currency rt id q ch (inv.entries id) e in
              let unbonded : q.bond_amount ≡ 0 = ground arith in
              let same : ch' ≡ put_request id (some q') t = ground arith in
              rw same (
                IsPosted-SolvencyInv currency rt id q' ch _ inv
                    (λ a. ground (arith, e, alone.1, unbonded)) alone.0 alone.1 p,
                p.logged,
              )
        ]
      ]
