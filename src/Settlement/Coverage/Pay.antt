-- ===== src/Settlement/Coverage/Pay.antt =====
-- A settlement (`settle_claim`) keeps the coverage equal to what the unsettled claims owe.
use materios_intent_settleme.Common.{
  ℕ, ◌+◌, ◌-◌, ◌≤◌, ◌≡◌, ◌⊎◌, inl, inr, Bool, true, false, List, some, put, arith, ok, Bool-cases,
  Option-cases,
}
use materios_intent_settleme.Settlement.Types.{Claim, Signature}
use materios_intent_settleme.Settlement.State.{Runtime, State}
use materios_intent_settleme.Settlement.Settle.{settle_claim}
use materios_intent_settleme.Settlement.Coverage.{
  CoverageInv, total_owed-put, owed-le, listed, put-IsIndex,
}

-- What a settlement that writes changes of the state that the invariant reads.
pub record IsPaid (claim_id cardano_tx_hash : ℕ) (direct : Bool) (claim : Claim) (s s' : State)
    : Type 0 where
  pub was : s.claims claim_id ≡ some claim
  pub was_unsettled : claim.is_settled ≡ false
  pub claims_put :
      s'.claims
      ≡ put s.claims claim_id (
          some (record claim {
            is_settled = true;
            settled_direct = direct;
            cardano_tx_hash = cardano_tx_hash;
          }))
  pub vouchers_kept : s'.vouchers ≡ s.vouchers
  pub shrunk : s'.pool.outstanding_coverage_ada ≡ s.pool.outstanding_coverage_ada - claim.amount_ada
  pub nav_shrunk : s'.pool.total_nav_ada ≡ s.pool.total_nav_ada - claim.amount_ada

settled_unchanged :
    (rt : Runtime) (who claim_id cardano_tx_hash : ℕ) (direct : Bool) (signatures : List Signature)
    (s s' : State) {c : Claim}
    → s.claims claim_id ≡ some c
    → c.is_settled ≡ true
    → settle_claim rt who claim_id cardano_tx_hash direct signatures s ≡ ok s'
    → s' ≡ s
unfolding settle_claim
settled_unchanged rt who claim_id cardano_tx_hash direct signatures s s' e done h = ground arith

unsettled-IsPaid :
    (rt : Runtime) (who claim_id cardano_tx_hash : ℕ) (direct : Bool) (signatures : List Signature)
    (s s' : State) {c : Claim}
    → s.claims claim_id ≡ some c
    → c.is_settled ≡ false
    → settle_claim rt who claim_id cardano_tx_hash direct signatures s ≡ ok s'
    → IsPaid claim_id cardano_tx_hash direct c s s'
unfolding settle_claim
unsettled-IsPaid rt who claim_id cardano_tx_hash direct signatures s s' {c} e due h = record {
  was = e;
  was_unsettled = due;
  claims_put = ground arith;
  vouchers_kept = ground arith;
  shrunk = ground arith;
  nav_shrunk = ground arith;
}

pub settle_claim-cases :
    (rt : Runtime) (who claim_id cardano_tx_hash : ℕ) (direct : Bool) (signatures : List Signature)
    (s s' : State)
    → settle_claim rt who claim_id cardano_tx_hash direct signatures s ≡ ok s'
    → (s' ≡ s) ⊎ ((c : Claim) × IsPaid claim_id cardano_tx_hash direct c s s')
unfolding settle_claim
settle_claim-cases rt who claim_id cardano_tx_hash direct signatures s s' h =
    elim (Option-cases (s.claims claim_id)) [
      | inl missing ↦ ground arith
      | inr (c, e) ↦ elim (Bool-cases c.is_settled) [
        | inl done ↦ inl (ground arith)
        | inr due ↦
            inr (c, unsettled-IsPaid rt who claim_id cardano_tx_hash direct signatures s s' e due h)
      ]
    ]

-- A settlement under the invariant takes the claim's whole amount from the coverage.
IsPaid-exact :
    (claim_id cardano_tx_hash : ℕ) (direct : Bool) (c : Claim) (s s' : State)
    → CoverageInv s
    → IsPaid claim_id cardano_tx_hash direct c s s'
    → c.amount_ada ≤ s.pool.outstanding_coverage_ada
IsPaid-exact claim_id cardano_tx_hash direct c s s' inv p = ground (
  arith,
  owed-le s.claims claim_id inv.ids (listed claim_id inv.index p.was),
  inv.backed,
  p.was,
  p.was_unsettled,
)

pub IsPaid-CoverageInv :
    (claim_id cardano_tx_hash : ℕ) (direct : Bool) (c : Claim) (s s' : State)
    → CoverageInv s
    → IsPaid claim_id cardano_tx_hash direct c s s'
    → CoverageInv s'
IsPaid-CoverageInv claim_id cardano_tx_hash direct c s s' inv p =
    let old = listed claim_id inv.index p.was in
    record {
      ids = inv.ids;
      index = rw p.claims_put (put-IsIndex s.claims claim_id _ inv.ids inv.index old);
      backed =
          rw (p.claims_put, p.shrunk)
            (ground (
              arith,
              total_owed-put s.claims claim_id
                  (some (record c {
                    is_settled = true;
                    settled_direct = direct;
                    cardano_tx_hash = cardano_tx_hash;
                  }))
                  inv.ids inv.index.distinct old,
              inv.backed,
              p.was,
              p.was_unsettled,
            ));
      bounded = ground (arith, p.shrunk, inv.bounded);
      paired = rw (p.claims_put, p.vouchers_kept) λ j. ground (arith, inv.paired j, p.was);
    }

-- A settlement that succeeds, of a claim that was settled before or not, keeps the invariant: the
-- coverage is the sum of what the unsettled claims owe, it fits in 64 bits, and claims and vouchers
-- exist under the same ids.
pub settle_claim-CoverageInv :
    (rt : Runtime) (who claim_id cardano_tx_hash : ℕ) (direct : Bool) (signatures : List Signature)
    (s s' : State)
    → CoverageInv s
    → settle_claim rt who claim_id cardano_tx_hash direct signatures s ≡ ok s'
    → CoverageInv s'
settle_claim-CoverageInv rt who claim_id cardano_tx_hash direct signatures s s' inv h =
    elim (settle_claim-cases rt who claim_id cardano_tx_hash direct signatures s s' h) [
      | inl same ↦ rw same inv
      | inr (c, p) ↦ IsPaid-CoverageInv claim_id cardano_tx_hash direct c s s' inv p
    ]

-- A settlement that succeeds where the coverage matches the claims, of a claim that is open, marks
-- it settled with the given transaction and flag, and takes exactly its amount from the coverage:
-- the saturating subtraction does not stop at 0. The net asset value falls by the same amount, or
-- to 0. A claim that was settled before stays as it was, with the whole storage.
pub settle_claim_pays :
    (rt : Runtime) (who claim_id cardano_tx_hash : ℕ) (direct : Bool) (signatures : List Signature)
    (s s' : State) {c : Claim}
    → CoverageInv s
    → s.claims claim_id ≡ some c
    → settle_claim rt who claim_id cardano_tx_hash direct signatures s ≡ ok s'
    → ((c.is_settled ≡ true) × (s' ≡ s))
      ⊎ ((s'.pool.outstanding_coverage_ada + c.amount_ada ≡ s.pool.outstanding_coverage_ada)
          × (s'.pool.total_nav_ada ≡ s.pool.total_nav_ada - c.amount_ada)
          × (s'.claims claim_id
              ≡ some (record c {
                is_settled = true;
                settled_direct = direct;
                cardano_tx_hash = cardano_tx_hash;
              })))
settle_claim_pays rt who claim_id cardano_tx_hash direct signatures s s' {c} inv e h =
    elim (Bool-cases c.is_settled) [
      | inl done ↦
          inl (
            done,
            settled_unchanged rt who claim_id cardano_tx_hash direct signatures s s' e done h,
          )
      | inr due ↦
          let p = unsettled-IsPaid rt who claim_id cardano_tx_hash direct signatures s s' e due h in
          let exact = IsPaid-exact claim_id cardano_tx_hash direct c s s' inv p in
          inr (ground (arith, exact, p.shrunk), p.nav_shrunk, rw p.claims_put (ground arith))
    ]
