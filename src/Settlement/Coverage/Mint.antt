-- ===== src/Settlement/Coverage/Mint.antt =====
-- A mint (`request_voucher`) keeps the coverage equal to what the unsettled claims owe.
use materios_intent_settleme.Common.{
  ℕ, ap, ◌∙◌, ◌+◌, ◌≤◌, ◌≡◌, inl, inr, List, ◌∷◌, none, some, put, contains, arith, ok, Bool-cases,
  u64_max,
}
use materios_intent_settleme.Settlement.Types.{Voucher, Signature, BatchFairnessProof}
use materios_intent_settleme.Settlement.State.{Runtime, State}
use materios_intent_settleme.Settlement.Voucher.{request_voucher, claim_of}
use materios_intent_settleme.Settlement.Coverage.{
  total_owed, CoverageInv, total_owed-put, total_owed-put_unlisted, cons-IsIndex, put-IsIndex,
}

-- What a mint changes of the state that the invariant reads.
pub record IsMinted (claim_id intent_id : ℕ) (v : Voucher) (s s' : State) : Type 0 where
  pub was_new : s.vouchers claim_id ≡ none
  pub claims_put : s'.claims ≡ put s.claims claim_id (some (claim_of intent_id v))
  pub vouchers_put : s'.vouchers ≡ put s.vouchers claim_id (some v)
  pub grown : s'.pool.outstanding_coverage_ada ≡ s.pool.outstanding_coverage_ada + v.amount_ada
  pub fits : s.pool.outstanding_coverage_ada + v.amount_ada ≤ u64_max

pub request_voucher-IsMinted :
    (rt : Runtime) (who claim_id intent_id : ℕ) (v : Voucher) (proof : BatchFairnessProof)
    (signatures : List Signature) (s s' : State)
    → request_voucher rt who claim_id intent_id v proof signatures s ≡ ok s'
    → IsMinted claim_id intent_id v s s'
unfolding request_voucher
request_voucher-IsMinted rt who claim_id intent_id v proof signatures s s' h = record {
  was_new = ground arith;
  claims_put = ground arith;
  vouchers_put = ground arith;
  grown = ground arith;
  fits = ground arith;
}

pub IsMinted-CoverageInv :
    (claim_id intent_id : ℕ) (v : Voucher) (s s' : State)
    → IsMinted claim_id intent_id v s s'
    → CoverageInv s
    → CoverageInv s'
IsMinted-CoverageInv claim_id intent_id v s s' m inv =
    let absent : s.claims claim_id ≡ none = ground (arith, inv.paired claim_id, m.was_new) in
    let c = claim_of intent_id v in
    elim (Bool-cases (contains inv.ids claim_id)) [
      | inl old ↦ record {
        ids = inv.ids;
        index = rw m.claims_put (put-IsIndex s.claims claim_id c inv.ids inv.index old);
        backed =
            rw (m.claims_put, m.grown)
              (ground (
                arith,
                total_owed-put s.claims claim_id (some c) inv.ids inv.index.distinct old,
                inv.backed,
              ));
        bounded = rw m.grown m.fits;
        paired = rw (m.claims_put, m.vouchers_put) λ j. ground (arith, inv.paired j);
      }
      | inr new ↦ record {
        ids = claim_id ∷ inv.ids;
        index = rw m.claims_put (cons-IsIndex s.claims claim_id c inv.ids inv.index new);
        backed =
            ap (λ claims. total_owed claims (claim_id ∷ inv.ids)) m.claims_put
            ∙ ground (
              arith,
              total_owed-put_unlisted s.claims claim_id (some c) inv.ids new,
              inv.backed,
              m.grown,
            );
        bounded = rw m.grown m.fits;
        paired = rw (m.claims_put, m.vouchers_put) λ j. ground (arith, inv.paired j);
      }
    ]

-- A minted voucher keeps the invariant: the coverage is the sum of what the unsettled claims owe,
-- it fits in 64 bits, and claims and vouchers exist under the same ids.
pub request_voucher-CoverageInv :
    (rt : Runtime) (who claim_id intent_id : ℕ) (v : Voucher) (proof : BatchFairnessProof)
    (signatures : List Signature) (s s' : State)
    → CoverageInv s
    → request_voucher rt who claim_id intent_id v proof signatures s ≡ ok s'
    → CoverageInv s'
request_voucher-CoverageInv rt who claim_id intent_id v proof signatures s s' inv h =
    IsMinted-CoverageInv claim_id intent_id v s s'
      (request_voucher-IsMinted rt who claim_id intent_id v proof signatures s s' h) inv
