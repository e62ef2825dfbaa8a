-- ===== src/Settlement/Coverage/BatchTotals.antt =====
-- The totals of an atomic batch (`settle_batch_atomic`).
use materios_intent_settleme.Common.{ℕ, ap, ◌∙◌, ◌+◌, ◌-◌, ◌≡◌, List, All, Distinct, ok, arith}
use materios_intent_settleme.Settlement.Types.{Signature}
use materios_intent_settleme.Settlement.State.{Runtime, State}
use materios_intent_settleme.Settlement.Settle.{SettleBatchEntry, settle_batch_atomic}
use materios_intent_settleme.Settlement.Coverage.{CoverageInv, total_owed}
use materios_intent_settleme.Settlement.Coverage.Batch.{
  Pair, IsDue, pair_ids, entries_of, amounts, ArePaid, loop_of, IsLooped, IsBatchSettled,
  settle_entries-IsLooped, settle_batch_atomic-IsBatchSettled,
}

looped :
    (entries : List SettleBatchEntry) (s s' : State)
    → (inv : CoverageInv s) → (b : IsBatchSettled entries s s')
    → IsLooped inv.ids b.pairs 0 s (loop_of b.pairs s)
looped entries s s' inv b =
    settle_entries-IsLooped inv.ids b.pairs 0 0 s b.ids_distinct b.was_due (record {
      index = inv.index;
      backed = omega (arith, inv.backed);
      bounded = inv.bounded;
      paired = inv.paired;
    })

-- A batch that succeeds keeps the invariant: the coverage is the sum of what the unsettled claims
-- owe, it fits in 64 bits, and claims and vouchers exist under the same ids.
pub settle_batch_atomic-CoverageInv :
    (rt : Runtime) (who : ℕ) (entries : List SettleBatchEntry) (signatures : List Signature)
    (s s' : State)
    → CoverageInv s
    → settle_batch_atomic rt who entries signatures s ≡ ok s'
    → CoverageInv s'
settle_batch_atomic-CoverageInv rt who entries signatures s s' inv h =
    let b = settle_batch_atomic-IsBatchSettled rt who entries signatures s s' h in
    let l = looped entries s s' inv b in
    let k = l.kept in
    let coverage : (loop_of b.pairs s).0.pool.outstanding_coverage_ada
        ≡ s.pool.outstanding_coverage_ada =
      ap (λ u. u.outstanding_coverage_ada) l.same_pool in
    record {
      ids = inv.ids;
      index = rw b.claims_looped k.index;
      backed =
          ap (λ claims. total_owed claims inv.ids) b.claims_looped
          ∙ omega (arith, k.backed, b.coverage_paid);
      bounded = omega (arith, b.coverage_paid, coverage, inv.bounded);
      paired = rw (b.claims_looped, b.vouchers_looped) k.paired;
    }

-- A batch that succeeds where the coverage matches the claims pays all of its entries: each names
-- its own claim, which was open and is now settled with the entry's transaction and flag; the
-- coverage falls by exactly the sum of their amounts, and the net asset value by that sum or to 0.
pub settle_batch_atomic_pays :
    (rt : Runtime) (who : ℕ) (entries : List SettleBatchEntry) (signatures : List Signature)
    (s s' : State)
    → CoverageInv s
    → settle_batch_atomic rt who entries signatures s ≡ ok s'
    → (pairs : List Pair) × (entries_of pairs ≡ entries)
      × Distinct (pair_ids pairs)
      × All (IsDue s.claims) pairs
      × ArePaid s'.claims pairs
      × (s'.pool.outstanding_coverage_ada + amounts pairs ≡ s.pool.outstanding_coverage_ada)
      × (s'.pool.total_nav_ada ≡ s.pool.total_nav_ada - amounts pairs)
settle_batch_atomic_pays rt who entries signatures s s' inv h =
    let b = settle_batch_atomic-IsBatchSettled rt who entries signatures s s' h in
    let l = looped entries s s' inv b in
    let k = l.kept in
    let coverage : (loop_of b.pairs s).0.pool.outstanding_coverage_ada
        ≡ s.pool.outstanding_coverage_ada =
      ap (λ u. u.outstanding_coverage_ada) l.same_pool in
    let nav : (loop_of b.pairs s).0.pool.total_nav_ada ≡ s.pool.total_nav_ada =
      ap (λ u. u.total_nav_ada) l.same_pool in
    (
      b.pairs,
      b.entries_kept,
      b.ids_distinct,
      b.was_due,
      rw b.claims_looped l.all_paid,
      omega (arith, b.coverage_paid, coverage, k.backed, l.summed),
      omega (arith, b.nav_paid, nav, l.summed),
    )
