-- ===== src/Settlement/Fairness.antt =====
-- The check of a batch fairness proof (`validate_fairness_proof` of
-- pallets/intent-settlement/src/lib.rs), loop by loop.
use materios_intent_settleme.Common.{
  ℕ, ◌/◌, List, [], ◌∷◌, ◌==◌, ltb, leb, ◌&&◌, ensure, Result, ok, ◌>>=◌, ◌>>◌, length, sat_add,
  sat_mul, u128_max,
}
use materios_intent_settleme.Settlement.Types.{BatchFairnessProof, Error}
pub mod Rules

-- `for w in ids.windows(2)`
unfoldable pub check_ascending : List ℕ → Result Error (Unit {0})
check_ascending [] = ok tt
check_ascending (x ∷ []) = ok tt
check_ascending (x ∷ y ∷ rest) =
    let next = check_ascending (y ∷ rest) in do ensure (ltb x y) Error.invalid_fairness_proof; next

-- `for i in 0..n` over two lists of length n, with the running sum of the awards; in u128.
unfoldable pub check_awards : ℕ → List ℕ → List ℕ → ℕ → Result Error ℕ
check_awards scale (req ∷ reqs) (award ∷ awards) sum_awarded =
    let next = check_awards scale reqs awards (sat_add u128_max sum_awarded award) in
    do ensure (award == sat_mul u128_max req scale / 10000) Error.invalid_fairness_proof; next
check_awards scale [] awards sum_awarded = ok sum_awarded
check_awards scale (req ∷ reqs) [] sum_awarded = ok sum_awarded

unfoldable pub validate_fairness_proof : BatchFairnessProof → Result Error (Unit {0})
unfolding check_ascending check_awards
validate_fairness_proof p = do
  ensure (leb p.pro_rata_scale_bps 10000) Error.invalid_fairness_proof
  let n = length p.sorted_intent_ids
  ensure (length p.requested_amounts_ada == n && length p.awarded_amounts_ada == n)
      Error.invalid_fairness_proof
  check_ascending p.sorted_intent_ids
  sum_awarded ← check_awards p.pro_rata_scale_bps p.requested_amounts_ada p.awarded_amounts_ada 0
  ensure (leb sum_awarded p.pool_balance_ada) Error.invalid_fairness_proof
  ensure (leb p.block_range_start p.block_range_end) Error.invalid_fairness_proof
