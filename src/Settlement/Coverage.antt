-- ===== src/Settlement/Coverage.antt =====
-- The pool's outstanding coverage against the claims that stand behind it: the counter that
-- `request_voucher`, `settle_claim` and `settle_batch_atomic` of
-- pallets/intent-settlement/src/lib.rs keep is the sum of the unsettled claims.
use materios_intent_settleme.Common.{
  ℕ, ◌+◌, ◌≤◌, ◌≡◌, refl, Bool, true, false, List, [], ◌∷◌, Option, none, some, put, is_some,
  contains, Distinct, arith, if◌then◌else◌, ◌==◌, u64_max, ◌≢◌,
}
use materios_intent_settleme.Settlement.Types.{Claim}
use materios_intent_settleme.Settlement.State.{State}
pub mod Mint
pub mod Pay
pub mod Batch
pub mod BatchTotals

-- What a claim still owes.
abbrev pub owed : Option Claim → ℕ
owed none = 0
owed (some c) = if c.is_settled then 0 else c.amount_ada

-- What the claims under the listed ids owe together.
abbrev pub total_owed : (ℕ → Option Claim) → List ℕ → ℕ
total_owed claims [] = 0
total_owed claims (id ∷ ids) = owed (claims id) + total_owed claims ids

-- A list that names each claim of the storage, and no id twice.
pub record IsIndex (claims : ℕ → Option Claim) (ids : List ℕ) : Type 0 where
  pub distinct : Distinct ids
  pub complete : (id : ℕ) → contains ids id ≡ false → claims id ≡ none

pub record CoverageInv (s : State) : Type 0 where
  pub ids : List ℕ
  pub index : IsIndex s.claims ids
  pub backed : total_owed s.claims ids ≡ s.pool.outstanding_coverage_ada
  pub bounded : s.pool.outstanding_coverage_ada ≤ u64_max
  pub paired : (id : ℕ) → is_some (s.claims id) ≡ is_some (s.vouchers id)

-- A write to a claim that is not listed does not change the total.
pub total_owed-put_unlisted :
    (claims : ℕ → Option Claim) (id : ℕ) (c : Option Claim) (ids : List ℕ)
    → contains ids id ≡ false
    → total_owed (put claims id c) ids ≡ total_owed claims ids
total_owed-put_unlisted claims id c [] h = refl
total_owed-put_unlisted claims id c (j ∷ ids) h =
    ground (arith, total_owed-put_unlisted claims id c ids)

-- A write to a listed claim changes the total by what it changes of that claim.
pub total_owed-put :
    (claims : ℕ → Option Claim) (id : ℕ) (c : Option Claim) (ids : List ℕ)
    → Distinct ids
    → contains ids id ≡ true
    → total_owed (put claims id c) ids + owed (claims id) ≡ total_owed claims ids + owed c
total_owed-put claims id c [] d h = cc
total_owed-put claims id c (j ∷ ids) d h =
    ground (arith, total_owed-put claims id c ids d.1, total_owed-put_unlisted claims id c ids)

-- A listed claim owes no more than all do.
pub owed-le :
    (claims : ℕ → Option Claim) (id : ℕ) (ids : List ℕ)
    → contains ids id ≡ true
    → owed (claims id) ≤ total_owed claims ids
owed-le claims id [] h = cc
owed-le claims id (j ∷ ids) h = ground (arith, owed-le claims id ids)

-- A claim that is there is listed.
pub listed :
    {claims : ℕ → Option Claim} {ids : List ℕ} (id : ℕ) {c : Claim}
    → IsIndex claims ids
    → claims id ≡ some c
    → contains ids id ≡ true
listed {claims} {ids} id x e = ground (arith, x.complete id)

-- A new claim joins the index.
pub cons-IsIndex :
    (claims : ℕ → Option Claim) (id : ℕ) (c : Claim) (ids : List ℕ)
    → IsIndex claims ids
    → contains ids id ≡ false
    → IsIndex (put claims id (some c)) (id ∷ ids)
cons-IsIndex claims id c ids x new = record {
  distinct = (new, x.distinct);
  complete = λ j h. ground (arith, x.complete j);
}

-- A write under an id that is listed keeps the index.
pub put-IsIndex :
    (claims : ℕ → Option Claim) (id : ℕ) (c : Claim) (ids : List ℕ)
    → IsIndex claims ids
    → contains ids id ≡ true
    → IsIndex (put claims id (some c)) ids
put-IsIndex claims id c ids x old = record {
  distinct = x.distinct;
  complete = λ j h. ground (arith, x.complete j);
}
