-- ===== src/Settlement/Fairness/Rules.antt =====
-- What an accepted fairness proof says.
use materios_intent_settleme.Common.{
  ℕ, suc, ◌+◌, ◌*◌, ◌/◌, ◌≤◌, ◌<◌, ◌≡◌, refl, ◌↔◌, inl, inr, false, List, [], ◌∷◌, map, Result, ok,
  length, All, Distinct, contains, sum, u64_max, Result-cases, u128_max, arith, ap, sat_mul,
  sat_add,
}
use materios_intent_settleme.Settlement.Types.{BatchFairnessProof, Error}
use materios_intent_settleme.Settlement.Fairness.{
  check_ascending, check_awards, validate_fairness_proof,
}

-- Every later id is greater than every earlier one.
abbrev pub Ascending : List ℕ → Type 0
Ascending [] = Unit
Ascending (x ∷ xs) = All (λ y. x < y) xs × Ascending xs

-- The pro-rata share of a request, rounded down.
abbrev pub share : ℕ → ℕ → ℕ
share scale req = req * scale / 10000

pub record IsFair (p : BatchFairnessProof) : Type 0 where
  pub scale_capped : p.pro_rata_scale_bps ≤ 10000
  pub as_many_requests : length p.requested_amounts_ada ≡ length p.sorted_intent_ids
  pub ascending : Ascending p.sorted_intent_ids
  pub pro_rata : p.awarded_amounts_ada ≡ map (share p.pro_rata_scale_bps) p.requested_amounts_ada
  pub covered : sum p.awarded_amounts_ada ≤ p.pool_balance_ada
  pub range_ordered : p.block_range_start ≤ p.block_range_end

-- The types of the proof's fields: at most 256 entries, amounts of 64 bits, a scale of 32.
pub record IsInRange (p : BatchFairnessProof) : Type 0 where
  pub few : length p.requested_amounts_ada ≤ 256
  pub requests : All (λ r. r ≤ u64_max) p.requested_amounts_ada

Ascending-of_chain : (x : ℕ) (xs : List ℕ) → check_ascending (x ∷ xs) ≡ ok tt → Ascending (x ∷ xs)
unfolding check_ascending
Ascending-of_chain x [] h = (tt, tt)
Ascending-of_chain x (y ∷ ys) h =
    let rest : Ascending (y ∷ ys) = Ascending-of_chain y ys (ground arith) in
    let first : x < y = ground arith in ((first, above x y ys first rest.0), rest)
  where
    above : (x y : ℕ) (zs : List ℕ) → x < y → All (λ z. y < z) zs → All (λ z. x < z) zs
    above x y [] h a = tt
    above x y (z ∷ zs) h a = (omega arith, above x y zs h a.1)

chain_of_Ascending : (x : ℕ) (xs : List ℕ) → Ascending (x ∷ xs) → check_ascending (x ∷ xs) ≡ ok tt
unfolding check_ascending
chain_of_Ascending x [] h = refl
chain_of_Ascending x (y ∷ ys) h = ground (arith, chain_of_Ascending y ys h.1)

check_ascending_iff : (xs : List ℕ) → (check_ascending xs ≡ ok tt) ↔ Ascending xs
unfolding check_ascending
check_ascending_iff [] = (λ _. tt, λ _. refl)
check_ascending_iff (x ∷ xs) = (Ascending-of_chain x xs, chain_of_Ascending x xs)

share-le : (scale req : ℕ) → scale ≤ 10000 → share scale req ≤ req
share-le scale req h = let small : req * scale ≤ req * 10000 = grind arith in omega arith

-- The product of two such factors does not reach the bound of u128.
share_exact :
    (scale req : ℕ)
    → scale ≤ 10000
    → req ≤ u64_max
    → sat_mul u128_max req scale / 10000 ≡ share scale req
share_exact scale req hs hr = let small : req * scale ≤ req * 10000 = grind arith in omega arith

-- One award: the sum goes up by it, and there is room for the rest.
award_step :
    (scale req acc k : ℕ)
    → scale ≤ 10000
    → req ≤ u64_max
    → acc + suc k * u64_max ≤ u128_max
    → (sat_add u128_max acc (share scale req) ≡ acc + share scale req)
      × (acc + share scale req + k * u64_max ≤ u128_max)
award_step scale req acc k hs hr room =
    (omega (arith, share-le scale req hs), omega (arith, share-le scale req hs))

check_awards_sound :
    (scale : ℕ) (reqs awards : List ℕ) (acc total : ℕ)
    → scale ≤ 10000
    → All (λ r. r ≤ u64_max) reqs
    → acc + length reqs * u64_max ≤ u128_max
    → length awards ≡ length reqs
    → check_awards scale reqs awards acc ≡ ok total
    → (awards ≡ map (share scale) reqs) × (total ≡ acc + sum awards)
unfolding check_awards
check_awards_sound scale [] [] acc total hs hr room len h = (refl, ground arith)
check_awards_sound scale [] (a ∷ awards) acc total hs hr room len h = absurd (omega arith)
check_awards_sound scale (r ∷ reqs) [] acc total hs hr room len h = absurd (omega arith)
check_awards_sound scale (r ∷ reqs) (a ∷ awards) acc total hs hr room len h =
    let step = award_step scale r acc (length reqs) hs hr.0 room in
    let exact = share_exact scale r hs hr.0 in
    let same : a ≡ share scale r = ground (arith, exact) in
    let later : (awards ≡ map (share scale) reqs) × (total ≡ acc + share scale r + sum awards) =
      check_awards_sound scale reqs awards (acc + share scale r) total hs hr.1 step.1 (omega arith)
        (ground (arith, exact, step.0)) in
    (rw (same, later.0) refl, rw same (omega (arith, later.1)))

check_awards_complete :
    (scale : ℕ) (reqs : List ℕ) (acc : ℕ)
    → scale ≤ 10000
    → All (λ r. r ≤ u64_max) reqs
    → acc + length reqs * u64_max ≤ u128_max
    → check_awards scale reqs (map (share scale) reqs) acc ≡ ok (acc + sum (map (share scale) reqs))
unfolding check_awards
check_awards_complete scale [] acc hs hr room = ground arith
check_awards_complete scale (r ∷ reqs) acc hs hr room =
    let step = award_step scale r acc (length reqs) hs hr.0 room in
    ground (
      arith,
      share_exact scale r hs hr.0,
      step.0,
      check_awards_complete scale reqs (acc + share scale r) hs hr.1 step.1,
    )

length-share : (scale : ℕ) (reqs : List ℕ) → length (map (share scale) reqs) ≡ length reqs
length-share scale [] = refl
length-share scale (r ∷ reqs) = omega (arith, length-share scale reqs)

IsFair-of_valid :
    (p : BatchFairnessProof) → IsInRange p → validate_fairness_proof p ≡ ok tt → IsFair p
unfolding validate_fairness_proof
IsFair-of_valid p range h = elim (Result-cases awards) [
  | inl (e, failed) ↦ ground arith
  | inr (total, e) ↦
      let scale_capped : p.pro_rata_scale_bps ≤ 10000 = ground arith in
      let as_many : length p.requested_amounts_ada ≡ length p.sorted_intent_ids = ground arith in
      let as_many_awards : length p.awarded_amounts_ada ≡ length p.sorted_intent_ids =
        ground arith in
      let fit : total ≤ p.pool_balance_ada = ground arith in
      let paid =
        check_awards_sound p.pro_rata_scale_bps p.requested_amounts_ada p.awarded_amounts_ada 0
          total scale_capped range.requests (omega (arith, range.few)) (omega arith) e in
      record {
        scale_capped = scale_capped;
        as_many_requests = as_many;
        ascending = (check_ascending_iff p.sorted_intent_ids).0 (ground arith);
        pro_rata = paid.0;
        covered = omega (arith, paid.1);
        range_ordered = ground arith;
      }
]
  where
    awards : Result Error ℕ
    awards = check_awards p.pro_rata_scale_bps p.requested_amounts_ada p.awarded_amounts_ada 0

valid_of_IsFair :
    (p : BatchFairnessProof) → IsInRange p → IsFair p → validate_fairness_proof p ≡ ok tt
unfolding validate_fairness_proof
valid_of_IsFair p range f = rw f.pro_rata (
    ground (
      arith,
      (check_ascending_iff p.sorted_intent_ids).1 f.ascending,
      length-share p.pro_rata_scale_bps p.requested_amounts_ada,
      check_awards_complete p.pro_rata_scale_bps p.requested_amounts_ada 0 f.scale_capped
          range.requests (omega (arith, range.few)),
      ap sum f.pro_rata,
    ))

-- A proof whose fields are in the range of their types is accepted exactly when it is fair: the
-- scale is at most 10000 basis points, there are as many requests as ids, the ids strictly ascend,
-- each award is the share of its request at the scale, the awards fit in the pool, and the block
-- range is in order.
pub validate_fairness_proof_iff :
    (p : BatchFairnessProof) → IsInRange p → (validate_fairness_proof p ≡ ok tt) ↔ IsFair p
validate_fairness_proof_iff p range = (IsFair-of_valid p range, valid_of_IsFair p range)

-- Each award is at most its request.
abbrev pub AtMost : List ℕ → List ℕ → Type 0
AtMost [] reqs = Unit
AtMost (a ∷ awards) [] = ⊥
AtMost (a ∷ awards) (r ∷ reqs) = (a ≤ r) × AtMost awards reqs

share-AtMost : (scale : ℕ) (reqs : List ℕ) → scale ≤ 10000 → AtMost (map (share scale) reqs) reqs
share-AtMost scale [] h = tt
share-AtMost scale (r ∷ reqs) h = (share-le scale r h, share-AtMost scale reqs h)

above-not-contained : (x : ℕ) (xs : List ℕ) → All (λ y. x < y) xs → contains xs x ≡ false
above-not-contained x [] h = refl
above-not-contained x (y ∷ ys) h = ground (arith, above-not-contained x ys h.1)

Ascending-Distinct : (xs : List ℕ) → Ascending xs → Distinct xs
Ascending-Distinct [] h = tt
Ascending-Distinct (x ∷ xs) h = (above-not-contained x xs h.0, Ascending-Distinct xs h.1)

-- An accepted proof whose fields are in the range of their types awards no claim more than was
-- requested for it, spends no more than the pool holds, and lists no intent twice.
pub validated_awards_bounded :
    (p : BatchFairnessProof)
    → IsInRange p
    → validate_fairness_proof p ≡ ok tt
    → AtMost p.awarded_amounts_ada p.requested_amounts_ada
      × (sum p.awarded_amounts_ada ≤ p.pool_balance_ada)
      × Distinct p.sorted_intent_ids
validated_awards_bounded p range h =
    let fair = IsFair-of_valid p range h in
    (
      rw fair.pro_rata
          (share-AtMost p.pro_rata_scale_bps p.requested_amounts_ada fair.scale_capped),
      fair.covered,
      Ascending-Distinct p.sorted_intent_ids fair.ascending,
    )
