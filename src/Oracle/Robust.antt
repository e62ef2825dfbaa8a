-- ===== src/Oracle/Robust.antt =====
-- The aggregated price is a median, which a minority of the attestors cannot move.
use materios_intent_settleme.Common.{
  ℕ, suc, ◌+◌, ◌*◌, ◌-◌, ◌/◌, ◌%◌, ◌≤◌, ◌<◌, ◌≡◌, subst, ◌⊎◌, inl, inr, Bool, false, ◌&&◌, List, [],
  ◌∷◌, arith, leb, length, Bool-cases, ◌==◌,
}
use materios_intent_settleme.Oracle.Median.{sort, at, median}
use materios_intent_settleme.Oracle.Rank.{
  count, at_most, IsMiddle, odd-IsMiddle, even-IsMiddle, sort-Sorted, length-sort, count-sort,
}

half :
    (v : List ℕ)
    → 1 ≤ length v
    → (length v % 2 == 1) ≡ false
    → length v ≡ 2 * suc (length v / 2 - 1)
half v n even = ground arith

median_of_sorted : (xs : List ℕ) → 1 ≤ length xs → IsMiddle (median xs) (sort xs)
unfolding median
median_of_sorted xs some_price =
    let v = sort xs in
    let n : 1 ≤ length v = omega (arith, length-sort xs) in
    elim (Bool-cases (length v % 2 == 1)) [
      | inl odd ↦
          let result : median xs ≡ at v (length v / 2) = ground arith in
          rw result (odd-IsMiddle v (sort-Sorted xs) (ground arith))
      | inr even ↦
          let i = length v / 2 - 1 in
          let double = half v n even in
          let next : suc i ≡ length v / 2 = omega arith in
          let result : median xs ≡ (at v i + at v (length v / 2)) / 2 = ground arith in
          rw result (
            subst (λ j. IsMiddle ((at v i + at v j) / 2) v) next
              (even-IsMiddle v i (sort-Sorted xs) double))
    ]

-- The median of a list that is not empty is a middle of it: no more than half of the prices lie
-- above it, and no more than half below it.
pub median-IsMiddle : (xs : List ℕ) → 1 ≤ length xs → IsMiddle (median xs) xs
median-IsMiddle xs some_price =
    let m = median xs in
    let sorted = median_of_sorted xs some_price in
    record {
      enough_below = omega (arith, sorted.enough_below, length-sort xs, count-sort (at_most m) xs);
      enough_above = omega (arith, sorted.enough_above, length-sort xs, count-sort (leb m) xs);
    }

-- Inside the interval from `lo` to `hi`.
abbrev pub inside : ℕ → ℕ → ℕ → Bool
inside lo hi x = leb lo x && leb x hi

below-or-inside :
    (m lo hi : ℕ) (xs : List ℕ)
    → m < lo
    → count (at_most m) xs + count (inside lo hi) xs ≤ length xs
below-or-inside m lo hi [] h = omega arith
below-or-inside m lo hi (x ∷ xs) h = ground (arith, below-or-inside m lo hi xs h)

above-or-inside :
    (m lo hi : ℕ) (xs : List ℕ) → hi < m → count (leb m) xs + count (inside lo hi) xs ≤ length xs
above-or-inside m lo hi [] h = omega arith
above-or-inside m lo hi (x ∷ xs) h = ground (arith, above-or-inside m lo hi xs h)

some_inside : (xs : List ℕ) (lo hi : ℕ) → length xs < 2 * count (inside lo hi) xs → 1 ≤ length xs
some_inside [] lo hi h = omega arith
some_inside (x ∷ xs) lo hi h = omega arith

ltb-cases : (a b : ℕ) → (a < b) ⊎ (b ≤ a)
ltb-cases a b = elim (Bool-cases (leb b a)) [
  | inl large ↦ inr (ground arith)
  | inr small ↦ inl (ground arith)
]

-- If more than half of the prices lie in an interval, the median lies in it too, whatever the others
-- are.
pub median_of_majority :
    (xs : List ℕ) (lo hi : ℕ)
    → length xs < 2 * count (inside lo hi) xs
    → (lo ≤ median xs) × (median xs ≤ hi)
median_of_majority xs lo hi most =
    let m = median xs in
    let some_price : 1 ≤ length xs = some_inside xs lo hi most in
    let middle = median-IsMiddle xs some_price in
    (
      elim (ltb-cases m lo) [
        | inl low ↦ omega (arith, below-or-inside m lo hi xs low, middle.enough_below)
        | inr enough ↦ enough
      ],
      elim (ltb-cases hi m) [
        | inl high ↦ omega (arith, above-or-inside m lo hi xs high, middle.enough_above)
        | inr enough ↦ enough
      ],
    )
