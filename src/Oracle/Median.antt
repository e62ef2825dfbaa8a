-- ===== src/Oracle/Median.antt =====
-- The aggregation of prices (`aggregate_median` of pallets/oracle/src/lib.rs).
use materios_intent_settleme.Common.{
  ℕ, ◌+◌, ◌-◌, ◌/◌, ◌%◌, List, [], ◌∷◌, Option, none, some, ◌==◌, leb, if◌then◌else◌, length,
  get_elem?,
}

-- `sort_unstable` on integers.
unfoldable pub insert : ℕ → List ℕ → List ℕ
insert x [] = x ∷ []
insert x (y ∷ ys) = if leb x y then x ∷ y ∷ ys else y ∷ insert x ys

unfoldable pub sort : List ℕ → List ℕ
unfolding insert
sort [] = []
sort (x ∷ xs) = insert x (sort xs)

abbrev pub or_zero : Option ℕ → ℕ
or_zero none = 0
or_zero (some x) = x

-- An index that the code reads, which is always in range.
abbrev pub at : List ℕ → ℕ → ℕ
at xs i = or_zero (get_elem? xs i)

unfoldable pub median : List ℕ → ℕ
unfolding sort
median xs =
    let v = sort xs in
    let n = length v in
    if n == 0 then 0 else if n % 2 == 1 then at v (n / 2) else (at v (n / 2 - 1) + at v (n / 2)) / 2
