-- ===== src/Oracle/Rank.antt =====
-- The aggregated price is a median.
use materios_intent_settleme.Common.{
  ℕ, zero, suc, ◌+◌, ◌*◌, ◌/◌, ◌%◌, ◌≤◌, ◌<◌, ◌≡◌, refl, inl, inr, Bool, if◌then◌else◌, List, [],
  ◌∷◌, arith, leb, length, Bool-cases, All,
}
use materios_intent_settleme.Oracle.Median.{insert, sort, at}

-- How many of the numbers pass a test.
abbrev pub count : (ℕ → Bool) → List ℕ → ℕ
count p [] = 0
count p (x ∷ xs) = (if p x then 1 else 0) + count p xs

abbrev pub Sorted : List ℕ → Type 0
Sorted [] = Unit
Sorted (x ∷ xs) = All (λ y. x ≤ y) xs × Sorted xs

count-insert : (p : ℕ → Bool) (x : ℕ) (xs : List ℕ) → count p (insert x xs) ≡ count p (x ∷ xs)
unfolding insert
count-insert p x [] = refl
count-insert p x (y ∷ ys) = ground (arith, count-insert p x ys)

pub count-sort : (p : ℕ → Bool) (xs : List ℕ) → count p (sort xs) ≡ count p xs
unfolding sort
count-sort p [] = refl
count-sort p (x ∷ xs) = omega (arith, count-insert p x (sort xs), count-sort p xs)

length-insert : (x : ℕ) (xs : List ℕ) → length (insert x xs) ≡ suc (length xs)
unfolding insert
length-insert x [] = refl
length-insert x (y ∷ ys) = ground (arith, length-insert x ys)

pub length-sort : (xs : List ℕ) → length (sort xs) ≡ length xs
unfolding sort
length-sort [] = refl
length-sort (x ∷ xs) = omega (arith, length-insert x (sort xs), length-sort xs)

All-insert : (P : ℕ → Type 0) (x : ℕ) (xs : List ℕ) → P x → All P xs → All P (insert x xs)
unfolding insert
All-insert P x [] px all = (px, tt)
All-insert P x (y ∷ ys) px (py, rest) = elim (Bool-cases (leb x y)) [
  | inl e ↦ rw e (px, (py, rest))
  | inr e ↦ rw e (py, All-insert P x ys px rest)
]

All-le_trans : (x y : ℕ) (ys : List ℕ) → x ≤ y → All (λ z. y ≤ z) ys → All (λ z. x ≤ z) ys
All-le_trans x y [] le all = tt
All-le_trans x y (z ∷ zs) le (h, rest) = (omega arith, All-le_trans x y zs le rest)

insert-Sorted : (x : ℕ) (xs : List ℕ) → Sorted xs → Sorted (insert x xs)
unfolding insert
insert-Sorted x [] sorted = (tt, tt)
insert-Sorted x (y ∷ ys) (least, sorted) = elim (Bool-cases (leb x y)) [
  | inl e ↦ rw e ((ground arith, All-le_trans x y ys (ground arith) least), (least, sorted))
  | inr e ↦ rw e (All-insert (λ z. y ≤ z) x ys (ground arith) least, insert-Sorted x ys sorted)
]

pub sort-Sorted : (xs : List ℕ) → Sorted (sort xs)
unfolding sort
sort-Sorted [] = tt
sort-Sorted (x ∷ xs) = insert-Sorted x (sort xs) (sort-Sorted xs)

count-All : (m : ℕ) (xs : List ℕ) → All (λ y. m ≤ y) xs → count (leb m) xs ≡ length xs
count-All m [] all = refl
count-All m (x ∷ xs) (le, rest) = ground (arith, count-All m xs rest)

All-at : (m : ℕ) (xs : List ℕ) (i : ℕ) → All (λ y. m ≤ y) xs → i < length xs → m ≤ at xs i
All-at m [] i all h = omega arith
All-at m (x ∷ xs) zero (le, rest) h = le
All-at m (x ∷ xs) (suc i) (le, rest) h = All-at m xs i rest (omega arith)

-- At most `m`, for a test on `x`.
abbrev pub at_most : ℕ → ℕ → Bool
at_most m x = leb x m

-- In a sorted list, at least `i + 1` numbers are at most the one at `i`.
at-below :
    (xs : List ℕ) (i m : ℕ) → Sorted xs → i < length xs → at xs i ≤ m → i + 1 ≤ count (at_most m) xs
at-below [] i m sorted h le = omega arith
at-below (x ∷ xs) zero m sorted h le = ground arith
at-below (x ∷ xs) (suc i) m (least, sorted) h le =
    let rest = at-below xs i m sorted (omega arith) le in
    let first : x ≤ at xs i = All-at x xs i least (omega arith) in ground arith

-- In a sorted list, all numbers from `i` on are at least the one at `i`.
at-above :
    (xs : List ℕ) (i m : ℕ)
    → Sorted xs
    → i < length xs
    → m ≤ at xs i
    → length xs ≤ i + count (leb m) xs
at-above [] i m sorted h le = omega arith
at-above (x ∷ xs) zero m (least, sorted) h le =
    ground (arith, count-All m xs (All-le_trans m x xs le least))
at-above (x ∷ xs) (suc i) m (least, sorted) h le =
    let rest = at-above xs i m sorted (omega arith) le in ground arith

at_mono : (xs : List ℕ) (i : ℕ) → Sorted xs → suc i < length xs → at xs i ≤ at xs (suc i)
at_mono [] i sorted h = omega arith
at_mono (x ∷ xs) zero (least, sorted) h = All-at x xs 0 least (omega arith)
at_mono (x ∷ xs) (suc i) (least, sorted) h = at_mono xs i sorted (omega arith)

-- A number is a middle of the list if no more than half of the numbers lie above it, and no more
-- than half below it.
pub record IsMiddle (m : ℕ) (xs : List ℕ) : Type 0 where
  pub enough_below : length xs ≤ 2 * count (at_most m) xs
  pub enough_above : length xs ≤ 2 * count (leb m) xs

between : (lo hi : ℕ) → lo ≤ hi → (lo ≤ (lo + hi) / 2) × ((lo + hi) / 2 ≤ hi)
between lo hi h = (omega arith, omega arith)

pub odd-IsMiddle : (v : List ℕ) → Sorted v → length v % 2 ≡ 1 → IsMiddle (at v (length v / 2)) v
odd-IsMiddle v sorted odd =
    let i = length v / 2 in
    let below = at-below v i (at v i) sorted (omega arith) (omega arith) in
    let above = at-above v i (at v i) sorted (omega arith) (omega arith) in
    record { enough_below = omega arith; enough_above = omega arith }

pub even-IsMiddle :
    (v : List ℕ) (i : ℕ)
    → Sorted v
    → length v ≡ 2 * suc i
    → IsMiddle ((at v i + at v (suc i)) / 2) v
even-IsMiddle v i sorted even =
    let m = (at v i + at v (suc i)) / 2 in
    let inside = between (at v i) (at v (suc i)) (at_mono v i sorted (omega arith)) in
    let below = at-below v i m sorted (omega arith) inside.0 in
    let above = at-above v (suc i) m sorted (omega arith) inside.1 in
    record { enough_below = omega arith; enough_above = omega arith }
