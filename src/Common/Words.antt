-- ===== src/Common/Words.antt =====
-- Machine integers: bounds and the saturating operations of u32, u64 and u128.
use Prim.Native.Nat.{ℕ, ◌+◌, ◌*◌, ◌%◌, min}

-- The largest value and the modulus of a width.
abbrev pub u32_max : ℕ
u32_max = 4294967295

abbrev pub u32_mod : ℕ
u32_mod = 4294967296

abbrev pub u64_max : ℕ
u64_max = 18446744073709551615

abbrev pub u128_max : ℕ
u128_max = 340282366920938463463374607431768211455

-- `saturating_sub` is the truncated `-` of the numbers.
abbrev pub sat_add : ℕ → ℕ → ℕ → ℕ
sat_add bound a b = min (a + b) bound

abbrev pub sat_mul : ℕ → ℕ → ℕ → ℕ
sat_mul bound a b = min (a * b) bound

-- `as u32`
abbrev pub as_u32 : ℕ → ℕ
as_u32 n = n % u32_mod
