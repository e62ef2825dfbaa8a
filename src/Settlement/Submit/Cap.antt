-- ===== src/Settlement/Submit/Cap.antt =====
-- The cap on the pool's utilization: what it bounds, and where the cast to u32 lets it slip.
use materios_intent_settleme.Common.{
  ℕ, ◌+◌, ◌-◌, ◌*◌, ◌/◌, ◌≤◌, ◌<◌, ◌≡◌, List, put, ok, u32_mod, u64_max, u128_max, sat_mul, sat_add,
  arith,
}
use Prim.Native.Nat.{max}
use native.Mathlib.Nat.{mod-eq_of_lt}
use materios_intent_settleme.Settlement.Types.{IntentKind, PoolUtilizationParams}
use materios_intent_settleme.Settlement.State.{State}
use materios_intent_settleme.Settlement.Submit.{utilization_bps, reserve_credit}

-- The outstanding coverage with the premium, in basis points of the net asset value.
abbrev pub true_bps : PoolUtilizationParams → ℕ → ℕ
true_bps u premium = (u.outstanding_coverage_ada + premium) * 10000 / max u.total_nav_ada 1

-- Without a cast that wraps, and with a sum that fits in u64, the pallet computes the true ratio.
utilization_bps_exact :
    (u : PoolUtilizationParams) (premium : ℕ)
    → u.outstanding_coverage_ada + premium ≤ u64_max
    → true_bps u premium < u32_mod
    → utilization_bps u premium ≡ true_bps u premium
unfolding utilization_bps
utilization_bps_exact u premium fits small =
    let sum_fits : sat_add u64_max u.outstanding_coverage_ada premium
        ≡ u.outstanding_coverage_ada + premium =
      omega arith in
    let product_fits : sat_mul u128_max (u.outstanding_coverage_ada + premium) 10000
        ≡ (u.outstanding_coverage_ada + premium) * 10000 =
      omega arith in
    rw (sum_fits, product_fits) (mod-eq_of_lt small)

-- A policy that is bought keeps the pool under its cap, so long as the sum of the coverage and the
-- premium fits in u64 and the ratio in u32.
pub bought_policy_under_cap :
    (who product strike term premium : ℕ) (addr : List ℕ) (s s' : State)
    → s.pool.outstanding_coverage_ada + premium ≤ u64_max
    → true_bps s.pool premium < u32_mod
    → reserve_credit who (IntentKind.buy_policy product strike term premium addr) s ≡ ok s'
    → (true_bps s.pool premium ≤ s.pool.cap_bps) × (premium ≤ s.credits who)
unfolding reserve_credit
bought_policy_under_cap who product strike term premium addr s s' fits small h =
    ground (arith, utilization_bps_exact s.pool premium fits small)

-- Over a pool with no net asset value the ratio of every multiple of 2^28 lovelace is cast to 0.
utilization_wraps :
    (u : PoolUtilizationParams) (premium k : ℕ)
    → u.total_nav_ada ≤ 1
    → u.outstanding_coverage_ada + premium ≡ k * 268435456
    → k * 268435456 ≤ u64_max
    → utilization_bps u premium ≡ 0
unfolding utilization_bps
utilization_wraps u premium k empty multiple fits =
    let one : max u.total_nav_ada 1 ≡ 1 = omega arith in
    let sum_fits : sat_add u64_max u.outstanding_coverage_ada premium ≡ k * 268435456 =
      omega arith in
    let product_fits : sat_mul u128_max (k * 268435456) 10000 ≡ k * 268435456 * 10000 =
      omega arith in
    rw (sum_fits, product_fits, one) (omega arith)

-- The cap does not hold in general: over a pool whose net asset value is at most 1 lovelace, a
-- policy whose premium its buyer's credit covers and brings the coverage to a multiple of 2^28
-- lovelace within 64 bits is accepted under any cap, though the pool's true utilization is 10000
-- basis points for each lovelace.
pub cap_bypassed :
    (who product strike term premium k : ℕ) (addr : List ℕ) (s : State)
    → s.pool.total_nav_ada ≤ 1
    → s.pool.outstanding_coverage_ada + premium ≡ k * 268435456
    → k * 268435456 ≤ u64_max
    → premium ≤ s.credits who
    → (reserve_credit who (IntentKind.buy_policy product strike term premium addr) s
        ≡ ok (record s { credits = put s.credits who (s.credits who - premium) }))
      × (true_bps s.pool premium ≡ k * 2684354560000)
unfolding reserve_credit
cap_bypassed who product strike term premium k addr s empty multiple fits covered =
    let one : max s.pool.total_nav_ada 1 ≡ 1 = omega arith in
    (
      ground (arith, utilization_wraps s.pool premium k empty multiple fits),
      rw (one, multiple) (omega arith),
    )
