-- ===== src/Stats/Percentile/Ranks.antt =====
-- The rank of src/stats.rs is the nearest rank, and it is within the samples.
use robinhood_feed_bench.Common.{ℕ, ◌*◌, ◌≤◌, arith}
use native.Mathlib.Nat.{mul-le-mul_right}
use robinhood_feed_bench.Stats.Percentile.{rank}

-- The rank is the least one, from 1 on, that leaves at least that share of the samples at or below
-- it, for a share of at most all of them.
pub rank-least :
    (permille n : ℕ)
    → 1 ≤ n
    → permille ≤ 1000
    → (1 ≤ rank permille n)
      × (rank permille n ≤ n)
      × (permille * n ≤ 1000 * rank permille n)
      × ((r : ℕ) → 1 ≤ r → permille * n ≤ 1000 * r → rank permille n ≤ r)
unfolding rank
rank-least permille n some_n share =
    let bound : permille * n ≤ 1000 * n = mul-le-mul_right n share in
    (omega arith, omega arith, omega arith, λ r h k. omega arith)

pub rank_mono : (p q n : ℕ) → p ≤ q → rank p n ≤ rank q n
unfolding rank
rank_mono p q n h = let bound : p * n ≤ q * n = mul-le-mul_right n h in omega arith

pub rank-bounds : (p n : ℕ) → 1 ≤ n → (1 ≤ rank p n) × (rank p n ≤ n)
unfolding rank
rank-bounds p n h = omega arith
