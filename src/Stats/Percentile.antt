-- ===== src/Stats/Percentile.antt =====
-- src/stats.rs: percentiles of samples. A sample is an f64: its order, `0.0` and the half of a
-- sum are parameters, as f64 arithmetic is the standard library's. `none` is a panic.
pub mod Ranks
pub mod Ordered
pub mod Middle
use robinhood_feed_bench.Common.{
  ℕ, zero, suc, ◌+◌, ◌-◌, ◌*◌, ◌/◌, ◌%◌, min, max, Bool, true, false, List, [], ◌∷◌, Option, none,
  some, length, get_elem?, if◌then◌else◌, ◌==◌, ◌>>=◌,
}

pub record Floats : Type 1 where
  pub F : Type 0
  pub zero : F
  -- `a.partial_cmp(b)` is `Greater`.
  pub greater : F → F → Bool
  pub half_sum : F → F → F

-- `(permille * n).div_ceil(1000).clamp(1, n)`
pub rank : ℕ → ℕ → ℕ
rank permille n = min (max ((permille * n + 999) / 1000) 1) n

module _ (floats : Floats) where
  open floats use {F, greater, half_sum}

  pub nearest_rank : List F → ℕ → Option F
  nearest_rank [] permille = some floats.zero
  nearest_rank (x ∷ xs) permille = get_elem? (x ∷ xs) (rank permille (length (x ∷ xs)) - 1)

  pub median : List F → Option F
  median [] = some floats.zero
  median (x ∷ xs) =
      let sorted = x ∷ xs in
      let n = length sorted in
      if n % 2 == 1
      then get_elem? sorted (n / 2)
      else (get_elem? sorted (n / 2 - 1) >>= λ a.
          get_elem? sorted (n / 2) >>= λ b. some (half_sum a b))

  -- `sort_by` is stable: an earlier element goes before a later one that is not less.
  pub insert_sorted : F → List F → List F
  insert_sorted x [] = x ∷ []
  insert_sorted x (y ∷ ys) =
      let rest = insert_sorted x ys in if greater x y then y ∷ rest else x ∷ y ∷ ys

  pub sorted : List F → List F
  sorted [] = []
  sorted (x ∷ xs) = insert_sorted x (sorted xs)

  pub last_or_zero : List F → F
  last_or_zero [] = floats.zero
  last_or_zero (x ∷ []) = x
  last_or_zero (x ∷ y ∷ ys) = last_or_zero (y ∷ ys)

  pub record Percentiles : Type 0 where
    pub n : ℕ
    pub p10 : F
    pub p50 : F
    pub p75 : F
    pub p90 : F
    pub p95 : F
    pub p99 : F
    pub p999 : F
    pub max : F

  pub percentiles : List F → Option Percentiles
  percentiles samples = do
    let s = sorted samples
    p10 ← nearest_rank s 100
    p50 ← nearest_rank s 500
    p75 ← nearest_rank s 750
    p90 ← nearest_rank s 900
    p95 ← nearest_rank s 950
    p99 ← nearest_rank s 990
    p999 ← nearest_rank s 999
    some (record {
      n = length s;
      p10 = p10;
      p50 = p50;
      p75 = p75;
      p90 = p90;
      p95 = p95;
      p99 = p99;
      p999 = p999;
      max = last_or_zero s;
    })
