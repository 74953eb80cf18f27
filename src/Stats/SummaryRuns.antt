-- ===== src/Stats/SummaryRuns.antt =====
-- The percentiles and summaries of src/stats.rs with whole numbers as samples.
use robinhood_feed_bench.Common.{
  ℕ, ◌+◌, ◌-◌, ◌*◌, ◌/◌, ◌≡◌, true, [], ◌∷◌, none, some, ltb, leb, Ensures, arith,
}
use robinhood_feed_bench.Common.Texts.{codes}
use robinhood_feed_bench.Stats.{BlockRec, Collector}
use robinhood_feed_bench.Stats.Runs.{state}
use robinhood_feed_bench.Stats.Percentile.{Floats, Percentiles, percentiles}
use robinhood_feed_bench.Stats.Percentile.Ordered.{IsOrder, Upto, percentiles-ordered}
use robinhood_feed_bench.Stats.Pairs.{Marks}

abbrev pub whole : Floats
whole = record { F = ℕ; zero = 0; greater = λ a b. ltb b a; half_sum = λ a b. (a + b) / 2 }

pub whole-IsOrder : IsOrder whole
whole-IsOrder = record { asym = λ a b h. ground arith; trans = λ a b c h k. ground arith }

abbrev pub marks : Marks whole
marks = record {
  signed = λ a b. a - b;
  positive = λ d. ltb 0 d;
  within_1 = λ d. leb d 1;
  above_5 = λ d. ltb 5 d;
  below_5 = λ d. ltb d 5;
  interval_index = λ t i. t / i;
  interval_start = λ k i. k * i;
}

percentiles-ordered_example :
    Ensures
      (λ (p : Percentiles whole).
        (p.n ≡ 3)
        × Upto whole whole-IsOrder p.p10 p.p50
        × Upto whole whole-IsOrder p.p50 p.p75
        × Upto whole whole-IsOrder p.p75 p.p90
        × Upto whole whole-IsOrder p.p90 p.p95
        × Upto whole whole-IsOrder p.p95 p.p99
        × Upto whole whole-IsOrder p.p99 p.p999
        × Upto whole whole-IsOrder p.p999 p.max)
      (percentiles whole (5 ∷ 2 ∷ 9 ∷ []))
percentiles-ordered_example = percentiles-ordered whole whole-IsOrder (5 ∷ 2 ∷ 9 ∷ [])

abbrev nine : BlockRec
nine = record {
  seq = some 9;
  hash = none;
  tx_count = none;
  arrivals = some 90 ∷ some 80 ∷ [];
  first = 80;
  first_src = 1;
  seen = 2;
  completed_at = some 90;
}

abbrev ended : Collector
ended = record (state true ((5, none) ∷ [])) { blocks = (codes "9", nine) ∷ [] }

abbrev pub pct : ℕ → ℕ → ℕ
pct k n = k * 100 / n
