-- ===== src/Stats/Summary/Rolling.antt =====
-- The rolling summaries of src/main.rs are `block_summary` of src/stats.rs over adjacent stretches.
use robinhood_feed_bench.Common.{ℕ, ◌+◌, ◌≤◌, List, [], ◌∷◌, Option, none, some, if◌then◌else◌}
use robinhood_feed_bench.Event.{Instant}
use robinhood_feed_bench.Stats.{Collector, BlockRec}
use robinhood_feed_bench.Stats.Windows.Timely.{Timely}
use robinhood_feed_bench.Stats.Percentile.{Floats}
use robinhood_feed_bench.Stats.Summary.Wins.{is_out}

module _ (floats : Floats) (ms : ℕ → floats.F) (pct : ℕ → ℕ → floats.F) where
  -- Whether a block is counted, as a number, and how many are.
  abbrev counts_one : Collector → Option Instant → Instant → BlockRec → ℕ
  counts_one c since until r = elim r.completed_at [
    | none ↦ 0
    | some done ↦ if is_out floats ms pct c since until r.first done then 0 else 1
  ]

  abbrev counted : Collector → Option Instant → Instant → List BlockRec → ℕ
  counted c since until [] = 0
  counted c since until (r ∷ rs) = counts_one c since until r + counted c since until rs

  abbrev pub NotAfter : Option Instant → Instant → Type 0
  NotAfter none mid = Unit {0}
  NotAfter (some since) mid = since ≤ mid
