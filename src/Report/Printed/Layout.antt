-- ===== src/Report/Printed/Layout.antt =====
-- What the text of a report of src/report.rs shows.
use robinhood_feed_bench.Common.{ℕ, ◌+◌, ◌≡◌, List, [], ◌∷◌, ◌++◌, map}
use robinhood_feed_bench.Common.Decimal.{decimal}
use robinhood_feed_bench.Common.Texts.{Text, codes}
use robinhood_feed_bench.Stats.Percentile.{Floats}
use robinhood_feed_bench.Stats.Summary.{BlockSourceStats}
use robinhood_feed_bench.Stats.TxSummary.{TxSourceStats}
use robinhood_feed_bench.Stats.Pairs.{Marks, IntervalStats, BucketStats, PairSummary}
use robinhood_feed_bench.Report.Table.Rows.{IsTable}
use robinhood_feed_bench.Report.Rendered.{format, Report}
use robinhood_feed_bench.Report.Printed.Heading.{joined, IsHeader}

module _ (floats : Floats) (ms : ℕ → floats.F) (pct : ℕ → ℕ → floats.F) (marks : Marks floats)
    (fixed plus : ℕ → floats.F → Text) (mega : ℕ → floats.F) where
  abbrev percent : floats.F → Text
  percent x = fixed 1 x ++ codes "%"

  -- The cells of the tables.
  abbrev pub block_cells : BlockSourceStats floats ms pct → List Text
  block_cells s =
      s.name
      ∷ decimal s.wins
      ∷ percent s.win_pct
      ∷ fixed 2 s.delay.p10
      ∷ fixed 2 s.delay.p50
      ∷ fixed 2 s.delay.p75
      ∷ fixed 2 s.delay.p90
      ∷ fixed 2 s.delay.p95
      ∷ fixed 2 s.delay.p99
      ∷ fixed 2 s.delay.p999
      ∷ fixed 2 s.delay.max
      ∷ decimal s.delay.n
      ∷ []

  abbrev pub tx_cells : TxSourceStats floats ms pct → List Text
  tx_cells s =
      s.name
      ∷ decimal s.seen
      ∷ percent s.coverage_pct
      ∷ percent s.first_pct
      ∷ percent s.first_by_1ms_pct
      ∷ fixed 2 s.lag_p50
      ∷ fixed 2 s.lag_p90
      ∷ fixed 2 s.lag_p95
      ∷ fixed 2 s.lag_p99
      ∷ fixed 2 s.lag_max
      ∷ []

  abbrev pub interval_cells : IntervalStats floats marks pct → List Text
  interval_cells i =
      (codes "#" ++ decimal i.index)
      ∷ (fixed 0 i.start_s ++ codes "s")
      ∷ decimal i.n
      ∷ plus 2 i.median_ms
      ∷ percent i.ref_first_pct
      ∷ []

  abbrev pub bucket_cells : BucketStats floats marks pct → List Text
  bucket_cells b =
      b.label
      ∷ decimal b.blocks
      ∷ percent b.blocks_pct
      ∷ decimal b.txs
      ∷ percent b.txs_pct
      ∷ (plus 2 b.median_ms ++ codes " ms")
      ∷ plus 2 b.p10_ms
      ∷ plus 2 b.p90_ms
      ∷ percent b.ref_first_pct
      ∷ []

  -- The table of the intervals stands there when there are two or more of them.
  abbrev pub HasIntervals :
      PairSummary floats marks pct → List (IntervalStats floats marks pct) → List Text → Type 0
  HasIntervals p [] ls = ls ≡ []
  HasIntervals p (i ∷ []) ls = ls ≡ []
  HasIntervals p (i ∷ j ∷ is) ls =
      IsTable
        (codes "interval"
          ∷ codes "from"
          ∷ codes "txs"
          ∷ codes "median"
          ∷ (p.reference ++ codes " first")
          ∷ [])
        (map interval_cells (i ∷ j ∷ is)) ls

  -- A title with the number and the two sources, a table of one row, the table of the intervals,
  -- a line that says where the sizes come from, the table of the buckets, and a blank line.
  abbrev pub IsPair : ℕ → PairSummary floats marks pct → List Text → Type 0
  IsPair i p ls =
      (a : List Text) × (b : List Text) × (c : List Text) × (ls
        ≡ joined (
            (format (
                codes "C"
                ∷ decimal (i + 1)
                ∷ codes ". "
                ∷ p.reference
                ∷ codes " vs "
                ∷ p.other
                ∷ codes ": "
                ∷ decimal p.n
                ∷ codes " txs seen by both; positive = "
                ∷ p.reference
                ∷ codes " earlier"
                ∷ [])
              ∷ [])
            ∷ a
            ∷ b
            ∷ (format (codes "by block size (tx count from " ∷ p.size_source ∷ codes "):" ∷ [])
                ∷ [])
            ∷ c
            ∷ ([] ∷ [])
            ∷ []))
      × IsTable
          (codes "median"
            ∷ codes "p10"
            ∷ codes "p90"
            ∷ (p.reference ++ codes " first")
            ∷ codes "within 1ms"
            ∷ (p.reference ++ codes " >5ms earlier")
            ∷ (p.other ++ codes " >5ms earlier")
            ∷ [])
          ((plus 2 p.median_ms
              ∷ plus 2 p.p10_ms
              ∷ plus 2 p.p90_ms
              ∷ percent p.ref_first_pct
              ∷ percent p.within_1ms_pct
              ∷ percent p.ref_earlier_5ms_pct
              ∷ percent p.other_earlier_5ms_pct
              ∷ [])
            ∷ [])
          a
      × HasIntervals p p.intervals b
      × IsTable
          (codes "block size"
            ∷ codes "blocks"
            ∷ codes "blocks%"
            ∷ codes "txs"
            ∷ codes "txs%"
            ∷ (p.reference ++ codes " earlier by")
            ∷ codes "p10"
            ∷ codes "p90"
            ∷ (p.reference ++ codes " first")
            ∷ [])
          (map bucket_cells p.bucket_list) c

  abbrev pub IsPairs : ℕ → List (PairSummary floats marks pct) → List Text → Type 0
  IsPairs i [] ls = ls ≡ []
  IsPairs i (p ∷ ps) ls =
      (s : List Text) × (t : List Text) × (ls ≡ s ++ t) × IsPair i p s × IsPairs (i + 1) ps t

  -- The header, section A with a row for each source, section B with a row for each source, and a
  -- section for each pair, with blank lines in between.
  abbrev pub IsReport : Report floats ms pct marks fixed plus mega → List Text → Type 0
  IsReport r ls =
      (h : List Text) × (a : List Text) × (b : List Text) × (c : List Text) × (ls
        ≡ joined (
            h
            ∷ ([] ∷ [])
            ∷ (codes
                  "A. Block level: first source to deliver a block wins; delay behind the winner in ms"
                ∷ format
                    (r.block.label ∷ codes " completed blocks: " ∷ decimal r.block.completed ∷ [])
                ∷ [])
            ∷ a
            ∷ ([] ∷ [])
            ∷ (codes "B. Transaction level: key = tx hash; lag behind the earliest source in ms"
                ∷ format (
                    codes "distinct txs "
                    ∷ decimal r.tx.total
                    ∷ codes "   seen by all "
                    ∷ decimal r.tx.matched
                    ∷ codes "   flagged swaps "
                    ∷ decimal r.tx.synthetic_swaps
                    ∷ [])
                ∷ [])
            ∷ b
            ∷ ([] ∷ [])
            ∷ c
            ∷ []))
      × IsHeader floats ms pct marks fixed plus mega r.header h
      × IsTable
          (codes "source"
            ∷ codes "wins"
            ∷ codes "win%"
            ∷ codes "p10"
            ∷ codes "p50"
            ∷ codes "p75"
            ∷ codes "p90"
            ∷ codes "p95"
            ∷ codes "p99"
            ∷ codes "p99.9"
            ∷ codes "max"
            ∷ codes "blocks"
            ∷ [])
          (map block_cells r.block.per_source) a
      × IsTable
          (codes "source"
            ∷ codes "seen"
            ∷ codes "coverage"
            ∷ codes "first"
            ∷ codes "first>=1ms"
            ∷ codes "p50"
            ∷ codes "p90"
            ∷ codes "p95"
            ∷ codes "p99"
            ∷ codes "max"
            ∷ [])
          (map tx_cells r.tx.per_source) b
      × IsPairs 0 r.pairs c
