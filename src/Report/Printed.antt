-- ===== src/Report/Printed.antt =====
-- src/report.rs: `render`, on the parts of Rendered.
pub mod Heading
pub mod Layout
pub mod Sections
mod Runs
use robinhood_feed_bench.Common.{
  ℕ, zero, suc, ◌+◌, Bool, true, false, List, [], ◌∷◌, ◌++◌, map, Option, none, some, length, ltb,
  if◌then◌else◌, ◌>>=◌,
}
use robinhood_feed_bench.Common.Decimal.{decimal}
use robinhood_feed_bench.Common.Texts.{Text, codes}
use robinhood_feed_bench.Stats.Percentile.{Floats}
use robinhood_feed_bench.Stats.TxSummary.{TxSourceStats, TxSummary}
use robinhood_feed_bench.Stats.Pairs.{Marks, IntervalStats, BucketStats, PairSummary}
use robinhood_feed_bench.Report.Table
use robinhood_feed_bench.Report.Table.{Table, new_table, row, ended}
use robinhood_feed_bench.Report.Rendered.{
  format, filled, Report, f2, signed2, pc, render_block_summary, header_lines,
}

module _ (floats : Floats) (ms : ℕ → floats.F) (pct : ℕ → ℕ → floats.F) (marks : Marks floats)
    (fixed plus : ℕ → floats.F → Text) (mega : ℕ → floats.F) where
  open floats use {F}

  abbrev pub shown : F → Text
  shown x = f2 floats ms pct marks fixed plus mega x

  abbrev pub difference : F → Text
  difference x = signed2 floats ms pct marks fixed plus mega x

  abbrev pub percent : F → Text
  percent x = pc floats ms pct marks fixed plus mega x

  abbrev pub tx_headers : List Text
  tx_headers =
      codes "source"
      ∷ codes "seen"
      ∷ codes "coverage"
      ∷ codes "first"
      ∷ codes "first>=1ms"
      ∷ codes "p50"
      ∷ codes "p90"
      ∷ codes "p95"
      ∷ codes "p99"
      ∷ codes "max"
      ∷ []

  abbrev pub tx_row : TxSourceStats floats ms pct → List Text
  tx_row s =
      s.name
      ∷ decimal s.seen
      ∷ percent s.coverage_pct
      ∷ percent s.first_pct
      ∷ percent s.first_by_1ms_pct
      ∷ shown s.lag_p50
      ∷ shown s.lag_p90
      ∷ shown s.lag_p95
      ∷ shown s.lag_p99
      ∷ shown s.lag_max
      ∷ []

  abbrev pub tx_line : TxSummary floats ms pct → Text
  tx_line t = format (
      codes "distinct txs "
      ∷ decimal t.total
      ∷ codes "   seen by all "
      ∷ decimal t.matched
      ∷ codes "   flagged swaps "
      ∷ decimal t.synthetic_swaps
      ∷ [])

  abbrev pub pair_title : ℕ → PairSummary floats marks pct → Text
  pair_title i p = format (
      codes "C"
      ∷ decimal (i + 1)
      ∷ codes ". "
      ∷ p.reference
      ∷ codes " vs "
      ∷ p.other
      ∷ codes ": "
      ∷ decimal p.n
      ∷ codes " txs seen by both; positive = "
      ∷ p.reference
      ∷ codes " earlier"
      ∷ [])

  abbrev pub pair_table : PairSummary floats marks pct → Table
  pair_table p =
      row
        (new_table (
          codes "median"
          ∷ codes "p10"
          ∷ codes "p90"
          ∷ (p.reference ++ codes " first")
          ∷ codes "within 1ms"
          ∷ (p.reference ++ codes " >5ms earlier")
          ∷ (p.other ++ codes " >5ms earlier")
          ∷ []))
        (difference p.median_ms
          ∷ difference p.p10_ms
          ∷ difference p.p90_ms
          ∷ percent p.ref_first_pct
          ∷ percent p.within_1ms_pct
          ∷ percent p.ref_earlier_5ms_pct
          ∷ percent p.other_earlier_5ms_pct
          ∷ [])

  abbrev pub interval_headers : PairSummary floats marks pct → List Text
  interval_headers p =
      codes "interval"
      ∷ codes "from"
      ∷ codes "txs"
      ∷ codes "median"
      ∷ (p.reference ++ codes " first")
      ∷ []

  abbrev pub interval_row : IntervalStats floats marks pct → List Text
  interval_row iv =
      (codes "#" ++ decimal iv.index)
      ∷ (fixed 0 iv.start_s ++ codes "s")
      ∷ decimal iv.n
      ∷ difference iv.median_ms
      ∷ percent iv.ref_first_pct
      ∷ []

  -- The intervals are left out when there is one of them or none.
  abbrev pub interval_text : PairSummary floats marks pct → Option Text
  interval_text p =
      if ltb 1 (length p.intervals)
      then Table.render (filled (new_table (interval_headers p)) (map interval_row p.intervals))
      else some []

  abbrev pub size_line : PairSummary floats marks pct → Text
  size_line p = format (codes "by block size (tx count from " ∷ p.size_source ∷ codes "):" ∷ [])

  abbrev pub bucket_headers : PairSummary floats marks pct → List Text
  bucket_headers p =
      codes "block size"
      ∷ codes "blocks"
      ∷ codes "blocks%"
      ∷ codes "txs"
      ∷ codes "txs%"
      ∷ (p.reference ++ codes " earlier by")
      ∷ codes "p10"
      ∷ codes "p90"
      ∷ (p.reference ++ codes " first")
      ∷ []

  abbrev pub bucket_row : BucketStats floats marks pct → List Text
  bucket_row b =
      b.label
      ∷ decimal b.blocks
      ∷ percent b.blocks_pct
      ∷ decimal b.txs
      ∷ percent b.txs_pct
      ∷ (difference b.median_ms ++ codes " ms")
      ∷ difference b.p10_ms
      ∷ difference b.p90_ms
      ∷ percent b.ref_first_pct
      ∷ []

  pub pair_text : ℕ → PairSummary floats marks pct → Option Text
  pair_text i p = do
    table ← Table.render (pair_table p)
    intervals ← interval_text p
    by_size ← Table.render (filled (new_table (bucket_headers p)) (map bucket_row p.bucket_list))
    some (
        format (
          ended (pair_title i p ∷ [])
          ∷ table
          ∷ intervals
          ∷ ended (size_line p ∷ [])
          ∷ by_size
          ∷ codes "\n"
          ∷ []))

  -- The pairs, numbered from `i` on.
  pub pairs_text : ℕ → List (PairSummary floats marks pct) → Option Text
  pairs_text i [] = some []
  pairs_text i (p ∷ ps) = do text ← pair_text i p; more ← pairs_text (i + 1) ps; some (text ++ more)

  abbrev pub block_heading : Text
  block_heading =
      codes "A. Block level: first source to deliver a block wins; delay behind the winner in ms"

  abbrev pub tx_title : Text
  tx_title = codes "B. Transaction level: key = tx hash; lag behind the earliest source in ms"

  abbrev pub last_line : Text
  last_line =
      codes
        "percentiles: nearest rank; ms with two decimals; win% and first% over matched blocks/txs"

  pub render : Report floats ms pct marks fixed plus mega → Option Text
  render r = do
    block ← render_block_summary floats ms pct marks fixed plus mega r.block
    txs ← Table.render (filled (new_table tx_headers) (map tx_row r.tx.per_source))
    pairs ← pairs_text 0 r.pairs
    some (
        format (
          ended (header_lines floats ms pct marks fixed plus mega r.header)
          ∷ codes "\n"
          ∷ ended (block_heading ∷ [])
          ∷ block
          ∷ codes "\n"
          ∷ ended (tx_title ∷ tx_line r.tx ∷ [])
          ∷ txs
          ∷ codes "\n"
          ∷ pairs
          ∷ last_line
          ∷ []))
