-- ===== src/Report/Rendered.antt =====
-- src/report.rs: `render_block_summary` and `render`. `fixed n x` and `plus n x` are what
-- `{x:.n}` and `{x:+.n}` print, and `mega` is a number of bytes in millions; these and the f64
-- values are the standard library's. `none` is a panic.
use robinhood_feed_bench.Common.{
  ℕ, Bool, List, [], ◌∷◌, ◌++◌, map, Option, some, length, ltb, ◌==◌, if◌then◌else◌, ◌>>=◌,
}
use robinhood_feed_bench.Common.Decimal.{decimal}
use robinhood_feed_bench.Common.Texts.{Text, codes}
use robinhood_feed_bench.Stats.{SourceInfo}
use robinhood_feed_bench.Stats.Percentile.{Floats}
use robinhood_feed_bench.Stats.Summary.{BlockSourceStats, BlockSummary}
use robinhood_feed_bench.Stats.TxSummary.{TxSummary}
use robinhood_feed_bench.Stats.Pairs.{Marks, PairSummary}
use robinhood_feed_bench.Report.Table.{Table, new_table, row, left, render}

-- The texts one behind the other.
abbrev pub format : List Text → Text
format [] = []
format (t ∷ ts) = t ++ format ts

abbrev pub filled : Table → List (List Text) → Table
filled t [] = t
filled t (r ∷ rs) = filled (row t r) rs

pub record SourceReport : Type 0 where
  pub info : SourceInfo
  pub detail : Text
  pub reconnects : ℕ
  pub block_events : ℕ
  pub tx_events : ℕ
  pub wire_bytes : ℕ
  pub raw_tx_bytes : ℕ

module _ (floats : Floats) (ms : ℕ → floats.F) (pct : ℕ → ℕ → floats.F) (marks : Marks floats)
    (fixed plus : ℕ → floats.F → Text) (mega : ℕ → floats.F) where
  open floats use {F}

  pub record Header : Type 0 where
    pub tool : Text
    pub version : Text
    pub chain_id : ℕ
    pub start_utc : Text
    pub end_utc : Text
    pub duration_s : F
    pub hostname : Text
    pub stamp : Text
    pub warmup_s : F
    pub min_sources : ℕ
    pub summary_interval_s : ℕ
    pub interrupted : Bool
    pub sources : List SourceReport
    pub window_s : F
    pub matched_blocks : ℕ
    pub matched_txs : ℕ
    pub fairness_note : Text

  pub record Report : Type 0 where
    pub header : Header
    pub block : BlockSummary floats ms pct
    pub block_intervals : List (BlockSummary floats ms pct)
    pub tx : TxSummary floats ms pct
    pub pairs : List (PairSummary floats marks pct)

  abbrev pub f2 : F → Text
  f2 x = fixed 2 x

  abbrev pub signed2 : F → Text
  signed2 x = plus 2 x

  abbrev pub pc : F → Text
  pc x = fixed 1 x ++ codes "%"

  abbrev pub block_headers : List Text
  block_headers =
      codes "source"
      ∷ codes "wins"
      ∷ codes "win%"
      ∷ codes "p10"
      ∷ codes "p50"
      ∷ codes "p75"
      ∷ codes "p90"
      ∷ codes "p95"
      ∷ codes "p99"
      ∷ codes "p99.9"
      ∷ codes "max"
      ∷ codes "blocks"
      ∷ []

  abbrev pub block_row : BlockSourceStats floats ms pct → List Text
  block_row s =
      let d = s.delay in
      s.name
      ∷ decimal s.wins
      ∷ pc s.win_pct
      ∷ f2 d.p10
      ∷ f2 d.p50
      ∷ f2 d.p75
      ∷ f2 d.p90
      ∷ f2 d.p95
      ∷ f2 d.p99
      ∷ f2 d.p999
      ∷ f2 d.max
      ∷ decimal d.n
      ∷ []

  abbrev pub block_title : BlockSummary floats ms pct → Text
  block_title b = format (b.label ∷ codes " completed blocks: " ∷ decimal b.completed ∷ [])

  unfoldable pub render_block_summary : BlockSummary floats ms pct → Option Text
  render_block_summary b = do
    table ← render (filled (new_table block_headers) (map block_row b.per_source))
    some (format (block_title b ∷ codes "\n" ∷ table ∷ []))

  -- The two lines of a source.
  abbrev pub source_lines : SourceReport → List Text
  source_lines s =
      format (
        codes "  "
        ∷ left 10 s.info.name
        ∷ codes " "
        ∷ left 7 s.info.kind
        ∷ codes " "
        ∷ s.info.target
        ∷ (if length s.info.level == 0 then [] else codes "   level " ++ s.info.level)
        ∷ [])
      ∷ format (
          codes "  "
          ∷ left 10 []
          ∷ codes " "
          ∷ s.detail
          ∷ codes "   reconnects "
          ∷ decimal s.reconnects
          ∷ codes "   blocks "
          ∷ decimal s.block_events
          ∷ codes "   txs "
          ∷ decimal s.tx_events
          ∷ codes " ("
          ∷ fixed 1 (mega s.raw_tx_bytes)
          ∷ codes " MB raw)"
          ∷ (if ltb 0 s.wire_bytes
              then format (codes "   rx " ∷ fixed 1 (mega s.wire_bytes) ∷ codes " MB" ∷ [])
              else [])
          ∷ [])
      ∷ []

  abbrev pub sources_lines : List SourceReport → List Text
  sources_lines [] = []
  sources_lines (s ∷ ss) = source_lines s ++ sources_lines ss

  -- The lines above the sources, and those below them.
  abbrev pub run_lines : Header → List Text
  run_lines h =
      format (
        h.tool
        ∷ codes " "
        ∷ h.version
        ∷ codes "  Robinhood Chain (chain id "
        ∷ decimal h.chain_id
        ∷ codes ")"
        ∷ [])
      ∷ (codes "start    " ++ h.start_utc)
      ∷ format (
          codes "end      "
          ∷ h.end_utc
          ∷ codes "   duration "
          ∷ fixed 1 h.duration_s
          ∷ codes " s"
          ∷ (if h.interrupted then codes "   (interrupted)" else [])
          ∷ [])
      ∷ (codes "host     " ++ h.hostname)
      ∷ format (
          codes "stamp    "
          ∷ h.stamp
          ∷ codes "   warmup "
          ∷ fixed 0 h.warmup_s
          ∷ codes " s   min-sources "
          ∷ decimal h.min_sources
          ∷ [])
      ∷ codes "sources"
      ∷ []

  abbrev pub window_lines : Header → List Text
  window_lines h =
      format (
        codes "window   "
        ∷ fixed 1 h.window_s
        ∷ codes " s with every source connected   matched blocks "
        ∷ decimal h.matched_blocks
        ∷ codes "   matched txs "
        ∷ decimal h.matched_txs
        ∷ [])
      ∷ (codes "note     " ++ h.fairness_note)
      ∷ []

  abbrev pub header_lines : Header → List Text
  header_lines h = run_lines h ++ (sources_lines h.sources ++ window_lines h)
