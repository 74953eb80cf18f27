-- ===== src/Main/Finish/Whole.antt =====
-- A whole run of src/main.rs, from its arguments to the text of the report.
use robinhood_feed_bench.Common.{ℕ, suc, ◌≡◌, List, ◌++◌, length, map}
use robinhood_feed_bench.Common.Texts.{Text}
use robinhood_feed_bench.Event.{Instant}
use robinhood_feed_bench.Stats.{Windows, SourceInfo}
use robinhood_feed_bench.Stats.Percentile.{Floats}
use robinhood_feed_bench.Stats.Pairs.{Marks}
use robinhood_feed_bench.Report.Table.{ended}
use robinhood_feed_bench.Report.Rendered.{SourceReport, Report}
use robinhood_feed_bench.Report.Printed.{last_line}
use robinhood_feed_bench.Report.Printed.Layout.{IsReport}
use robinhood_feed_bench.Main.Setup.{Setup}
use robinhood_feed_bench.Main.Loop.{Loop}
use robinhood_feed_bench.Main.Finish.Named.{named, rows_named}
use robinhood_feed_bench.Stats.Windows.Timely.{Timely}

module _ (show_ms : ℕ → Text) (floats : Floats) (ms : ℕ → floats.F) (pct : ℕ → ℕ → floats.F)
    (range_label : Instant → Instant → Instant → Text) (marks : Marks floats)
    (fixed plus : ℕ → floats.F → Text) (mega secs : ℕ → floats.F) (sum : List floats.F → floats.F)
    (at_least_zero : floats.F → floats.F) where
  -- A report with the sources in its header, a row of each in its first table, and as many
  -- sections as there are sources beside the reference.
  abbrev pub HasAll : List SourceInfo → Report floats ms pct marks fixed plus mega → Type 0
  HasAll infos r =
      (map (λ (s : SourceReport). s.info) r.header.sources ≡ infos)
      × (rows_named floats ms pct r.block.per_source ≡ named infos)
      × (suc (length r.pairs) ≡ length infos)

  -- The text of such a report.
  abbrev pub Shows : List SourceInfo → Text → Type 0
  Shows infos out =
      (r : Report floats ms pct marks fixed plus mega) × (ls : List Text) × (out
        ≡ ended ls ++ last_line floats ms pct marks fixed plus mega)
      × IsReport floats ms pct marks fixed plus mega r ls
      × HasAll infos r
