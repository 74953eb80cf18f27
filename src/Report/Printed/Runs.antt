-- ===== src/Report/Printed/Runs.antt =====
-- A report of two sources, with whole numbers as f64 values.
use robinhood_feed_bench.Common.{ℕ, ◌/◌, ◌≡◌, false, List, [], ◌∷◌, ◌++◌, some}
use robinhood_feed_bench.Common.Decimal.{decimal}
use robinhood_feed_bench.Common.Texts.{Text, codes}
use robinhood_feed_bench.Stats.SummaryRuns.{whole, pct, marks}
use robinhood_feed_bench.Stats.Percentile.{Percentiles}
use robinhood_feed_bench.Report.Table.{ended}
use robinhood_feed_bench.Report.Rendered.{Report, Header}
use robinhood_feed_bench.Report.Printed.{last_line, render}
use robinhood_feed_bench.Report.Printed.Layout.{IsReport}
use robinhood_feed_bench.Report.Printed.Sections.{render-IsReport}

abbrev fixed : ℕ → ℕ → Text
fixed n x = decimal x

abbrev plus : ℕ → ℕ → Text
plus n x = codes "+" ++ decimal x

abbrev mega : ℕ → ℕ
mega b = b / 1000000

abbrev header : Header whole (λ d. d) pct marks fixed plus mega
header = record {
  tool = codes "feedbench";
  version = codes "0.1.0";
  chain_id = 4663;
  start_utc = codes "2026-09-19 12:00:00 UTC";
  end_utc = codes "2026-09-19 12:01:00 UTC";
  duration_s = 60;
  hostname = codes "host";
  stamp = codes "arrival";
  warmup_s = 5;
  min_sources = 1;
  summary_interval_s = 60;
  interrupted = false;
  sources =
      (record {
        info = record {
          name = codes "a";
          kind = codes "nitro";
          target = codes "wss://a";
          level = [];
        };
        detail = codes "deflate";
        reconnects = 1;
        block_events = 20;
        tx_events = 30;
        wire_bytes = 5000000;
        raw_tx_bytes = 0;
      })
      ∷ [];
  window_s = 50;
  matched_blocks = 20;
  matched_txs = 30;
  fairness_note = codes "note";
}

abbrev delay : Percentiles whole
delay = record { n = 20; p10 = 0; p50 = 0; p75 = 0; p90 = 0; p95 = 0; p99 = 0; p999 = 0; max = 0 }

abbrev report : Report whole (λ d. d) pct marks fixed plus mega
report = record {
  header = header;
  block = record {
    label = codes "whole run";
    completed = 20;
    per_source = (record { name = codes "a"; wins = 20; win_pct = 100; delay = delay }) ∷ [];
  };
  block_intervals = [];
  tx = record { total = 30; matched = 30; synthetic_swaps = 0; per_source = [] };
  pairs =
      (record {
        reference = codes "a";
        other = codes "b";
        n = 3;
        median_ms = 1;
        p10_ms = 0;
        p90_ms = 2;
        ref_first_pct = 66;
        within_1ms_pct = 66;
        ref_earlier_5ms_pct = 0;
        other_earlier_5ms_pct = 0;
        intervals =
            (record { index = 1; start_s = 0; n = 2; median_ms = 1; ref_first_pct = 50 })
            ∷ (record { index = 2; start_s = 60; n = 1; median_ms = 2; ref_first_pct = 100 })
            ∷ [];
        size_source = codes "nitro frame";
        bucket_list = [];
      })
      ∷ [];
}

render-IsReport_example :
    (ls : List Text) × (render whole (λ d. d) pct marks fixed plus mega report
      ≡ some (ended ls ++ last_line whole (λ d. d) pct marks fixed plus mega))
    × IsReport whole (λ d. d) pct marks fixed plus mega report ls
render-IsReport_example = render-IsReport whole (λ d. d) pct marks fixed plus mega report
