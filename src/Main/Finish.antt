-- ===== src/Main/Finish.antt =====
-- src/main.rs: the report from the end of the event loop on. `secs` is `as_secs_f64`; the sum of
-- f64 values and `max(0.0)` are parameters too. Instants and durations are in nanoseconds.
pub mod Named
pub mod Whole
use robinhood_feed_bench.Common.{
  ℕ, zero, suc, ◌+◌, ◌-◌, ◌/◌, ◌^◌, List, [], ◌∷◌, ◌++◌, Option, none, some, get_elem?, unwrap_or,
  ◌>>=◌,
}
use robinhood_feed_bench.Common.Texts.{Text, codes}
use robinhood_feed_bench.Event.{Instant, Stamp}
use robinhood_feed_bench.Stats.{Collector, SourceInfo}
use robinhood_feed_bench.Stats.Percentile.{Floats}
use robinhood_feed_bench.Stats.Pairs.{Marks}
use robinhood_feed_bench.Stats.Seconds.{Seconds, window_seconds}
use robinhood_feed_bench.Report.Utc.{utc_string}
use robinhood_feed_bench.Report.Rendered.{SourceReport, Header, Report}
use robinhood_feed_bench.Report.Printed.{render}
use robinhood_feed_bench.Main.Setup.{Setup}
use robinhood_feed_bench.Main.Loop.{Input, Loop, run_loop, start_loop, summarise}

abbrev chain_id : ℕ
chain_id = 4663

abbrev pub fairness_note : Text
fairness_note =
    codes "Timestamps are taken at message arrival, before decoding, for every source. "
    ++ (codes "Eira's already-decoded events are therefore compared on equal terms with raw feeds "
        ++ codes "whose consumer still has to decode them.")

abbrev pub stamp_text : Stamp → Text
stamp_text Stamp.arrival = codes "arrival (message in memory, before inflating and parsing)"
stamp_text Stamp.decoded = codes "decoded (after inflating, before parsing; the Go tool's instant)"

-- `args.host`, or else what `hostname::get` finds.
abbrev pub host_text : Option Text → Option Text → Text
host_text (some host) found = host
host_text none found = unwrap_or found (codes "unknown")

-- What `main` is given besides the sources: the wall clock is in seconds since the epoch.
pub record Around : Type 0 where
  pub version : Text
  pub host : Option Text
  pub hostname : Option Text
  pub stamp : Stamp
  pub start_wall : ℕ
  pub end_wall : ℕ

pub source_report : Collector → ℕ → SourceInfo → Option SourceReport
source_report c i s = do
  detail ← get_elem? c.details i
  reconnects ← get_elem? c.reconnects i
  block_events ← get_elem? c.block_events i
  tx_events ← get_elem? c.tx_events i
  wire_bytes ← get_elem? c.wire_bytes i
  raw_tx_bytes ← get_elem? c.raw_tx_bytes i
  some (record {
    info = s;
    detail = detail;
    reconnects = reconnects;
    block_events = block_events;
    tx_events = tx_events;
    wire_bytes = wire_bytes;
    raw_tx_bytes = raw_tx_bytes;
  })

-- The sources from `i` on.
pub source_reports : Collector → ℕ → List SourceInfo → Option (List SourceReport)
source_reports c i [] = some []
source_reports c i (s ∷ ss) = do
  report ← source_report c i s
  more ← source_reports c (i + 1) ss
  some (report ∷ more)

module _ (show_ms : ℕ → Text) (floats : Floats) (ms : ℕ → floats.F) (pct : ℕ → ℕ → floats.F)
    (range_label : Instant → Instant → Instant → Text) (marks : Marks floats)
    (fixed plus : ℕ → floats.F → Text) (mega secs : ℕ → floats.F) (sum : List floats.F → floats.F)
    (at_least_zero : floats.F → floats.F) where
  abbrev pub seconds : Seconds
  seconds = record {
    F = floats.F;
    zero = floats.zero;
    as_secs = secs;
    sum = sum;
    at_least_zero = at_least_zero;
  }

  -- From `let end = Instant::now()` to the report.
  pub finish :
      Setup
      → Around
      → Loop show_ms floats ms pct range_label marks
      → ℕ
      → ℕ
      → Instant
      → Option (Report floats ms pct marks fixed plus mega)
  finish s a l warmup interval end = do
    sums ← summarise show_ms floats ms pct range_label marks l interval end
    sources ← source_reports l.collector 0 l.collector.sources
    window_s ← window_seconds seconds l.collector end
    some (record {
      header = record {
        tool = codes "feedbench";
        version = a.version;
        chain_id = chain_id;
        start_utc = utc_string a.start_wall;
        end_utc = utc_string a.end_wall;
        duration_s = secs (end - l.collector.start);
        hostname = host_text a.host a.hostname;
        stamp = stamp_text a.stamp;
        warmup_s = secs warmup;
        min_sources = s.min_sources;
        summary_interval_s = interval / 10 ^ 9;
        interrupted = l.interrupted;
        sources = sources;
        window_s = window_s;
        matched_blocks = sums.block.completed;
        matched_txs = sums.tx.matched;
        fairness_note = fairness_note;
      };
      block = sums.block;
      block_intervals = sums.block_intervals;
      tx = sums.tx;
      pairs = sums.pairs;
    })

  -- The whole of `main` with the text of the report it prints.
  pub print_run : Setup → Around → Option ℕ → ℕ → ℕ → Instant → List Input → Instant → Option Text
  print_run s a from_secs run_seconds interval now inputs end = do
    warmup ← from_secs
    first ← start_loop show_ms floats ms pct range_label marks s warmup run_seconds interval now
    l ← run_loop show_ms floats ms pct range_label marks first inputs
    report ← finish s a l warmup interval end
    render floats ms pct marks fixed plus mega report
