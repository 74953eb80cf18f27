-- ===== src/Main/Loop.antt =====
-- src/main.rs: the event loop and the summaries behind it. An `Input` is the branch that
-- `tokio::select!` takes; what is only printed is left out, but for the label of a summary.
pub mod Compared
pub mod Total
use robinhood_feed_bench.Common.{
  zero, suc, ◌+◌, ◌*◌, ◌^◌, ◌==◌, length, ℕ, Bool, true, false, List, [], ◌∷◌, ◌++◌, Option, none,
  some, unwrap_or, ◌>>=◌, if◌then◌else◌,
}
use robinhood_feed_bench.Common.Texts.{Text, codes}
use robinhood_feed_bench.Event.{Instant, Event, later}
use robinhood_feed_bench.Stats.{Collector, new}
use robinhood_feed_bench.Stats.Collect.{on_event}
use robinhood_feed_bench.Stats.Percentile.{Floats}
use robinhood_feed_bench.Stats.Summary.{BlockSummary, block_summary}
use robinhood_feed_bench.Stats.Pairs.{Marks, PairSummary, pair_summary}
use robinhood_feed_bench.Stats.TxSummary.{TxSummary, tx_summary}
use robinhood_feed_bench.Main.Setup.{Setup}

-- `rx.recv()`, the deadline, `ctrl_c()` and the ticker with the `Instant::now()` of its branch.
pub data Input : Type 0 where
  received : Event → Input
  closed deadline interrupt : Input
  tick : Instant → Input

module _ (show_ms : ℕ → Text) (floats : Floats) (ms : ℕ → floats.F) (pct : ℕ → ℕ → floats.F)
    (range_label : Instant → Instant → Instant → Text) (marks : Marks floats) where
  pub record Loop : Type 0 where
    pub collector : Collector
    pub last_summary : Instant
    pub intervals : List (BlockSummary floats ms pct)
    pub interrupted : Bool

  -- A round of the loop, and whether there is another.
  pub on_input : Loop → Input → Option (Loop × Bool)
  on_input l (Input.received ev) = do
    (collector, notice) ← on_event show_ms l.collector ev
    some (record l { collector = collector }, true)
  on_input l Input.closed = some (l, false)
  on_input l Input.deadline = some (l, false)
  on_input l Input.interrupt = some (record l { interrupted = true }, false)
  on_input l (Input.tick now) = do
    s ←
        block_summary floats ms pct l.collector (range_label l.collector.start l.last_summary now)
          (some l.last_summary) now
    some (record l { intervals = l.intervals ++ (s ∷ []); last_summary = now }, true)

  pub run_loop : Loop → List Input → Option Loop
  run_loop l [] = some l
  run_loop l (i ∷ is) = do (next, more) ← on_input l i; if more then run_loop next is else some next

  -- The state in which the loop starts. The deadline and the first tick are sums that overflow when
  -- the clock cannot tell them; how long the timers wait is not part of the model.
  pub start_loop : Setup → ℕ → ℕ → ℕ → Instant → Option Loop
  start_loop s warmup seconds interval now = do
    ends ← later now (seconds * 10 ^ 9)
    first_tick ← later now interval
    some (record {
      collector = new s.infos (unwrap_or s.eira_index 0) s.min_sources warmup now;
      last_summary = now;
      intervals = [];
      interrupted = false;
    })

  pub record Summaries : Type 0 where
    pub block : BlockSummary floats ms pct
    pub block_intervals : List (BlockSummary floats ms pct)
    pub tx : TxSummary floats ms pct
    pub pairs : List (PairSummary floats marks pct)

  -- `(0..n).filter(|&i| i != col.reference).map(..)` from `i` on, with `left` sources to go.
  pub pairs_from : Collector → ℕ → ℕ → ℕ → Option (List (PairSummary floats marks pct))
  pairs_from c interval i zero = some []
  pairs_from c interval i (suc left) =
      let rest = pairs_from c interval (i + 1) left in
      if i == c.reference
      then rest
      else do pair ← pair_summary floats marks pct c i interval; more ← rest; some (pair ∷ more)

  -- From `let end = Instant::now()` on.
  unfoldable pub summarise : Loop → ℕ → Instant → Option Summaries
  summarise l interval end = do
    block ← block_summary floats ms pct l.collector (codes "whole run") none end
    txs ← tx_summary floats ms pct l.collector
    pairs ← pairs_from l.collector interval 0 (length l.collector.sources)
    some (record { block = block; block_intervals = l.intervals; tx = txs; pairs = pairs })

  -- `from_secs` is what `Duration::from_secs_f64` makes of the warm-up: `none` when it panics.
  pub run : Setup → Option ℕ → ℕ → ℕ → Instant → List Input → Instant → Option Summaries
  run s from_secs seconds interval now inputs end = do
    warmup ← from_secs
    first ← start_loop s warmup seconds interval now
    l ← run_loop first inputs
    summarise l interval end
