-- ===== src/Main/Finish/Named.antt =====
-- The sources in the summaries of src/stats.rs that `main` reports.
use robinhood_feed_bench.Common.{
  ℕ, ◌≡◌, ap, ◌∙◌, List, [], ◌∷◌, Option, none, some, length, >>=-eq-some, arith, replicate,
}
use robinhood_feed_bench.Common.Texts.{Text, codes}
use robinhood_feed_bench.Common.Maps.{values}
use robinhood_feed_bench.Event.{Instant}
use robinhood_feed_bench.Stats.{Collector, SourceInfo}
use robinhood_feed_bench.Stats.Percentile.{Floats, percentiles}
use robinhood_feed_bench.Stats.Pairs.{Marks}
use robinhood_feed_bench.Stats.TxSummary.{tx_summary}
use robinhood_feed_bench.Stats.Summary.{
  BlockSourceStats, BlockSummary, Tally, tally_blocks, source_stats, block_summary,
}
use robinhood_feed_bench.Main.Loop.{Loop, Summaries, summarise, pairs_from}

abbrev pub named : List SourceInfo → List Text
named [] = []
named (s ∷ ss) = s.name ∷ named ss

module _ (floats : Floats) (ms : ℕ → floats.F) (pct : ℕ → ℕ → floats.F) where
  abbrev pub rows_named : List (BlockSourceStats floats ms pct) → List Text
  rows_named [] = []
  rows_named (s ∷ ss) = s.name ∷ rows_named ss

  source_stats-named :
      (completed : ℕ) (sources : List SourceInfo) (wins : List ℕ) (samples : List (List floats.F))
      {ps : List (BlockSourceStats floats ms pct)}
      → source_stats floats ms pct completed sources wins samples ≡ some ps
      → rows_named ps ≡ named sources
  unfolding source_stats
  source_stats-named completed [] wins samples h = ground (arith, h)
  source_stats-named completed (source ∷ sources) [] samples h = cc
  source_stats-named completed (source ∷ sources) (w ∷ ws) [] h = cc
  source_stats-named completed (source ∷ sources) (w ∷ ws) (s ∷ ss) h =
      let (delay, _, h1) = >>=-eq-some (percentiles floats s) _ h in
      let (rest, e, h2) = >>=-eq-some (source_stats floats ms pct completed sources ws ss) _ h1 in
      let same = source_stats-named completed sources ws ss e in ground (arith, h2, same)

  pub block_summary-named :
      (c : Collector) (label : Text) (since : Option Instant) (until : Instant)
      {s : BlockSummary floats ms pct}
      → block_summary floats ms pct c label since until ≡ some s
      → rows_named s.per_source ≡ named c.sources
  unfolding block_summary
  block_summary-named c label since until {s} h =
      let none_yet : Tally floats ms pct = record {
        wins = replicate (length c.sources) 0;
        samples = replicate (length c.sources) [];
        completed = 0;
      } in
      let (tally, _, h1) =
        >>=-eq-some (tally_blocks floats ms pct c since until (values c.blocks) none_yet) _ h in
      let (per_source, e, h2) =
        >>=-eq-some (source_stats floats ms pct tally.completed c.sources tally.wins tally.samples)
          _ h1 in
      let same : s.per_source ≡ per_source = ground (arith, h2) in
      ap rows_named same ∙ source_stats-named tally.completed c.sources tally.wins tally.samples e

module _ (show_ms : ℕ → Text) (floats : Floats) (ms : ℕ → floats.F) (pct : ℕ → ℕ → floats.F)
    (range_label : Instant → Instant → Instant → Text) (marks : Marks floats) where
  pub summarise-named :
      (l : Loop show_ms floats ms pct range_label marks) (interval : ℕ) (end : Instant)
      {s : Summaries show_ms floats ms pct range_label marks}
      → summarise show_ms floats ms pct range_label marks l interval end ≡ some s
      → rows_named floats ms pct s.block.per_source ≡ named l.collector.sources
  unfolding summarise
  summarise-named l interval end {s} h =
      let (block, e, h1) =
        >>=-eq-some (block_summary floats ms pct l.collector (codes "whole run") none end) _ h in
      let (txs, _, h2) = >>=-eq-some (tx_summary floats ms pct l.collector) _ h1 in
      let (pairs, _, h3) =
        >>=-eq-some
          (pairs_from show_ms floats ms pct range_label marks l.collector interval 0
            (length l.collector.sources))
          _ h2 in
      let same : s.block ≡ block = ground (arith, h3) in
      ap (λ (b : BlockSummary floats ms pct). rows_named floats ms pct b.per_source) same
      ∙ block_summary-named floats ms pct l.collector (codes "whole run") none end e
