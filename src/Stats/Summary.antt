-- ===== src/Stats/Summary.antt =====
-- src/stats.rs: `block_summary`, over the completed blocks of a part of the run. A delay in
-- milliseconds and a percentage are f64 values: `ms` and `pct` are parameters. `none` is a panic.
-- `values()` of the map runs in the order of the association list; the map's own is not specified.
pub mod Wins
pub mod Rolling
use robinhood_feed_bench.Common.{
  ℕ, zero, suc, ◌+◌, ◌-◌, Bool, true, false, not, ◌&&◌, ◌||◌, List, [], ◌∷◌, ◌++◌, Option, none,
  some, length, replicate, update, ltb, leb, if◌then◌else◌, ◌>>=◌,
}
use robinhood_feed_bench.Common.Texts.{Text}
use robinhood_feed_bench.Common.Maps.{values}
use robinhood_feed_bench.Event.{Instant}
use robinhood_feed_bench.Stats.{Collector, BlockRec, SourceInfo}
use robinhood_feed_bench.Stats.Windows.{try_in_window}
use robinhood_feed_bench.Stats.Percentile.{Floats, Percentiles, percentiles}

module _ (floats : Floats) (ms : ℕ → floats.F) (pct : ℕ → ℕ → floats.F) where
  open floats use {F}

  pub record BlockSourceStats : Type 0 where
    pub name : Text
    pub wins : ℕ
    pub win_pct : F
    pub delay : Percentiles floats

  pub record BlockSummary : Type 0 where
    pub label : Text
    pub completed : ℕ
    pub per_source : List BlockSourceStats

  -- The counters of the loop.
  pub record Tally : Type 0 where
    pub wins : List ℕ
    pub samples : List (List F)
    pub completed : ℕ

  -- `since.is_some_and(|s| done <= s)`
  abbrev pub too_early : Option Instant → Instant → Bool
  too_early none done = false
  too_early (some s) done = leb done s

  -- The window is asked for only when the instant of completion fits.
  pub skipped : Collector → Option Instant → Instant → Instant → Instant → Option Bool
  skipped c since until first done =
      if ltb until done || too_early since done
      then some true
      else (try_in_window c first >>= λ inside. some (not inside))

  -- `samples[i].push(ms(*a - rec.first))` for every arrival.
  pub push_delays : Instant → List (Option Instant) → List (List F) → Option (List (List F))
  push_delays first [] samples = some samples
  push_delays first (none ∷ arrivals) [] = push_delays first arrivals []
  push_delays first (none ∷ arrivals) (s ∷ ss) = do
    rest ← push_delays first arrivals ss
    some (s ∷ rest)
  push_delays first (some a ∷ arrivals) [] = none
  push_delays first (some a ∷ arrivals) (s ∷ ss) = do
    rest ← push_delays first arrivals ss
    some ((s ++ (ms (a - first) ∷ [])) ∷ rest)

  -- A block that is completed and not skipped.
  pub add_block : BlockRec → Tally → Option Tally
  add_block r tally = do
    wins ← update tally.wins r.first_src (λ k. k + 1)
    samples ← push_delays r.first r.arrivals tally.samples
    some (record { wins = wins; samples = samples; completed = tally.completed + 1 })

  pub tally_blocks : Collector → Option Instant → Instant → List BlockRec → Tally → Option Tally
  tally_blocks c since until [] tally = some tally
  tally_blocks c since until (r ∷ rs) tally = elim r.completed_at [
    | none ↦ tally_blocks c since until rs tally
    | some done ↦
        let rest = tally_blocks c since until rs tally in
        skipped c since until r.first done >>= λ out.
        if out then rest else (add_block r tally >>= λ added. tally_blocks c since until rs added)
  ]

  -- `(0..n).map(..)` over the sources with their counters.
  unfoldable pub source_stats :
      ℕ → List SourceInfo → List ℕ → List (List F) → Option (List BlockSourceStats)
  source_stats completed [] wins samples = some []
  source_stats completed (source ∷ sources) (w ∷ ws) (s ∷ ss) = do
    delay ← percentiles floats s
    rest ← source_stats completed sources ws ss
    some
        ((record { name = source.name; wins = w; win_pct = pct w completed; delay = delay }) ∷ rest)
  source_stats completed (source ∷ sources) [] samples = none
  source_stats completed (source ∷ sources) (w ∷ ws) [] = none

  unfoldable pub block_summary : Collector → Text → Option Instant → Instant → Option BlockSummary
  block_summary c label since until = do
    let n = length c.sources
    tally ←
        tally_blocks c since until (values c.blocks)
          (record { wins = replicate n 0; samples = replicate n []; completed = 0 })
    per_source ← source_stats tally.completed c.sources tally.wins tally.samples
    some (record { label = label; completed = tally.completed; per_source = per_source })
