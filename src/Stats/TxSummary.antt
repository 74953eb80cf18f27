-- ===== src/Stats/TxSummary.antt =====
-- src/stats.rs: `tx_summary`, over the transactions that were first seen inside the window. f64
-- values are parameters as in `block_summary`; `none` is a panic.
pub mod Matched
pub mod Counts
pub mod Rows
pub mod Runs
use robinhood_feed_bench.Common.{
  ℕ, zero, suc, ◌+◌, ◌-◌, ◌*◌, ◌^◌, min, Bool, true, false, not, ◌&&◌, List, [], ◌∷◌, map, Option,
  none, some, length, replicate, set, ltb, leb, ◌==◌, if◌then◌else◌, ◌>>=◌, is_some, unwrap_or,
}
use robinhood_feed_bench.Common.Texts.{Text}
use robinhood_feed_bench.Common.Maps.{values}
use robinhood_feed_bench.Event.{Instant}
use robinhood_feed_bench.Stats.{Collector, TxRec, SourceInfo}
use robinhood_feed_bench.Stats.Windows.{try_in_window}
use robinhood_feed_bench.Stats.Percentile.{Floats, nearest_rank, sorted, last_or_zero}
use robinhood_feed_bench.Stats.Summary.{push_delays}

-- `Duration::from_millis(1)`
abbrev pub one_ms : ℕ
one_ms = 10 ^ 6

-- `iter().flatten().min()`
abbrev pub soonest : List (Option Instant) → Option Instant
soonest [] = none
soonest (none ∷ rest) = soonest rest
soonest (some a ∷ rest) = some (min a (unwrap_or (soonest rest) a))

abbrev pub is_at : Instant → Option Instant → Bool
is_at first none = false
is_at first (some a) = a == first

-- Whether `a` is a millisecond ahead of the others, which are the arrivals but for this one.
abbrev pub ahead : Option Instant → Option Instant → Bool
ahead none others = false
ahead (some a) none = false
ahead (some a) (some o) = leb (a + one_ms) o

-- One flag for each source from the `i`-th on.
pub ahead_flags : List (Option Instant) → ℕ → List (Option Instant) → List Bool
ahead_flags arrivals i [] = []
ahead_flags arrivals i (a ∷ rest) =
    ahead a (soonest (set arrivals i none)) ∷ ahead_flags arrivals (i + 1) rest

-- `counts[i] += 1` where the flag of `i` is set.
pub bump : List Bool → List ℕ → Option (List ℕ)
bump [] counts = some counts
bump (false ∷ flags) [] = bump flags []
bump (true ∷ flags) [] = none
bump (flag ∷ flags) (k ∷ counts) = do
  rest ← bump flags counts
  some ((if flag then k + 1 else k) ∷ rest)

module _ (floats : Floats) (ms : ℕ → floats.F) (pct : ℕ → ℕ → floats.F) where
  open floats use {F}

  pub record TxSourceStats : Type 0 where
    pub name : Text
    pub seen : ℕ
    pub coverage_pct : F
    pub first_pct : F
    pub first_by_1ms_pct : F
    pub lag_p50 : F
    pub lag_p90 : F
    pub lag_p95 : F
    pub lag_p99 : F
    pub lag_max : F

  pub record TxSummary : Type 0 where
    pub total : ℕ
    pub matched : ℕ
    pub synthetic_swaps : ℕ
    pub per_source : List TxSourceStats

  -- The counters of the loop.
  pub record TxTally : Type 0 where
    pub total : ℕ
    pub matched : ℕ
    pub seen : List ℕ
    pub first : List ℕ
    pub first_1ms : List ℕ
    pub lags : List (List F)
    pub swaps : ℕ

  abbrev pub no_txs : ℕ → TxTally
  no_txs n = record {
    total = 0;
    matched = 0;
    seen = replicate n 0;
    first = replicate n 0;
    first_1ms = replicate n 0;
    lags = replicate n [];
    swaps = 0;
  }

  -- A transaction that enough sources delivered.
  pub match_tx : TxRec → TxTally → Option TxTally
  match_tx r tally = do
    lags ← push_delays floats ms pct r.first r.arrivals tally.lags
    first ← bump (map (is_at r.first) r.arrivals) tally.first
    first_1ms ← bump (ahead_flags r.arrivals 0 r.arrivals) tally.first_1ms
    some (record tally {
      matched = tally.matched + 1;
      swaps = tally.swaps + (if r.synthetic_swap then 1 else 0);
      lags = lags;
      first = first;
      first_1ms = first_1ms;
    })

  pub tally_txs : Collector → List TxRec → TxTally → Option TxTally
  tally_txs c [] tally = some tally
  tally_txs c (r ∷ rs) tally =
      let skip = tally_txs c rs tally in
      try_in_window c r.first >>= λ inside.
      if not inside
      then skip
      else (bump (map is_some r.arrivals) tally.seen >>= λ seen.
          let counted = record tally { total = tally.total + 1; seen = seen } in
          if ltb r.seen c.min_sources
          then tally_txs c rs counted
          else (match_tx r counted >>= λ matched. tally_txs c rs matched))

  -- `(0..n).map(..)` over the sources with their counters.
  pub tx_source_stats :
      ℕ
      → ℕ
      → List SourceInfo
      → List ℕ
      → List ℕ
      → List ℕ
      → List (List F)
      → Option (List TxSourceStats)
  tx_source_stats total matched [] seen first first_1ms lags = some []
  tx_source_stats total matched (src ∷ srcs) (k ∷ seen) (f ∷ first) (g ∷ first_1ms) (l ∷ lags) = do
    let s = sorted floats l
    p50 ← nearest_rank floats s 500
    p90 ← nearest_rank floats s 900
    p95 ← nearest_rank floats s 950
    p99 ← nearest_rank floats s 990
    rest ← tx_source_stats total matched srcs seen first first_1ms lags
    some (
        (record {
          name = src.name;
          seen = k;
          coverage_pct = pct k total;
          first_pct = pct f matched;
          first_by_1ms_pct = pct g matched;
          lag_p50 = p50;
          lag_p90 = p90;
          lag_p95 = p95;
          lag_p99 = p99;
          lag_max = last_or_zero floats s;
        })
        ∷ rest)
  tx_source_stats total matched (src ∷ srcs) seen first first_1ms lags = none

  pub tx_summary : Collector → Option TxSummary
  tx_summary c = do
    let n = length c.sources
    tally ← tally_txs c (values c.txs) (no_txs n)
    per_source ←
        tx_source_stats tally.total tally.matched c.sources tally.seen tally.first tally.first_1ms
          tally.lags
    some (record {
      total = tally.total;
      matched = tally.matched;
      synthetic_swaps = tally.swaps;
      per_source = per_source;
    })
