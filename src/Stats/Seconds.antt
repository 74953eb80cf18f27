-- ===== src/Stats/Seconds.antt =====
-- src/stats.rs: `window_seconds`. Seconds are f64 values: how a `Duration` becomes one, their sum
-- and `max(0.0)` are parameters. `none` is the panic of an instant that overflows.
pub mod Counts
pub mod Clocked
mod Runs
use robinhood_feed_bench.Common.{
  ℕ, ◌+◌, ◌-◌, List, [], ◌∷◌, Option, ◌>>=◌, none, some, ltb, if◌then◌else◌, unwrap_or,
}
use robinhood_feed_bench.Event.{Instant, later}
use robinhood_feed_bench.Stats.{Windows, Collector}

pub record Seconds : Type 1 where
  pub F : Type 0
  pub zero : F
  pub as_secs : ℕ → F
  pub sum : List F → F
  pub at_least_zero : F → F

module _ (seconds : Seconds) where
  open seconds use {F, as_secs, sum, at_least_zero}

  -- The part of a window that is past the warm-up, until now.
  unfoldable pub span : ℕ → Instant → Instant × Option Instant → Option F
  span warmup now (a, b) = do
    let end = unwrap_or b now
    begin ← later a warmup
    some (if ltb begin end then as_secs (end - begin) else seconds.zero)

  unfoldable pub spans : ℕ → Instant → Windows → Option (List F)
  spans warmup now [] = some []
  spans warmup now (w ∷ ws) = do d ← span warmup now w; ds ← spans warmup now ws; some (d ∷ ds)

  unfoldable pub window_seconds : Collector → Instant → Option F
  window_seconds c now = do ds ← spans c.warmup now c.all_up; some (at_least_zero (sum ds))
