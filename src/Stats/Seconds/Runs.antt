-- ===== src/Stats/Seconds/Runs.antt =====
-- Two sources of which one is down for ten nanoseconds.
use robinhood_feed_bench.Common.{ℕ, ◌≡◌, ◌>>=◌, refl, List, [], ◌∷◌, some, update, Ensures, arith}
use robinhood_feed_bench.Common.Decimal.{decimal}
use robinhood_feed_bench.Common.Texts.{codes}
use robinhood_feed_bench.Event.{Instant, Payload, Event, later, latest}
use robinhood_feed_bench.Stats.{SourceInfo, new}
use robinhood_feed_bench.Stats.Windows.{in_window, try_in_window, on_connected, on_disconnected}
use robinhood_feed_bench.Stats.Collect.{collect, on_event, dispatch}
use robinhood_feed_bench.Stats.Seconds.{span, spans, window_seconds}
use robinhood_feed_bench.Stats.Seconds.Counts.{nanoseconds, count_below}
use robinhood_feed_bench.Stats.Seconds.Clocked.{window_seconds-run}

abbrev info : SourceInfo
info = record { name = codes "a"; kind = codes "nitro"; target = []; level = [] }

abbrev event : ℕ → ℕ → Payload → Event
event s t payload = record { source = s; t = t; payload = payload }

abbrev events : List Event
events =
    event 0 10 (Payload.connected [])
    ∷ event 1 20 (Payload.connected [])
    ∷ event 0 50 (Payload.disconnected [])
    ∷ event 0 60 (Payload.connected [])
    ∷ []

-- 50 - (20 + 5), and 100 - (60 + 5).
two_windows :
    (collect decimal (new (info ∷ info ∷ []) 0 2 5 0) events >>= λ r.
    window_seconds nanoseconds r.0 100)
    ≡ some 60
unfolding collect on_event dispatch on_connected on_disconnected new window_seconds spans span later
    latest update
two_windows = refl

window_seconds-run_example :
    Ensures
      (λ r.
        (window_seconds nanoseconds r.0 100 ≡ some (count_below 100 (in_window r.0)))
        × ((t : Instant) → try_in_window r.0 t ≡ some (in_window r.0 t)))
      (collect decimal (new (info ∷ info ∷ []) 0 2 5 0) events)
unfolding latest
window_seconds-run_example =
    window_seconds-run decimal (info ∷ info ∷ []) 0 2 5 0 100 events (omega arith) (ground arith)
      (omega arith) (omega arith)
