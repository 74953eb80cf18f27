-- ===== src/Stats/Collect/Timely.antt =====
-- No step of `on_event` of src/stats.rs makes a window whose warm-up the clock cannot tell.
use robinhood_feed_bench.Common.{ℕ, ◌+◌, ◌≤◌, ◌≡◌, inl, List, Option, some}
use robinhood_feed_bench.Common.Texts.{Text}
use robinhood_feed_bench.Event.{Payload, Event, latest}
use robinhood_feed_bench.Stats.{SourceInfo, Collector, Notice}
use robinhood_feed_bench.Stats.Windows.Timely.{
  Runs, Runs-step, connected-cases, disconnected-cases, on_connected-Runs, on_disconnected-Runs,
}
use robinhood_feed_bench.Stats.Record.Frame.{Untouched, on_block-Frame, on_tx-Frame}
use robinhood_feed_bench.Stats.Collect.{dispatch, on_event}

Untouched-Runs :
    (warmup : ℕ) (sources : List SourceInfo) (c d : Collector)
    → Runs warmup sources c
    → Untouched c d
    → Runs warmup sources d
Untouched-Runs warmup sources c d h e =
    Runs-step warmup sources c d c.all_up h e.1 e.6 (inl e.0) (λ k. k)

pub dispatch-warmup :
    (show_ms : ℕ → Text) (c : Collector) (s t : ℕ) (payload : Payload)
    {q : Collector × Option Notice}
    → dispatch show_ms c s t payload ≡ some q
    → q.0.warmup ≡ c.warmup
unfolding dispatch
dispatch-warmup show_ms c s t (Payload.connected detail) e = (connected-cases c s t detail e).0
dispatch-warmup show_ms c s t (Payload.disconnected reason) e =
    (disconnected-cases c s t reason e).0
dispatch-warmup show_ms c s t (Payload.block key seq hash count wire_len) e =
    (on_block-Frame show_ms c s t key seq hash count wire_len e).1
dispatch-warmup show_ms c s t (Payload.tx hash key count swap raw_len) e =
    (on_tx-Frame c s t hash key count swap raw_len e).1

pub on_event-warmup :
    (show_ms : ℕ → Text) (c : Collector) (ev : Event) {q : Collector × Option Notice}
    → on_event show_ms c ev ≡ some q
    → q.0.warmup ≡ c.warmup
unfolding on_event
on_event-warmup show_ms c ev e = dispatch-warmup show_ms c ev.source ev.t ev.payload e

module _ (show_ms : ℕ → Text) (warmup : ℕ) (sources : List SourceInfo) where
  dispatch-Runs :
      (c : Collector) (s t : ℕ) (payload : Payload) {q : Collector × Option Notice}
      → t + warmup ≤ latest
      → Runs warmup sources c
      → dispatch show_ms c s t payload ≡ some q
      → Runs warmup sources q.0
  unfolding dispatch
  dispatch-Runs c s t (Payload.connected detail) lt h e =
      on_connected-Runs warmup sources c s t detail lt h e
  dispatch-Runs c s t (Payload.disconnected reason) lt h e =
      on_disconnected-Runs warmup sources c s t reason h e
  dispatch-Runs c s t (Payload.block key seq hash count wire_len) {q} lt h e =
      Untouched-Runs warmup sources c q.0 h
        (on_block-Frame show_ms c s t key seq hash count wire_len e)
  dispatch-Runs c s t (Payload.tx hash key count swap raw_len) {q} lt h e =
      Untouched-Runs warmup sources c q.0 h (on_tx-Frame c s t hash key count swap raw_len e)

  pub on_event-Runs :
      (c : Collector) (ev : Event) {q : Collector × Option Notice}
      → ev.t + warmup ≤ latest
      → Runs warmup sources c
      → on_event show_ms c ev ≡ some q
      → Runs warmup sources q.0
  unfolding on_event
  on_event-Runs c ev lt h e = dispatch-Runs c ev.source ev.t ev.payload lt h e
