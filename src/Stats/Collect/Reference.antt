-- ===== src/Stats/Collect/Reference.antt =====
-- `on_event` of src/stats.rs keeps the reference source of the collector.
use robinhood_feed_bench.Common.{ℕ, ◌≡◌, Option, some}
use robinhood_feed_bench.Common.Texts.{Text}
use robinhood_feed_bench.Event.{Payload, Event}
use robinhood_feed_bench.Stats.{Collector, Notice}
use robinhood_feed_bench.Stats.Windows.Keeps.{on_connected-reference, on_disconnected-reference}
use robinhood_feed_bench.Stats.Record.Frame.{on_block-Frame, on_tx-Frame}
use robinhood_feed_bench.Stats.Collect.{dispatch, on_event}

module _ (show_ms : ℕ → Text) where
  dispatch-reference :
      (c : Collector) (s t : ℕ) (payload : Payload) {q : Collector × Option Notice}
      → dispatch show_ms c s t payload ≡ some q
      → q.0.reference ≡ c.reference
  unfolding dispatch
  dispatch-reference c s t (Payload.connected detail) h = on_connected-reference c s t detail h
  dispatch-reference c s t (Payload.disconnected reason) h =
      on_disconnected-reference c s t reason h
  dispatch-reference c s t (Payload.block key seq hash count wire_len) h =
      (on_block-Frame show_ms c s t key seq hash count wire_len h).2
  dispatch-reference c s t (Payload.tx hash key count swap raw_len) h =
      (on_tx-Frame c s t hash key count swap raw_len h).2

  pub on_event-reference :
      (c : Collector) (ev : Event) {q : Collector × Option Notice}
      → on_event show_ms c ev ≡ some q
      → q.0.reference ≡ c.reference
  unfolding on_event
  on_event-reference c ev h = dispatch-reference c ev.source ev.t ev.payload h
