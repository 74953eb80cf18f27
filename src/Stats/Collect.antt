-- ===== src/Stats/Collect.antt =====
-- src/stats.rs: `on_event`, and a run of events through it.
pub mod Invariant
pub mod Settled
pub mod First
pub mod Reference
pub mod Timely
use robinhood_feed_bench.Common.{ℕ, List, [], ◌∷◌, ◌++◌, Option, none, some, ◌>>=◌}
use robinhood_feed_bench.Common.Texts.{Text}
use robinhood_feed_bench.Event.{Payload, Event}
use robinhood_feed_bench.Stats.{Collector, Notice, Step}
use robinhood_feed_bench.Stats.Windows.{on_connected, on_disconnected}
use robinhood_feed_bench.Stats.Record.{on_block, on_tx}

abbrev pub reported : Option Notice → List Notice
reported none = []
reported (some n) = n ∷ []

module _ (show_ms : ℕ → Text) where
  unfoldable pub dispatch : Collector → ℕ → ℕ → Payload → Step
  dispatch c s t (Payload.connected detail) = on_connected c s t detail
  dispatch c s t (Payload.disconnected reason) = on_disconnected c s t reason
  dispatch c s t (Payload.block key seq hash tx_count wire_len) =
      on_block show_ms c s t key seq hash tx_count wire_len
  dispatch c s t (Payload.tx hash block_key tx_count synthetic_swap raw_len) =
      on_tx c s t hash block_key tx_count synthetic_swap raw_len

  unfoldable pub on_event : Collector → Event → Step
  unfolding dispatch
  on_event c ev = dispatch c ev.source ev.t ev.payload

  -- The collector's loop over the events that arrived, with the notices in order.
  unfoldable pub collect : Collector → List Event → Option (Collector × List Notice)
  collect c [] = some (c, [])
  collect c (ev ∷ evs) = do
    (c', notice) ← on_event c ev
    (last, notices) ← collect c' evs
    some (last, reported notice ++ notices)
