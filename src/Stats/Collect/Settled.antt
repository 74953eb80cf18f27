-- ===== src/Stats/Collect/Settled.antt =====
-- Through a whole run of `on_event` of src/stats.rs, the answer of `in_window` for an instant is
-- settled once every event is later.
use robinhood_feed_bench.Common.{
  ℕ, ◌<◌, ◌≡◌, refl, ◌∙◌, List, [], ◌∷◌, Option, All, Ensures, Ensures-bind, Ensures-and,
  Ensures-eq,
}
use robinhood_feed_bench.Common.Texts.{Text}
use robinhood_feed_bench.Event.{Payload, Event}
use robinhood_feed_bench.Stats.{Collector, Notice, Step}
use robinhood_feed_bench.Stats.Wf.{IsWf, Keeps, Keeps-IsWf}
use robinhood_feed_bench.Stats.Windows.{in_window}
use robinhood_feed_bench.Stats.Windows.Times.{
  in_window-same, on_connected-settled, on_disconnected-settled,
}
use robinhood_feed_bench.Stats.Record.Frame.{Untouched, on_block-Frame, on_tx-Frame}
use robinhood_feed_bench.Stats.Collect.{dispatch, on_event, collect}
use robinhood_feed_bench.Stats.Collect.Invariant.{Known, on_event-Keeps}

abbrev Settled : Collector → ℕ → Step → Type 0
Settled c u = Ensures (λ r. in_window r.0 u ≡ in_window c u)

in_window-Frame : (c d : Collector) (u : ℕ) → Untouched c d → in_window d u ≡ in_window c u
in_window-Frame c d u same = in_window-same d c u same.0 same.1

module _ (show_ms : ℕ → Text) {n : ℕ} (u : ℕ) where
  dispatch-Settled :
      (c : Collector) (s t : ℕ) (payload : Payload)
      → IsWf n c
      → s < n
      → u < t
      → Keeps n c (dispatch show_ms c s t payload)
      → Settled c u (dispatch show_ms c s t payload)
  unfolding dispatch
  dispatch-Settled c s t (Payload.connected detail) wf lt early kept =
      on_connected-settled c s t u wf lt early detail
  dispatch-Settled c s t (Payload.disconnected reason) wf lt early kept =
      on_disconnected-settled c s t u wf lt early reason
  dispatch-Settled c s t (Payload.block key seq hash count wire_len) wf lt early kept =
      Ensures-eq {A = Collector × Option Notice} _ _ _ kept
        λ r e. in_window-Frame c r.0 u (on_block-Frame show_ms c s t key seq hash count wire_len e)
  dispatch-Settled c s t (Payload.tx hash key count swap raw_len) wf lt early kept =
      Ensures-eq {A = Collector × Option Notice} _ _ _ kept
        λ r e. in_window-Frame c r.0 u (on_tx-Frame c s t hash key count swap raw_len e)

  on_event-Settled :
      (c : Collector) (ev : Event)
      → IsWf n c
      → Known n ev
      → u < ev.t
      → Settled c u (on_event show_ms c ev)
  unfolding on_event
  on_event-Settled c ev wf lt early =
      dispatch-Settled c ev.source ev.t ev.payload wf lt early (on_event-Keeps show_ms c ev wf lt)

  -- From a well-formed collector a run of events of known sources, all later than `u`, does not
  -- panic, and `u` is in the window after it just when it was before.
  pub collect-settled :
      (evs : List Event) (c : Collector)
      → IsWf n c
      → All (λ ev. Known n ev × (u < ev.t)) evs
      → Ensures (λ r. in_window r.0 u ≡ in_window c u) (collect show_ms c evs)
  unfolding collect
  collect-settled [] c wf known = refl
  collect-settled (ev ∷ evs) c wf known =
      Ensures-bind {A = Collector × Option Notice} _
        (λ x. IsWf n x.0 × (in_window x.0 u ≡ in_window c u)) _ _
        (Ensures-and (λ x. IsWf n x.0) (λ x. in_window x.0 u ≡ in_window c u) _
          (Keeps-IsWf n c _ (on_event-Keeps show_ms c ev wf known.0.0))
          (on_event-Settled c ev wf known.0.0 known.0.1))
        λ r kept.
          Ensures-bind {A = Collector × List Notice} _ (λ x. in_window x.0 u ≡ in_window r.0 u) _ _
            (collect-settled evs r.0 kept.0 known.1) λ q rest. rest ∙ kept.1
