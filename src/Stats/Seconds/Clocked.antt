-- ===== src/Stats/Seconds/Clocked.antt =====
-- `window_seconds` of src/stats.rs after a run of events in the order of their instants.
use robinhood_feed_bench.Common.{
  ℕ, ◌+◌, arith, refl, ◌∙◌, none, some, [], ◌∷◌, ◌≤◌, ◌<◌, ◌≡◌, sym, subst, List, Option, length,
  All, Ensures, Ensures-bind, Ensures-and, Ensures-eq, Ensures-weaken,
}
use robinhood_feed_bench.Common.Texts.{Text}
use robinhood_feed_bench.Event.{Instant, Payload, Event, latest}
use robinhood_feed_bench.Stats.{Windows, Collector, SourceInfo, Notice, new}
use robinhood_feed_bench.Stats.Wf.{IsWf, Keeps-IsWf, new-IsWf}
use robinhood_feed_bench.Stats.Windows.{in_window, try_in_window}
use robinhood_feed_bench.Stats.Windows.Timely.{Timely, try_in_window-some}
use robinhood_feed_bench.Stats.Collect.Timely.{on_event-warmup}
use robinhood_feed_bench.Stats.Windows.Clock.{on_connected-Ordered, on_disconnected-Ordered}
use robinhood_feed_bench.Stats.Windows.Order.{Ordered, Ordered-later}
use robinhood_feed_bench.Stats.Record.Frame.{on_block-Frame, on_tx-Frame}
use robinhood_feed_bench.Stats.Collect.{dispatch, on_event, collect}
use robinhood_feed_bench.Stats.Collect.Invariant.{Known, on_event-Keeps}
use robinhood_feed_bench.Stats.Seconds.{window_seconds}
use robinhood_feed_bench.Stats.Seconds.Counts.{nanoseconds, count_below, window_seconds-count}

-- Events in the order of their instants, from `last` on and not past `now`.
abbrev pub Clocked : Instant → Instant → List Event → Type 0
Clocked last now [] = last ≤ now
Clocked last now (ev ∷ evs) = (last ≤ ev.t) × Clocked ev.t now evs

Ordered-same :
    (last t : Instant) (c d : Collector)
    → last ≤ t
    → Ordered last c.all_up
    → d.all_up ≡ c.all_up
    → Ordered t d.all_up
Ordered-same last t c d later o e =
    subst (Ordered t) (sym e) (Ordered-later last t c.all_up later o)

module _ (show_ms : ℕ → Text) {n : ℕ} where
  dispatch-Ordered :
      (c : Collector) (s : ℕ) (last t : Instant) (payload : Payload)
      → IsWf n c
      → s < n
      → last ≤ t
      → Ordered last c.all_up
      → Ensures (λ r. IsWf n r.0) (dispatch show_ms c s t payload)
      → Ensures (λ r. Ordered t r.0.all_up) (dispatch show_ms c s t payload)
  unfolding dispatch
  dispatch-Ordered c s last t (Payload.connected detail) wf lt later o good =
      on_connected-Ordered c s last t wf lt o later detail
  dispatch-Ordered c s last t (Payload.disconnected reason) wf lt later o good =
      on_disconnected-Ordered c s last t wf lt o later reason
  dispatch-Ordered c s last t (Payload.block key seq hash count wire_len) wf lt later o good =
      Ensures-eq {A = Collector × Option Notice} _ _ _ good λ r e.
        Ordered-same last t c r.0 later o
          (on_block-Frame show_ms c s t key seq hash count wire_len e).0
  dispatch-Ordered c s last t (Payload.tx hash key count swap raw_len) wf lt later o good =
      Ensures-eq {A = Collector × Option Notice} _ _ _ good
        λ r e. Ordered-same last t c r.0 later o (on_tx-Frame c s t hash key count swap raw_len e).0

  collect-Ordered :
      (w : ℕ) (evs : List Event) (last now : Instant) (c : Collector)
      → IsWf n c
      → All (Known n) evs
      → Clocked last now evs
      → Ordered last c.all_up
      → c.warmup ≡ w
      → Ensures (λ r. Ordered now r.0.all_up × (r.0.warmup ≡ w)) (collect show_ms c evs)
  unfolding collect on_event
  collect-Ordered w [] last now c wf known clocked o same =
      (Ordered-later last now c.all_up clocked o, same)
  collect-Ordered w (ev ∷ evs) last now c wf known clocked o same =
      let good = Keeps-IsWf n c _ (on_event-Keeps show_ms c ev wf known.0) in
      let Step : Type 0 = Collector × Option Notice in
      Ensures-bind {A = Step} _ (λ r. (IsWf n r.0 × Ordered ev.t r.0.all_up) × (r.0.warmup ≡ w)) _ _
        (Ensures-and (λ r. IsWf n r.0 × Ordered ev.t r.0.all_up) (λ r. r.0.warmup ≡ w)
          (on_event show_ms c ev)
          (Ensures-and (λ r. IsWf n r.0) (λ r. Ordered ev.t r.0.all_up) (on_event show_ms c ev) good
            (dispatch-Ordered c ev.source last ev.t ev.payload wf known.0 clocked.0 o good))
          (Ensures-eq {A = Step} _ _ (on_event show_ms c ev) good
            (λ r e. on_event-warmup show_ms c ev e ∙ same)))
        λ r k.
          Ensures-bind {A = Collector × List Notice} _
            (λ x. Ordered now x.0.all_up × (x.0.warmup ≡ w)) _ _
            (collect-Ordered w evs ev.t now r.0 k.0.0 known.1 clocked.1 k.0.1 k.1) λ x kept. kept

-- Windows in order begin by now.
Ordered-Timely :
    (warmup now : ℕ) (ws : Windows) → now + warmup ≤ latest → Ordered now ws → Timely warmup ws
Ordered-Timely warmup now [] h o = tt
Ordered-Timely warmup now ((a, none) ∷ []) h o = (omega (arith, o.0), tt)
Ordered-Timely warmup now ((a, none) ∷ v ∷ ws) h o = cc
Ordered-Timely warmup now ((a, some b) ∷ ws) h o =
    (omega (arith, o.0, o.1), Ordered-Timely warmup now ws h o.3)

-- After a run of events of known sources in the order of their instants, none of them later than
-- `now`, `window_seconds` with whole nanoseconds is the number of instants before `now` for which
-- `in_window` answers yes, when the warm-up after `now` is a time that the clock can tell.
pub window_seconds-run :
    (show_ms : ℕ → Text) (infos : List SourceInfo) (reference min_sources warmup start now : ℕ)
    (evs : List Event)
    → 0 < length infos
    → All (Known (length infos)) evs
    → Clocked start now evs
    → now + warmup ≤ latest
    → Ensures
        (λ r.
          (window_seconds nanoseconds r.0 now ≡ some (count_below now (in_window r.0)))
          × ((t : Instant) → try_in_window r.0 t ≡ some (in_window r.0 t)))
        (collect show_ms (new infos reference min_sources warmup start) evs)
unfolding new
window_seconds-run show_ms infos reference min_sources warmup start now evs some_source known
      clocked in_time =
    let c = new infos reference min_sources warmup start in
    let wf = new-IsWf infos reference min_sources warmup start some_source in
    Ensures-weaken {A = Collector × List Notice}
      (λ r. Ordered now r.0.all_up × (r.0.warmup ≡ warmup)) _ _
      (λ r k.
        let timely = Ordered-Timely r.0.warmup now r.0.all_up (omega (arith, k.1)) k.0 in
        (window_seconds-count r.0 now timely k.0, λ t. try_in_window-some r.0 t timely))
      (collect-Ordered show_ms warmup evs start now c wf known clocked tt refl)
