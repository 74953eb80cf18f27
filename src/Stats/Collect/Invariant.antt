-- ===== src/Stats/Collect/Invariant.antt =====
-- A run of `on_event` of src/stats.rs over the events of known sources.
use robinhood_feed_bench.Common.{
  ℕ, ◌+◌, ◌≤◌, ◌<◌, ◌≡◌, refl, List, [], ◌∷◌, ◌++◌, Option, none, some, length, All, Ensures,
  Ensures-bind, Ensures-weaken, arith,
}
use robinhood_feed_bench.Common.Texts.{Text}
use robinhood_feed_bench.Event.{Payload, Event}
use robinhood_feed_bench.Stats.{SourceInfo, Collector, Notice, new}
use robinhood_feed_bench.Stats.Wf.{IsWf, Keeps, new-IsWf, lines, completed}
use robinhood_feed_bench.Stats.Windows.Keeps.{on_connected-Keeps, on_disconnected-Keeps}
use robinhood_feed_bench.Stats.Record.Keeps.{on_block-Keeps}
use robinhood_feed_bench.Stats.Record.KeepsTx.{on_tx-Keeps}
use robinhood_feed_bench.Stats.Collect.{reported, dispatch, on_event, collect}

abbrev pub all_lines : List Notice → ℕ
all_lines [] = 0
all_lines (n ∷ ns) = lines (some n) + all_lines ns

all_lines-reported :
    (notice : Option Notice) (ns : List Notice)
    → all_lines (reported notice ++ ns) ≡ lines notice + all_lines ns
all_lines-reported none ns = omega arith
all_lines-reported (some n) ns = refl

abbrev pub Known : ℕ → Event → Type 0
Known n ev = ev.source < n

module _ (show_ms : ℕ → Text) {n : ℕ} where
  dispatch-Keeps :
      (c : Collector) (s t : ℕ) (payload : Payload)
      → IsWf n c
      → s < n
      → Keeps n c (dispatch show_ms c s t payload)
  unfolding dispatch
  dispatch-Keeps c s t (Payload.connected detail) wf lt = on_connected-Keeps c s t wf lt detail
  dispatch-Keeps c s t (Payload.disconnected reason) wf lt =
      on_disconnected-Keeps c s t wf lt reason
  dispatch-Keeps c s t (Payload.block key seq hash count wire_len) wf lt =
      on_block-Keeps c s t wf lt show_ms key seq hash count wire_len
  dispatch-Keeps c s t (Payload.tx hash key count swap raw_len) wf lt =
      on_tx-Keeps c s t wf lt hash key count swap raw_len

  pub on_event-Keeps :
      (c : Collector) (ev : Event) → IsWf n c → Known n ev → Keeps n c (on_event show_ms c ev)
  unfolding on_event
  on_event-Keeps c ev wf lt = dispatch-Keeps c ev.source ev.t ev.payload wf lt

  collect-Keeps :
      (evs : List Event) (c : Collector)
      → IsWf n c
      → All (Known n) evs
      → Ensures
          (λ r. IsWf n r.0 × (completed r.0 ≡ completed c + all_lines r.1))
          (collect show_ms c evs)
  unfolding collect
  collect-Keeps [] c wf known = (wf, omega arith)
  collect-Keeps (ev ∷ evs) c wf known =
      Ensures-bind {A = Collector × Option Notice} _
        (λ x. IsWf n x.0 × (completed x.0 ≡ completed c + lines x.1)) _ _
        (on_event-Keeps c ev wf known.0)
        λ r kept.
          Ensures-bind {A = Collector × List Notice} _
            (λ x. IsWf n x.0 × (completed x.0 ≡ completed r.0 + all_lines x.1)) _ _
            (collect-Keeps evs r.0 kept.0 known.1)
            λ q rest. (rest.0, omega (arith, all_lines-reported r.1 q.1))

-- From `Collector::new` over one source at least, no run of events of those sources panics, the
-- invariant holds after it, and it has reported one block line for every completed block.
pub collect-reports :
    (show_ms : ℕ → Text) (sources : List SourceInfo) (reference min_sources warmup now : ℕ)
    (evs : List Event)
    → 1 ≤ length sources
    → All (Known (length sources)) evs
    → Ensures
        (λ r. IsWf (length sources) r.0 × (completed r.0 ≡ all_lines r.1))
        (collect show_ms (new sources reference min_sources warmup now) evs)
collect-reports show_ms sources reference min_sources warmup now evs h known =
    let started = new sources reference min_sources warmup now in
    let none_completed : completed started ≡ 0 = unfold new in refl in
    let wf = new-IsWf sources reference min_sources warmup now h in
    Ensures-weaken {A = Collector × List Notice} _ _ (collect show_ms started evs)
      (λ r kept. (kept.0, omega (arith, none_completed)))
      (collect-Keeps show_ms evs started wf known)
