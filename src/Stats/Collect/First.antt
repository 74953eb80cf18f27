-- ===== src/Stats/Collect/First.antt =====
-- A run of `on_event` of src/stats.rs against the events themselves: which delivery of a block by
-- a source the collector keeps.
use robinhood_feed_bench.Common.{
  ℕ, ◌≤◌, ◌≡◌, refl, sym, ap, ◌∙◌, List, [], ◌∷◌, Option, none, some, All, length, Ensures,
  Ensures-eq, if◌then◌else◌, ◌==◌, >>=-eq-some, arith,
}
use robinhood_feed_bench.Common.Texts.{Text, text_eq}
use robinhood_feed_bench.Common.Maps.{lookup}
use robinhood_feed_bench.Event.{Instant, Payload, Event}
use robinhood_feed_bench.Stats.{SourceInfo, Collector, Notice, new}
use robinhood_feed_bench.Stats.Windows.Keeps.{on_connected-blocks, on_disconnected-blocks}
use robinhood_feed_bench.Stats.Record.{or_else}
use robinhood_feed_bench.Stats.Record.Delivered.{
  arrival, or_else-none, on_block-arrival, on_tx-blocks,
}
use robinhood_feed_bench.Stats.Collect.{dispatch, on_event, collect}
use robinhood_feed_bench.Stats.Collect.Invariant.{Known, collect-reports}

-- The instant of an event that is the block `key` from the source `s`.
abbrev pub delivers : Text → ℕ → ℕ → Instant → Payload → Option Instant
delivers key s source t (Payload.connected detail) = none
delivers key s source t (Payload.disconnected reason) = none
delivers key s source t (Payload.block k seq hash count wire_len) =
    if text_eq k key then (if source == s then some t else none) else none
delivers key s source t (Payload.tx hash k count swap raw_len) = none

-- The first event that is.
abbrev pub first_delivery : Text → ℕ → List Event → Option Instant
first_delivery key s [] = none
first_delivery key s (ev ∷ evs) =
    or_else (delivers key s ev.source ev.t ev.payload) (first_delivery key s evs)

or_else_assoc : (a b c : Option Instant) → or_else (or_else a b) c ≡ or_else a (or_else b c)
or_else_assoc none b c = refl
or_else_assoc (some a) b c = refl

module _ (show_ms : ℕ → Text) (key : Text) (s : ℕ) where
  arrival-same :
      (c d : Collector) → d.blocks ≡ c.blocks → arrival d key s ≡ or_else (arrival c key s) none
  arrival-same c d same = rw same (sym (or_else-none (arrival c key s)))

  dispatch-arrival :
      (c : Collector) (source t : ℕ) (payload : Payload) {q : Collector × Option Notice}
      → dispatch show_ms c source t payload ≡ some q
      → arrival q.0 key s ≡ or_else (arrival c key s) (delivers key s source t payload)
  unfolding dispatch
  dispatch-arrival c source t (Payload.connected detail) {q} h =
      arrival-same c q.0 (on_connected-blocks c source t detail h)
  dispatch-arrival c source t (Payload.disconnected reason) {q} h =
      arrival-same c q.0 (on_disconnected-blocks c source t reason h)
  dispatch-arrival c source t (Payload.block k seq hash count wire_len) {q} h =
      on_block-arrival show_ms c source t k seq hash count wire_len key s h
  dispatch-arrival c source t (Payload.tx hash k count swap raw_len) {q} h =
      arrival-same c q.0 (on_tx-blocks c source t hash k count swap raw_len h)

  collect-arrival :
      (evs : List Event) (c : Collector) {r : Collector × List Notice}
      → collect show_ms c evs ≡ some r
      → arrival r.0 key s ≡ or_else (arrival c key s) (first_delivery key s evs)
  unfolding collect on_event
  collect-arrival [] c {r} h = ground (arith, or_else-none (arrival c key s))
  collect-arrival (ev ∷ evs) c {r} h =
      let (q, stepped, later) = >>=-eq-some (on_event show_ms c ev) _ h in
      let (last, ran, done) = >>=-eq-some (collect show_ms q.0 evs) _ later in
      let step = dispatch-arrival c ev.source ev.t ev.payload stepped in
      let rest = collect-arrival evs q.0 ran in
      let same : r.0 ≡ last.0 = ground arith in
      ap (λ d. arrival d key s) same
      ∙ rest
      ∙ ap (λ a. or_else a (first_delivery key s evs)) step
      ∙ or_else_assoc (arrival c key s) _ _

-- From `Collector::new` over one source at least, a run of events of those sources does not panic,
-- and for every key and source the collector then has the block as delivered by the source at the
-- instant of the first of the events that delivered it, and as not delivered when none did.
pub collect-first_delivery :
    (show_ms : ℕ → Text) (sources : List SourceInfo) (reference min_sources warmup now : ℕ)
    (evs : List Event) (key : Text) (s : ℕ)
    → 1 ≤ length sources
    → All (Known (length sources)) evs
    → Ensures
        (λ r. arrival r.0 key s ≡ first_delivery key s evs)
        (collect show_ms (new sources reference min_sources warmup now) evs)
collect-first_delivery show_ms sources reference min_sources warmup now evs key s h known =
    let started = new sources reference min_sources warmup now in
    let empty : arrival started key s ≡ none = unfold new lookup in refl in
    Ensures-eq {A = Collector × List Notice} _ _ (collect show_ms started evs)
      (collect-reports show_ms sources reference min_sources warmup now evs h known)
      λ r ran.
        collect-arrival show_ms key s evs started ran
        ∙ ap (λ a. or_else a (first_delivery key s evs)) empty
