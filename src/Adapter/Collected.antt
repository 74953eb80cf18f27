-- ===== src/Adapter/Collected.antt =====
-- The collector of src/stats.rs behind the adapters of src/nitro.rs, src/wsjson.rs and
-- src/wsraw.rs: what it holds about a source that is one of these.
use robinhood_feed_bench.Common.{
  ℕ, ◌+◌, ◌-◌, ◌%◌, ◌<◌, ◌≡◌, ◌≢◌, refl, sym, ap, subst, ◌∙◌, Bool, true, false, List, [], ◌∷◌,
  ◌++◌, Option, none, some, length, get_elem?, ltb, ◌==◌, if◌then◌else◌, All, lt→ltb, ==_iff,
  get_elem?-replicate, ◌>>=◌, Bool-cases, Option-cases, inl, inr, arith, Ensures, Ensures-and,
  Ensures-bind, Ensures-eq, Ensures-weaken,
}
use robinhood_feed_bench.Common.Texts.{Text}
use robinhood_feed_bench.Event.{Instant, Payload, Event}
use robinhood_feed_bench.Stats.{Collector, SourceInfo, Notice, new, u32_mod}
use robinhood_feed_bench.Stats.Wf.{IsWf, Keeps-IsWf, new-IsWf}
use robinhood_feed_bench.Stats.Windows.{on_connected, on_disconnected}
use robinhood_feed_bench.Stats.Windows.Links.{
  Link, on_connected-up, on_connected-other, on_disconnected-down, on_disconnected-other,
}
use robinhood_feed_bench.Stats.Record.Frame.{Untouched, on_block-Frame, on_tx-Frame}
use robinhood_feed_bench.Stats.Collect.{dispatch, on_event, collect, reported}
use robinhood_feed_bench.Stats.Collect.Invariant.{Known, on_event-Keeps}
use robinhood_feed_bench.Ws.Session.{Message}
use robinhood_feed_bench.Adapter.{Adapter, Attempt, run, events_of}
use robinhood_feed_bench.Adapter.Lifecycle.{live_step, watch, IsDelivery, run-Lives}

-- One for the event that opens a session.
abbrev pub opens : Payload → ℕ
opens (Payload.connected detail) = 1
opens (Payload.disconnected reason) = 0
opens (Payload.block key seq hash count wire_len) = 0
opens (Payload.tx hash key count swap raw_len) = 0

-- The sessions of source `i` among the events of all sources.
abbrev pub sessions : ℕ → List Event → ℕ
sessions i [] = 0
sessions i (ev ∷ evs) = (if ev.source == i then opens ev.payload else 0) + sessions i evs

-- After `m` sessions: the flags of the source, and one reconnect for each session but the first.
abbrev pub Kept : ℕ → Bool → ℕ → Collector → Type 0
Kept i up m = Link i up (ltb 0 m) ((m - 1) % u32_mod)

Untouched-Kept :
    (i : ℕ) (up : Bool) (m : ℕ) (c d : Collector) → Untouched c d → Kept i up m c → Kept i up m d
Untouched-Kept i up m c d same kept = (
  ap (λ l. get_elem? l i) same.3 ∙ kept.0,
  ap (λ l. get_elem? l i) same.4 ∙ kept.1,
  ap (λ l. get_elem? l i) same.5 ∙ kept.2,
)

went : {b u : Bool} → some b ≡ some u → b ≡ u
went e = cc

zero_add : (m : ℕ) → m ≡ 0 + m
zero_add m = omega arith

module _ (show_ms : ℕ → Text) {n : ℕ} (c : Collector) (t : Instant) (wf : IsWf n c) where
  -- An event of another source.
  dispatch-other :
      (s i : ℕ) (up : Bool) (m : ℕ) (payload : Payload)
      → s < n
      → s ≢ i
      → Kept i up m c
      → Ensures (λ r. IsWf n r.0) (dispatch show_ms c s t payload)
      → Ensures (λ r. Kept i up m r.0) (dispatch show_ms c s t payload)
  unfolding dispatch
  dispatch-other s i up m (Payload.connected detail) lt ne kept good =
      on_connected-other c s t wf lt detail i up (ltb 0 m) ((m - 1) % u32_mod) ne kept
  dispatch-other s i up m (Payload.disconnected reason) lt ne kept good =
      on_disconnected-other c s t wf lt reason i up (ltb 0 m) ((m - 1) % u32_mod) ne kept
  dispatch-other s i up m (Payload.block key seq hash count wire_len) lt ne kept good =
      Ensures-eq {A = Collector × Option Notice} _ _ _ good λ r e.
        Untouched-Kept i up m c r.0 (on_block-Frame show_ms c s t key seq hash count wire_len e)
          kept
  dispatch-other s i up m (Payload.tx hash key count swap raw_len) lt ne kept good =
      Ensures-eq {A = Collector × Option Notice} _ _ _ good
        λ r e. Untouched-Kept i up m c r.0 (on_tx-Frame c s t hash key count swap raw_len e) kept

  one_more :
      (m : ℕ)
      → (if ltb 0 m then ((m - 1) % u32_mod + 1) % u32_mod else (m - 1) % u32_mod)
        ≡ (1 + m - 1) % u32_mod
  one_more m = ground arith

  dispatch-other_than :
      (payload : Payload) (i m : ℕ)
      → Kept i true m c
      → Ensures (λ r. Untouched c r.0) (dispatch show_ms c i t payload)
      → Ensures (λ r. Kept i true (0 + m) r.0) (dispatch show_ms c i t payload)
  dispatch-other_than payload i m kept same =
      Ensures-weaken {A = Collector × Option Notice} _ _ (dispatch show_ms c i t payload)
        (λ r u. subst (λ k. Kept i true k r.0) (zero_add m) (Untouched-Kept i true m c r.0 u kept))
        same

  -- An event of the source itself, which may come when it is up or down as it is.
  dispatch-own :
      (i : ℕ) (up next : Bool) (m : ℕ) (payload : Payload)
      → i < n
      → live_step up payload ≡ some next
      → Kept i up m c
      → Ensures (λ r. IsWf n r.0) (dispatch show_ms c i t payload)
      → Ensures (λ r. Kept i next (opens payload + m) r.0) (dispatch show_ms c i t payload)
  unfolding dispatch live_step
  dispatch-own i false next m (Payload.connected detail) lt live kept good =
      subst (λ u. Ensures (λ r. Kept i u (1 + m) r.0) (on_connected c i t detail)) (went live)
        (Ensures-weaken {A = Collector × Option Notice} _ _ (on_connected c i t detail)
          (λ r link. (
            link.0,
            link.1 ∙ ap some (sym (lt→ltb 0 (1 + m) (omega arith))),
            link.2 ∙ ap some (one_more m),
          ))
          (on_connected-up c i t wf lt detail (ltb 0 m) ((m - 1) % u32_mod) kept))
  dispatch-own i true next m (Payload.connected detail) lt live kept good = cc
  dispatch-own i true next m (Payload.disconnected reason) lt live kept good =
      subst (λ u. Ensures (λ r. Kept i u (0 + m) r.0) (on_disconnected c i t reason)) (went live)
        (subst (λ k. Ensures (λ r. Kept i false k r.0) (on_disconnected c i t reason)) (zero_add m)
          (on_disconnected-down c i t wf lt reason (ltb 0 m) ((m - 1) % u32_mod) kept))
  dispatch-own i false next m (Payload.disconnected reason) lt live kept good = cc
  dispatch-own i true next m (Payload.block key seq hash count wire_len) lt live kept good =
      subst
        (λ u.
          Ensures (λ r. Kept i u (0 + m) r.0)
            (dispatch show_ms c i t (Payload.block key seq hash count wire_len)))
        (went live)
        (dispatch-other_than (Payload.block key seq hash count wire_len) i m kept (
          Ensures-eq {A = Collector × Option Notice} _ (λ r. Untouched c r.0) _ good
            λ r e. on_block-Frame show_ms c i t key seq hash count wire_len e))
  dispatch-own i false next m (Payload.block key seq hash count wire_len) lt live kept good = cc
  dispatch-own i true next m (Payload.tx hash key count swap raw_len) lt live kept good =
      subst
        (λ u.
          Ensures (λ r. Kept i u (0 + m) r.0)
            (dispatch show_ms c i t (Payload.tx hash key count swap raw_len)))
        (went live)
        (dispatch-other_than (Payload.tx hash key count swap raw_len) i m kept (
          Ensures-eq {A = Collector × Option Notice} _ (λ r. Untouched c r.0) _ good
            λ r e. on_tx-Frame c i t hash key count swap raw_len e))
  dispatch-own i false next m (Payload.tx hash key count swap raw_len) lt live kept good = cc

module _ (show_ms : ℕ → Text) (n i : ℕ) where
  abbrev Both : Bool → ℕ → Collector × Option Notice → Type 0
  Both up m r = IsWf n r.0 × Kept i up m r.0

  own_step :
      (c : Collector) (ev : Event)
      → IsWf n c
      → ev.source < n
      → ev.source ≡ i
      → (next up : Bool) (m : ℕ) → live_step up ev.payload ≡ some next
      → Kept i up m c
      → Ensures (λ r. IsWf n r.0) (on_event show_ms c ev)
      → Ensures (λ r. Kept i next (opens ev.payload + m) r.0) (on_event show_ms c ev)
  unfolding on_event
  own_step c ev wf lt same next up m live kept good =
      subst (λ k. Ensures (λ r. Kept k next (opens ev.payload + m) r.0) (on_event show_ms c ev))
        same
        (dispatch-own show_ms c ev.t wf ev.source up next m ev.payload lt live
          (subst (λ k. Kept k up m c) (sym same) kept) good)

  -- What holds after the later events holds with the notices in front.
  later_Kept :
      (evs : List Event) (notice : Option Notice) (last : Bool) (k m total : ℕ) (c : Collector)
      → k + m ≡ total
      → Ensures (λ x. Kept i last (k + m) x.0) (collect show_ms c evs)
      → Ensures {A = Collector × List Notice}
          (λ x. Kept i last total x.0)
          (collect show_ms c evs >>= λ (end, notices). some (end, reported notice ++ notices))
  later_Kept evs notice last k m total c e h =
      Ensures-bind {A = Collector × List Notice} _ (λ x. Kept i last (k + m) x.0) _ _ h
        λ x kept. subst (λ j. Kept i last j x.0) e kept

  -- The source is watched through a run of events of known sources.
  collect-Kept :
      (evs : List Event) (up last : Bool) (m : ℕ) (c : Collector)
      → IsWf n c
      → All (Known n) evs
      → watch i up evs ≡ some last
      → Kept i up m c
      → Ensures (λ r. Kept i last (sessions i evs + m) r.0) (collect show_ms c evs)
  unfolding collect on_event watch
  collect-Kept [] up last m c wf known live kept =
      subst (λ u. Kept i u (0 + m) c) (went live) (subst (λ k. Kept i up k c) (zero_add m) kept)
  collect-Kept (ev ∷ evs) up last m c wf known live kept =
      let good = Keeps-IsWf n c (on_event show_ms c ev) (on_event-Keeps show_ms c ev wf known.0) in
      elim (Bool-cases (ev.source == i)) [
        | inr other ↦
            let rest : watch i up evs ≡ some last = sym (rw (watch, other) refl) ∙ live in
            rw other (
              Ensures-bind {A = Collector × Option Notice} _ (Both up m) _ _
                (Ensures-and (λ r. IsWf n r.0) (λ r. Kept i up m r.0) (on_event show_ms c ev) good
                  (dispatch-other show_ms c ev.t wf ev.source i up m ev.payload known.0
                    (ground arith) kept good))
                λ r k.
                  later_Kept evs r.1 last (sessions i evs) m (0 + sessions i evs + m) r.0
                    (omega arith) (collect-Kept evs up last m r.0 k.0 known.1 rest k.1))
        | inl own ↦ elim (Option-cases (live_step up ev.payload)) [
          | inl bad ↦ let no : none ≡ some last = sym (rw (watch, own, bad) refl) ∙ live in cc
          | inr (next, good_step) ↦
              let rest : watch i next evs ≡ some last =
                sym (rw (watch, own, good_step) refl) ∙ live in
              let same : ev.source ≡ i = (==_iff ev.source i).0 own in
              let now = opens ev.payload + m in
              rw own (
                Ensures-bind {A = Collector × Option Notice} _ (Both next now) _ _
                  (Ensures-and (λ r. IsWf n r.0) (λ r. Kept i next now r.0) (on_event show_ms c ev)
                    good (own_step c ev wf known.0 same next up m good_step kept good))
                  λ r k.
                    later_Kept evs r.1 last (sessions i evs) now
                      (opens ev.payload + sessions i evs + m) r.0 (omega arith)
                      (collect-Kept evs next last now r.0 k.0 known.1 rest k.1))
        ]
      ]

-- The events of one source.
abbrev pub from_source : ℕ → List Event → List Event
from_source i [] = []
from_source i (ev ∷ evs) = if ev.source == i then ev ∷ from_source i evs else from_source i evs

watch-from_source :
    (i : ℕ) (up : Bool) (evs : List Event) → watch i up (from_source i evs) ≡ watch i up evs
unfolding watch
watch-from_source i up [] = refl
watch-from_source i up (ev ∷ evs) = elim (Bool-cases (ev.source == i)) [
  | inr other ↦ rw other (watch-from_source i up evs)
  | inl own ↦ elim (Option-cases (live_step up ev.payload)) [
    | inl bad ↦ rw (own, own, bad) refl
    | inr (next, good) ↦ rw (own, own, good) (watch-from_source i next evs)
  ]
]

sessions-from_source : (i : ℕ) (evs : List Event) → sessions i (from_source i evs) ≡ sessions i evs
sessions-from_source i [] = refl
sessions-from_source i (ev ∷ evs) = elim (Bool-cases (ev.source == i)) [
  | inr other ↦ rw other (sessions-from_source i evs ∙ zero_add (sessions i evs))
  | inl own ↦ rw (own, own) (ap (λ k. opens ev.payload + k) (sessions-from_source i evs))
]

module _ (show_ms : ℕ → Text) {S : Type 0} (a : Adapter S)
    (quiet : (s : S) (msg : Message) → All (IsDelivery a.index) (a.on_message s msg).1) where
  -- When the events that reach a new collector are those of known sources in any order, and those of
  -- one source are what its adapter sends in a run, in the order of the run, then the collector does
  -- not panic, and afterwards it has the source as connected just when its last session was not
  -- ended, as ever connected just when there was a session, and as many reconnects as there were
  -- sessions but one, modulo 2 ^ 32.
  pub run-collected :
      (infos : List SourceInfo) (reference min_sources warmup now : ℕ) (evs : List Event) (s : S)
      (backoff room : ℕ) (attempts : List Attempt)
      → a.index < length infos
      → All (Known (length infos)) evs
      → from_source a.index evs ≡ events_of (run a s backoff room attempts)
      → (up : Bool) × (watch a.index false (events_of (run a s backoff room attempts)) ≡ some up)
        × Ensures
            (λ r.
              Kept a.index up (sessions a.index (events_of (run a s backoff room attempts))) r.0)
            (collect show_ms (new infos reference min_sources warmup now) evs)
  unfolding new
  run-collected infos reference min_sources warmup now evs s backoff room attempts lt known own =
      let n = length infos in
      let i = a.index in
      let sent = events_of (run a s backoff room attempts) in
      let c = new infos reference min_sources warmup now in
      let (from, (up, lives)) = run-Lives a quiet s backoff room attempts in
      let live : watch i false evs ≡ some up =
        sym (watch-from_source i false evs) ∙ ap (watch i false) own ∙ lives in
      let count : sessions i evs + 0 ≡ sessions i sent =
        omega (arith, sessions-from_source i evs, ap (sessions i) own) in
      (
        up,
        lives,
        subst (λ k. Ensures (λ r. Kept i up k r.0) (collect show_ms c evs)) count
            (collect-Kept show_ms n i evs false up 0 c
              (new-IsWf infos reference min_sources warmup now (omega arith)) known live
              (
                get_elem?-replicate n i false lt,
                get_elem?-replicate n i false lt,
                get_elem?-replicate n i 0 lt,
              )),
      )
