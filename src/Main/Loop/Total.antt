-- ===== src/Main/Loop/Total.antt =====
-- A whole run of src/main.rs, from the arguments to the summaries.
use robinhood_feed_bench.Common.{
  ◌<◌, suc, ℕ, ◌+◌, ◌≤◌, ◌≡◌, refl, subst, sym, ◌∙◌, Bool, true, false, List, [], ◌∷◌, ◌++◌, Option,
  none, some, unwrap_or, All, length, length-append, Ensures, Ensures-bind, Ensures-eq, Ensures-and,
  Ensures-weaken, ◌*◌, ◌^◌, if◌then◌else◌, arith, Bool-cases, inl, inr,
}
use robinhood_feed_bench.Common.Texts.{Text, codes}
use robinhood_feed_bench.Event.{Instant, Event, latest}
use robinhood_feed_bench.Stats.{SourceInfo, Collector, Notice, new}
use robinhood_feed_bench.Stats.Wf.{Keeps-IsWf, IsWf, new-IsWf}
use robinhood_feed_bench.Stats.Windows.Timely.{Timely, Runs, later-some}
use robinhood_feed_bench.Stats.Collect.Timely.{on_event-Runs}
use robinhood_feed_bench.Stats.Collect.{on_event}
use robinhood_feed_bench.Stats.Collect.Invariant.{Known, on_event-Keeps}
use robinhood_feed_bench.Stats.Percentile.{Floats}
use robinhood_feed_bench.Stats.Percentile.Ordered.{IsOrder}
use robinhood_feed_bench.Stats.Summary.{BlockSummary, block_summary}
use robinhood_feed_bench.Stats.Summary.Wins.{sum, wins_of, block_summary-wins}
use robinhood_feed_bench.Stats.Collect.Reference.{on_event-reference}
use robinhood_feed_bench.Stats.Pairs.{Marks, PairSummary}
use robinhood_feed_bench.Stats.TxSummary.{TxSummary, tx_summary}
use robinhood_feed_bench.Stats.TxSummary.Matched.{tx_summary-matched}
use robinhood_feed_bench.Main.Setup.{Args, Setup}
use robinhood_feed_bench.Main.Setup.Indices.{IsReady}
use robinhood_feed_bench.Main.Loop.Compared.{PairAdds, Compared, pairs_from-Compared}
use robinhood_feed_bench.Main.Loop.{
  Input, Loop, on_input, run_loop, start_loop, Summaries, summarise,
}

-- An event of a spawned task, at an instant for which the clock can tell the end of the warm-up.
abbrev pub KnownInput : ℕ → ℕ → Input → Type 0
KnownInput w n (Input.received ev) = Known n ev × (ev.t + w ≤ latest)
KnownInput w n Input.closed = Unit
KnownInput w n Input.deadline = Unit
KnownInput w n Input.interrupt = Unit
KnownInput w n (Input.tick now) = Unit

-- Whether the loop goes on after an input, and the ticks before it is left.
abbrev pub goes_on : Input → Bool
goes_on (Input.received ev) = true
goes_on Input.closed = false
goes_on Input.deadline = false
goes_on Input.interrupt = false
goes_on (Input.tick now) = true

abbrev pub tick_of : Input → ℕ
tick_of (Input.received ev) = 0
tick_of Input.closed = 0
tick_of Input.deadline = 0
tick_of Input.interrupt = 0
tick_of (Input.tick now) = 1

abbrev pub ticks : List Input → ℕ
ticks [] = 0
ticks (i ∷ is) = tick_of i + (if goes_on i then ticks is else 0)

module _ (show_ms : ℕ → Text) (floats : Floats) (ms : ℕ → floats.F) (pct : ℕ → ℕ → floats.F)
    (range_label : Instant → Instant → Instant → Text) (marks : Marks floats) where
  -- A summary with a row for each of `n` sources, whose wins add up to its blocks.
  abbrev pub Counted : ℕ → BlockSummary floats ms pct → Type 0
  Counted n s =
      (length (wins_of floats ms pct s.per_source) ≡ n)
      × (sum (wins_of floats ms pct s.per_source) ≡ s.completed)

  pub record IsLive (w : ℕ) (infos : List SourceInfo) (n k : ℕ)
      (l : Loop show_ms floats ms pct range_label marks) : Type 0 where
    pub wf : IsWf n l.collector
    pub runs : Runs w infos l.collector
    counted : All (Counted n) l.intervals
    many : length l.intervals ≡ k
    reference_in : l.collector.reference < n

  pub IsLive-Timely :
      {w : ℕ} {infos : List SourceInfo} {n k : ℕ} {l : Loop show_ms floats ms pct range_label marks}
      → IsLive w infos n k l
      → Timely l.collector.warmup l.collector.all_up
  IsLive-Timely {w} {infos} {n} {k} {l} live =
      subst (λ d. Timely d l.collector.all_up) (sym live.runs.0) live.runs.2

  All-snoc {ℓ κ} :
      {A : Type ℓ} (P : A → Type κ) (xs : List A) (a : A) → All P xs → P a → All P (xs ++ (a ∷ []))
  All-snoc P [] a h p = (p, tt)
  All-snoc P (x ∷ xs) a h p = (h.0, All-snoc P xs a h.1 p)

  summary-Counted :
      (order : IsOrder floats) {n : ℕ} (c : Collector) (label : Text) (since : Option Instant)
      (until : Instant)
      → IsWf n c
      → Timely c.warmup c.all_up
      → Ensures (Counted n) (block_summary floats ms pct c label since until)
  summary-Counted order c label since until wf timely =
      Ensures-weaken {A = BlockSummary floats ms pct} _ _
        (block_summary floats ms pct c label since until) (λ s h. (h.0, h.1))
        (block_summary-wins floats ms pct order c label since until wf timely)

  abbrev State : Type 0
  State = Loop show_ms floats ms pct range_label marks

  event-IsLive :
      {w : ℕ} {infos : List SourceInfo} {n : ℕ} (c : Collector) (ev : Event)
      → IsWf n c
      → Runs w infos c
      → c.reference < n
      → Known n ev
      → ev.t + w ≤ latest
      → Ensures (λ r. IsWf n r.0 × (Runs w infos r.0 × (r.0.reference < n))) (on_event show_ms c ev)
  event-IsLive {w} {infos} {n} c ev wf runs lt known in_time =
      let m = on_event show_ms c ev in
      let good = Keeps-IsWf n c m (on_event-Keeps show_ms c ev wf known) in
      Ensures-and {A = Collector × Option Notice} (λ r. IsWf n r.0)
        (λ r. Runs w infos r.0 × (r.0.reference < n)) m good
        (Ensures-eq {A = Collector × Option Notice} (λ r. IsWf n r.0) _ m good
          λ r e. (
            on_event-Runs show_ms w infos c ev in_time runs e,
            omega (arith, on_event-reference show_ms c ev e),
          ))

  -- A round keeps the state well-formed, and leaves the loop just when the input says so.
  on_input-IsLive :
      (order : IsOrder floats) {w : ℕ} {infos : List SourceInfo} {n : ℕ} (i : Input) (k : ℕ)
      (l : State)
      → IsLive w infos n k l
      → KnownInput w n i
      → Ensures
          (λ r. IsLive w infos n (k + tick_of i) r.0 × (r.1 ≡ goes_on i))
          (on_input show_ms floats ms pct range_label marks l i)
  unfolding on_input
  on_input-IsLive order {w} {infos} {n} (Input.received ev) k l live known =
      Ensures-bind {A = Collector × Option Notice} _
        (λ r. IsWf n r.0 × (Runs w infos r.0 × (r.0.reference < n))) _ _
        (event-IsLive l.collector ev live.wf live.runs live.reference_in known.0 known.1)
        λ r kept. (
          record {
            wf = kept.0;
            runs = kept.1.0;
            counted = live.counted;
            many = omega (arith, live.many);
            reference_in = kept.1.1;
          },
          refl,
        )
  on_input-IsLive order Input.closed k l live known = (
    record {
      wf = live.wf;
      runs = live.runs;
      counted = live.counted;
      many = omega (arith, live.many);
      reference_in = live.reference_in;
    },
    refl,
  )
  on_input-IsLive order Input.deadline k l live known = (
    record {
      wf = live.wf;
      runs = live.runs;
      counted = live.counted;
      many = omega (arith, live.many);
      reference_in = live.reference_in;
    },
    refl,
  )
  on_input-IsLive order Input.interrupt k l live known = (
    record {
      wf = live.wf;
      runs = live.runs;
      counted = live.counted;
      many = omega (arith, live.many);
      reference_in = live.reference_in;
    },
    refl,
  )
  on_input-IsLive order {w} {infos} {n} (Input.tick now) k l live known =
      Ensures-bind {A = BlockSummary floats ms pct} _ (Counted n) _ _
        (summary-Counted order l.collector (range_label l.collector.start l.last_summary now)
          (some l.last_summary) now live.wf (IsLive-Timely live))
        λ s counted. (
          record {
            wf = live.wf;
            runs = live.runs;
            counted = All-snoc (Counted n) l.intervals s live.counted counted;
            many = omega (arith, live.many, length-append l.intervals (s ∷ []));
            reference_in = live.reference_in;
          },
          refl,
        )

  pub run_loop-IsLive :
      (order : IsOrder floats) {w : ℕ} {infos : List SourceInfo} {n : ℕ} (is : List Input) (k m : ℕ)
      (l : State)
      → IsLive w infos n k l
      → All (KnownInput w n) is
      → m ≡ k + ticks is
      → Ensures (IsLive w infos n m) (run_loop show_ms floats ms pct range_label marks l is)
  unfolding run_loop
  run_loop-IsLive order [] k m l live known e = record {
    wf = live.wf;
    runs = live.runs;
    counted = live.counted;
    many = omega (arith, live.many);
    reference_in = live.reference_in;
  }
  run_loop-IsLive order {w} {infos} {n} (i ∷ is) k m l live known e =
      Ensures-bind {A = State × Bool} _
        (λ r. IsLive w infos n (k + tick_of i) r.0 × (r.1 ≡ goes_on i)) _ _
        (on_input-IsLive order i k l live known.0)
        λ r after. elim (Bool-cases (goes_on i)) [
          | inl on ↦
              rw (after.1, on)
                (run_loop-IsLive order is (k + tick_of i) m r.0 after.0 known.1
                  (e ∙ rw on (omega arith)))
          | inr off ↦
              rw (after.1, off)
                (subst (λ c. IsLive w infos n c r.0) (sym (e ∙ rw off (omega arith))) after.0)
        ]

  pub start-IsLive :
      (args : Args) (s : Setup) (warmup seconds interval : ℕ) (now : Instant)
      → IsReady args s
      → now + seconds * 10 ^ 9 ≤ latest
      → now + interval ≤ latest
      → Ensures
          (IsLive warmup s.infos (length s.infos) 0)
          (start_loop show_ms floats ms pct range_label marks s warmup seconds interval now)
  unfolding start_loop
  start-IsLive args s warmup seconds interval now ready fits ticks_fit =
      rw (later-some now (seconds * 10 ^ 9) fits, later-some now interval ticks_fit)
        (record {
          wf =
              new-IsWf s.infos (unwrap_or s.eira_index 0) s.min_sources warmup now
                ready.some_source;
          runs = unfold new in (refl, refl, tt);
          counted = tt;
          many = refl;
          reference_in = unfold new in ready.reference_in;
        })

  -- What the report has: a summary for the whole run and one for each tick, counted, no more
  -- matched transactions than distinct ones, and a comparison for each source but the reference.
  abbrev pub Adds : ℕ → ℕ → Summaries show_ms floats ms pct range_label marks → Type 0
  Adds n k s =
      Counted n s.block
      × All (Counted n) s.block_intervals
      × (length s.block_intervals ≡ k)
      × (s.tx.matched ≤ s.tx.total)
      × (suc (length s.pairs) ≡ n)
      × All (PairAdds floats pct marks) s.pairs

  pub summarise-Adds :
      (order : IsOrder floats) {w : ℕ} {infos : List SourceInfo} {n k : ℕ}
      (l : Loop show_ms floats ms pct range_label marks) (interval : ℕ) (end : Instant)
      → IsLive w infos n k l
      → Ensures (Adds n k) (summarise show_ms floats ms pct range_label marks l interval end)
  unfolding summarise
  summarise-Adds order {w} {infos} {n} {k} l interval end live =
      Ensures-bind {A = BlockSummary floats ms pct} _ (Counted n) _ _
        (summary-Counted order l.collector (codes "whole run") none end live.wf
          (IsLive-Timely live))
        λ block counted.
          Ensures-bind {A = TxSummary floats ms pct} _ (λ t. t.matched ≤ t.total) _ _
            (Ensures-weaken {A = TxSummary floats ms pct} _ _ (tx_summary floats ms pct l.collector)
              (λ t h. h.0)
              (tx_summary-matched floats ms pct order l.collector live.wf (IsLive-Timely live)))
            λ txs matched.
              Ensures-bind {A = List (PairSummary floats marks pct)} _
                (Compared floats pct marks l.collector.reference 0 (length l.collector.sources)) _ _
                (pairs_from-Compared show_ms floats ms pct range_label marks order l.collector
                  interval 0 (length l.collector.sources) live.wf (IsLive-Timely live)
                  live.reference_in (omega (arith, live.wf.sizes.sources)))
                λ pairs compared. (
                  counted,
                  live.counted,
                  live.many,
                  matched,
                  ground (arith, compared.0, live.reference_in, live.wf.sizes.sources),
                  compared.1,
                )
