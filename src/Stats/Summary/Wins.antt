-- ===== src/Stats/Summary/Wins.antt =====
-- The counters of `block_summary` of src/stats.rs.
use robinhood_feed_bench.Common.{
  ℕ, zero, suc, ◌+◌, ◌≤◌, ◌≡◌, refl, ap, ◌∙◌, List, [], ◌∷◌, Option, none, some, length, replicate,
  length-replicate, get_elem?, get_elem?-lt, set, length-set, Ensures, Ensures-update, Ensures-bind,
  Ensures-some, Bool, not, ◌||◌, ltb, Bool-cases, Option-cases, inl, inr, arith,
}
use robinhood_feed_bench.Common.Texts.{Text}
use robinhood_feed_bench.Common.Maps.{values, AllValues, count_values}
use robinhood_feed_bench.Event.{Instant}
use robinhood_feed_bench.Stats.{Collector, BlockRec, SourceInfo}
use robinhood_feed_bench.Stats.Windows.{in_window}
use robinhood_feed_bench.Stats.Windows.Timely.{Timely, try_in_window-some}
use robinhood_feed_bench.Stats.Record.Arrivals.{BlockWf}
use robinhood_feed_bench.Stats.Wf.{IsWf, is_complete, completed}
use robinhood_feed_bench.Stats.Percentile.{Floats, percentiles}
use robinhood_feed_bench.Stats.Percentile.Ordered.{IsOrder, percentiles-ordered}
use robinhood_feed_bench.Stats.Summary.{
  BlockSourceStats, Tally, too_early, skipped, push_delays, add_block, tally_blocks, source_stats,
  block_summary,
}

abbrev pub sum : List ℕ → ℕ
sum [] = 0
sum (x ∷ xs) = x + sum xs

sum-set : (xs : List ℕ) (i a : ℕ) → get_elem? xs i ≡ some a → sum (set xs i (a + 1)) ≡ sum xs + 1
sum-set [] i a h = cc
sum-set (x ∷ xs) zero a h = ground arith
sum-set (x ∷ xs) (suc i) a h = omega (arith, sum-set xs i a h)

sum-zeros : (n : ℕ) → sum (replicate n 0) ≡ 0
sum-zeros zero = refl
sum-zeros (suc n) = omega (arith, sum-zeros n)

module _ (floats : Floats) (ms : ℕ → floats.F) (pct : ℕ → ℕ → floats.F) where
  open floats use {F}

  pub push_delays-length :
      (first : Instant) (arrivals : List (Option Instant)) (samples : List (List F))
      → length arrivals ≤ length samples
      → Ensures
          (λ rest. length rest ≡ length samples)
          (push_delays floats ms pct first arrivals samples)
  unfolding push_delays
  push_delays-length first [] samples h = refl
  push_delays-length first (a ∷ arrivals) [] h = absurd (omega arith)
  push_delays-length first (none ∷ arrivals) (s ∷ ss) h =
      Ensures-bind {A = List (List F)} _ (λ rest. length rest ≡ length ss) _ _
        (push_delays-length first arrivals ss (omega arith)) λ rest e. omega arith
  push_delays-length first (some a ∷ arrivals) (s ∷ ss) h =
      Ensures-bind {A = List (List F)} _ (λ rest. length rest ≡ length ss) _ _
        (push_delays-length first arrivals ss (omega arith)) λ rest e. omega arith

  -- One count for each source, the wins add up to the completed blocks, of which there are at most
  -- `seen`.
  abbrev Counts : ℕ → ℕ → Tally floats ms pct → Type 0
  Counts n seen tally =
      (length tally.wins ≡ n)
      × (length tally.samples ≡ n)
      × (sum tally.wins ≡ tally.completed)
      × (tally.completed ≤ seen)

  add_block-Counts :
      (n m seen : ℕ) (r : BlockRec) (tally : Tally floats ms pct)
      → BlockWf n m r
      → Counts n seen tally
      → Ensures (Counts n (seen + 1)) (add_block floats ms pct r tally)
  unfolding add_block
  add_block-Counts n m seen r tally wf counts =
      let there = get_elem?-lt r.arrivals r.first_src wf.winner in
      Ensures-update _ _ tally.wins r.first_src (omega (arith, wf.size, counts.0)) _ λ a won.
        Ensures-bind {A = List (List F)} _ (λ rest. length rest ≡ length tally.samples) _ _
          (push_delays-length r.first r.arrivals tally.samples (omega (arith, wf.size, counts.1)))
          λ rest e. (
            length-set tally.wins r.first_src (a + 1) ∙ counts.0,
            e ∙ counts.1,
            omega (arith, sum-set tally.wins r.first_src a won, counts.2),
            omega (arith, counts.3),
          )

  Counts-more :
      (n seen more : ℕ) (tally : Tally floats ms pct)
      → seen ≤ more
      → Counts n seen tally
      → Counts n more tally
  Counts-more n seen more tally h counts = (counts.0, counts.1, counts.2, omega (arith, counts.3))

  -- Whether a block is left out, when no sum overflows.
  abbrev pub is_out : Collector → Option Instant → Instant → Instant → Instant → Bool
  is_out c since until first done =
      (ltb until done || too_early floats ms pct since done) || not (in_window c first)

  pub skipped-is_out :
      (c : Collector) (since : Option Instant) (until first done : Instant)
      → Timely c.warmup c.all_up
      → skipped floats ms pct c since until first done ≡ some (is_out c since until first done)
  unfolding skipped
  skipped-is_out c since until first done timely =
      elim (Bool-cases (ltb until done || too_early floats ms pct since done)) [
        | inl out ↦ rw out refl
        | inr fits ↦ rw (fits, try_in_window-some c first timely) refl
      ]

  tally_blocks-Counts :
      (c : Collector) (since : Option Instant) (until : Instant) (n m : ℕ)
      (blocks : List (Text × BlockRec)) (seen total : ℕ) (tally : Tally floats ms pct)
      → AllValues (BlockWf n m) blocks
      → Timely c.warmup c.all_up
      → Counts n seen tally
      → seen + count_values is_complete blocks ≤ total
      → Ensures (Counts n total) (tally_blocks floats ms pct c since until (values blocks) tally)
  unfolding tally_blocks
  tally_blocks-Counts c since until n m [] seen total tally wf timely counts h =
      Counts-more n seen total tally (omega arith) counts
  tally_blocks-Counts c since until n m ((k, r) ∷ blocks) seen total tally wf timely counts h =
      elim (Option-cases r.completed_at) [
        | inl waits ↦
            rw (tally_blocks, waits)
              (tally_blocks-Counts c since until n m blocks seen total tally wf.1 timely counts
                (omega arith))
        | inr (done, complete) ↦
            let room : seen + 1 + count_values is_complete blocks ≤ total =
              let rest : seen + (1 + count_values is_complete blocks) ≤ total = rw complete at h in
              omega arith in
            let asked = skipped-is_out c since until r.first done timely in
            elim (Bool-cases (is_out c since until r.first done)) [
              | inl out ↦
                  rw (tally_blocks, complete, asked, out)
                    (tally_blocks-Counts c since until n m blocks seen total tally wf.1 timely
                      counts (omega arith))
              | inr in_time ↦
                  rw (tally_blocks, complete, asked, in_time)
                    (Ensures-bind {A = Tally floats ms pct} _ (Counts n (seen + 1)) _ _
                      (add_block-Counts n m seen r tally wf.0 counts)
                      λ added more.
                        tally_blocks-Counts c since until n m blocks (seen + 1) total added wf.1
                          timely more room)
            ]
      ]

  abbrev pub wins_of : List (BlockSourceStats floats ms pct) → List ℕ
  wins_of [] = []
  wins_of (s ∷ ss) = s.wins ∷ wins_of ss

  source_stats-wins :
      (order : IsOrder floats) (completed : ℕ) (sources : List SourceInfo) (wins : List ℕ)
      (samples : List (List F))
      → length wins ≡ length sources
      → length samples ≡ length sources
      → Ensures
          (λ per_source. wins_of per_source ≡ wins)
          (source_stats floats ms pct completed sources wins samples)
  unfolding source_stats
  source_stats-wins order completed [] [] samples hw hs = refl
  source_stats-wins order completed [] (w ∷ ws) samples hw hs = absurd (omega arith)
  source_stats-wins order completed (source ∷ sources) [] samples hw hs = absurd (omega arith)
  source_stats-wins order completed (source ∷ sources) (w ∷ ws) [] hw hs = absurd (omega arith)
  source_stats-wins order completed (source ∷ sources) (w ∷ ws) (s ∷ ss) hw hs =
      let (delay, e, _) =
        Ensures-some _ (percentiles floats s) (percentiles-ordered floats order s) in
      let (rest, f, same) =
        Ensures-some (λ rest. wins_of rest ≡ ws)
          (source_stats floats ms pct completed sources ws ss)
          (source_stats-wins order completed sources ws ss (omega arith) (omega arith)) in
      rw (source_stats, e, f) (ap (λ t. w ∷ t) same)

  -- `block_summary` of a well-formed collector whose windows are timely does not panic: the wins of the sources add up to
  -- the blocks that it counts, and it counts completed blocks only, for a total order on samples.
  pub block_summary-wins :
      (order : IsOrder floats) {n : ℕ} (c : Collector) (label : Text) (since : Option Instant)
      (until : Instant)
      → IsWf n c
      → Timely c.warmup c.all_up
      → Ensures
          (λ s.
            (length (wins_of s.per_source) ≡ n)
            × (sum (wins_of s.per_source) ≡ s.completed)
            × (s.completed ≤ completed c))
          (block_summary floats ms pct c label since until)
  unfolding block_summary
  block_summary-wins order {n} c label since until wf timely =
      let size = wf.sizes.sources in
      Ensures-bind {A = Tally floats ms pct} _ (Counts n (completed c)) _ _
        (tally_blocks-Counts c since until n c.min_sources c.blocks 0 (completed c) _ wf.blocks_wf
          timely
          (
            length-replicate (length c.sources) 0 ∙ size,
            length-replicate (length c.sources) [] ∙ size,
            sum-zeros (length c.sources),
            omega arith,
          )
          (omega arith))
        λ tally counts.
          Ensures-bind {A = List (BlockSourceStats floats ms pct)} _
            (λ per_source. wins_of per_source ≡ tally.wins) _ _
            (source_stats-wins order tally.completed c.sources tally.wins tally.samples
              (omega (arith, counts.0, size)) (omega (arith, counts.1, size)))
            λ per_source e. rw e (counts.0, counts.2, counts.3)
