-- ===== src/Stats/TxSummary/Matched.antt =====
-- The counters of `tx_summary` of src/stats.rs.
use robinhood_feed_bench.Common.{
  ℕ, zero, suc, ◌+◌, ◌≤◌, ◌≡◌, refl, ap, sym, ◌∙◌, Bool, not, List, [], ◌∷◌, map, Option, length,
  length-map, replicate, length-replicate, Ensures, Ensures-some, All, ltb, is_some, Bool-cases,
  inl, inr, arith,
}
use robinhood_feed_bench.Common.Maps.{values, AllValues}
use robinhood_feed_bench.Event.{Instant, Hash}
use robinhood_feed_bench.Stats.{Collector, TxRec, SourceInfo}
use robinhood_feed_bench.Stats.Windows.{in_window}
use robinhood_feed_bench.Stats.Windows.Timely.{Timely, try_in_window-some}
use robinhood_feed_bench.Stats.Record.Arrivals.{TxWf}
use robinhood_feed_bench.Stats.Wf.{IsWf}
use robinhood_feed_bench.Stats.Percentile.{Floats, sorted}
use robinhood_feed_bench.Stats.Percentile.Ordered.{IsOrder, nearest_rank-total}
use robinhood_feed_bench.Stats.Summary.{push_delays}
use robinhood_feed_bench.Stats.Summary.Wins.{push_delays-length}
use robinhood_feed_bench.Stats.TxSummary.{
  bump, is_at, ahead_flags, match_tx, tally_txs, tx_source_stats, tx_summary, TxTally,
  TxSourceStats, no_txs,
}

abbrev pub Upto : ℕ → List ℕ → Type 0
Upto m = All (λ k. k ≤ m)

Upto-more : (m n : ℕ) (ks : List ℕ) → m ≤ n → Upto m ks → Upto n ks
Upto-more m n [] h all = tt
Upto-more m n (k ∷ ks) h all = (omega (arith, all.0), Upto-more m n ks h all.1)

Upto-replicate : (n : ℕ) → Upto 0 (replicate n 0)
Upto-replicate zero = tt
Upto-replicate (suc n) = (omega arith, Upto-replicate n)

-- Counters that were `m` at most, of as many sources.
abbrev Bumped : ℕ → ℕ → List ℕ → Type 0
Bumped n m ks = (length ks ≡ n) × Upto m ks

bump-Bumped :
    (n m : ℕ) (flags : List Bool) (counts : List ℕ)
    → length flags ≤ n
    → Bumped n m counts
    → Ensures (Bumped n (m + 1)) (bump flags counts)
unfolding bump
bump-Bumped n m [] counts h b = (b.0, Upto-more m (m + 1) counts (omega arith) b.1)
bump-Bumped n m (flag ∷ flags) [] h b = absurd (omega (arith, b.0))
bump-Bumped zero m (flag ∷ flags) (k ∷ counts) h b = absurd (omega arith)
bump-Bumped (suc n) m (flag ∷ flags) (k ∷ counts) h b =
    let (rest, e, bumped) =
      Ensures-some (Bumped n (m + 1)) (bump flags counts)
        (bump-Bumped n m flags counts (omega arith) (omega (arith, b.0), b.1.1)) in
    rw (bump, e) (omega (arith, bumped.0), (ground (arith, b.1.0), bumped.1))

length-ahead_flags :
    (arrivals : List (Option Instant)) (i : ℕ) (rest : List (Option Instant))
    → length (ahead_flags arrivals i rest) ≡ length rest
unfolding ahead_flags
length-ahead_flags arrivals i [] = refl
length-ahead_flags arrivals i (a ∷ rest) = ap suc (length-ahead_flags arrivals (i + 1) rest)

module _ (floats : Floats) (ms : ℕ → floats.F) (pct : ℕ → ℕ → floats.F) where
  open floats use {F}

  -- One counter for each source, none above the transactions that it counts among.
  record Counts (n : ℕ) (tally : TxTally floats ms pct) : Type 0 where
    seen : Bumped n tally.total tally.seen
    first : Bumped n tally.matched tally.first
    first_1ms : Bumped n tally.matched tally.first_1ms
    lags : length tally.lags ≡ n
    matched : tally.matched ≤ tally.total
    swaps : tally.swaps ≤ tally.matched

  -- The same with a transaction counted that is not matched yet.
  record Counted (n : ℕ) (tally : TxTally floats ms pct) : Type 0 where
    counts : Counts n tally
    waiting : tally.matched + 1 ≤ tally.total

  match_tx-Counts :
      (n : ℕ) (r : TxRec) (tally : TxTally floats ms pct)
      → TxWf n r
      → Counted n tally
      → Ensures (Counts n) (match_tx floats ms pct r tally)
  unfolding match_tx
  match_tx-Counts n r tally wf counted =
      let c = counted.counts in
      let (lags, e, same) =
        Ensures-some _ (push_delays floats ms pct r.first r.arrivals tally.lags) (
          push_delays-length floats ms pct r.first r.arrivals tally.lags
            (omega (arith, wf.size, c.lags))) in
      let (first, f, bumped) = Ensures-some _ (bump (map (is_at r.first) r.arrivals) tally.first) (
        bump-Bumped n tally.matched (map (is_at r.first) r.arrivals) tally.first
          (omega (arith, wf.size, length-map (is_at r.first) r.arrivals)) c.first) in
      let (first_1ms, g, bumped_1ms) =
        Ensures-some _ (bump (ahead_flags r.arrivals 0 r.arrivals) tally.first_1ms) (
          bump-Bumped n tally.matched (ahead_flags r.arrivals 0 r.arrivals) tally.first_1ms
            (omega (arith, wf.size, length-ahead_flags r.arrivals 0 r.arrivals)) c.first_1ms) in
      rw (e, f, g)
        (record {
          seen = c.seen;
          first = bumped;
          first_1ms = bumped_1ms;
          lags = same ∙ c.lags;
          matched = counted.waiting;
          swaps = ground (arith, c.swaps);
        })

  tally_txs-Counts :
      (c : Collector) (n : ℕ) (txs : List (Hash × TxRec)) (tally : TxTally floats ms pct)
      → AllValues (TxWf n) txs
      → Timely c.warmup c.all_up
      → Counts n tally
      → Ensures (Counts n) (tally_txs floats ms pct c (values txs) tally)
  unfolding tally_txs
  tally_txs-Counts c n [] tally wf timely counts = counts
  tally_txs-Counts c n ((k, r) ∷ txs) tally wf timely counts =
      let asked = try_in_window-some c r.first timely in
      elim (Bool-cases (not (in_window c r.first))) [
        | inl out ↦ rw (tally_txs, asked, out) (tally_txs-Counts c n txs tally wf.1 timely counts)
        | inr inside ↦
            let (seen, e, bumped) = Ensures-some _ (bump (map is_some r.arrivals) tally.seen) (
              bump-Bumped n tally.total (map is_some r.arrivals) tally.seen
                (omega (arith, wf.0.size, length-map (is_some {A = Instant}) r.arrivals))
                counts.seen) in
            let now : TxTally floats ms pct = record tally {
              total = tally.total + 1;
              seen = seen;
            } in
            let more : Counts n now = record {
              seen = bumped;
              first = counts.first;
              first_1ms = counts.first_1ms;
              lags = counts.lags;
              matched = omega (arith, counts.matched);
              swaps = counts.swaps;
            } in
            elim (Bool-cases (ltb r.seen c.min_sources)) [
              | inl few ↦
                  rw (tally_txs, asked, inside, e, few)
                    (tally_txs-Counts c n txs now wf.1 timely more)
              | inr enough ↦
                  let (matched, f, done) = Ensures-some _ (match_tx floats ms pct r now) (
                    match_tx-Counts n r now wf.0
                      (record { counts = more; waiting = omega (arith, counts.matched) })) in
                  rw (tally_txs, asked, inside, e, enough, f)
                    (tally_txs-Counts c n txs matched wf.1 timely done)
            ]
      ]

  abbrev pub seen_of : List (TxSourceStats floats ms pct) → List ℕ
  seen_of [] = []
  seen_of (s ∷ ss) = s.seen ∷ seen_of ss

  tx_source_stats-seen :
      (order : IsOrder floats) (total matched : ℕ) (srcs : List SourceInfo)
      (seen first first_1ms : List ℕ) (lags : List (List F))
      → length seen ≡ length srcs
      → length first ≡ length srcs
      → length first_1ms ≡ length srcs
      → length lags ≡ length srcs
      → Ensures
          (λ per_source. seen_of per_source ≡ seen)
          (tx_source_stats floats ms pct total matched srcs seen first first_1ms lags)
  unfolding tx_source_stats
  tx_source_stats-seen order total matched [] [] first first_1ms lags hs hf hg hl = refl
  tx_source_stats-seen order total matched [] (k ∷ seen) first first_1ms lags hs hf hg hl =
      absurd (omega arith)
  tx_source_stats-seen order total matched (src ∷ srcs) [] first first_1ms lags hs hf hg hl =
      absurd (omega arith)
  tx_source_stats-seen order total matched (src ∷ srcs) (k ∷ seen) [] first_1ms lags hs hf hg hl =
      absurd (omega arith)
  tx_source_stats-seen order total matched (src ∷ srcs) (k ∷ seen) (f ∷ first) [] lags hs hf hg hl =
      absurd (omega arith)
  tx_source_stats-seen order total matched (src ∷ srcs) (k ∷ seen) (f ∷ first) (g ∷ first_1ms) [] hs
        hf hg hl =
      absurd (omega arith)
  tx_source_stats-seen order total matched (src ∷ srcs) (k ∷ seen) (f ∷ first) (g ∷ first_1ms)
        (l ∷ lags) hs hf hg hl =
      let s = sorted floats l in
      let (a, ea) = nearest_rank-total floats order s 500 in
      let (b, eb) = nearest_rank-total floats order s 900 in
      let (c, ec) = nearest_rank-total floats order s 950 in
      let (d, ed) = nearest_rank-total floats order s 990 in
      let (rest, e, same) =
        Ensures-some (λ rest. seen_of rest ≡ seen)
          (tx_source_stats floats ms pct total matched srcs seen first first_1ms lags)
          (tx_source_stats-seen order total matched srcs seen first first_1ms lags (omega arith)
            (omega arith) (omega arith) (omega arith)) in
      rw (tx_source_stats, ea, eb, ec, ed, e) (ap (λ t. k ∷ t) same)

  -- `tx_summary` of a well-formed collector does not panic: no more transactions are matched than
  -- counted, no more of them are swaps than matched, and no source has seen more than were
  -- counted, for a total order on the samples.
  pub tx_summary-matched :
      (order : IsOrder floats) {n : ℕ} (c : Collector)
      → IsWf n c
      → Timely c.warmup c.all_up
      → Ensures
          (λ s.
            (s.matched ≤ s.total)
            × (s.synthetic_swaps ≤ s.matched)
            × (length (seen_of s.per_source) ≡ n)
            × Upto s.total (seen_of s.per_source))
          (tx_summary floats ms pct c)
  unfolding tx_summary
  tx_summary-matched order {n} c wf timely =
      let size = wf.sizes.sources in
      let empty = no_txs floats ms pct (length c.sources) in
      let zeros : length (replicate (length c.sources) 0) ≡ n =
        length-replicate (length c.sources) 0 ∙ size in
      let none_yet = Upto-replicate (length c.sources) in
      let (tally, e, counts) =
        Ensures-some (Counts n) (tally_txs floats ms pct c (values c.txs) empty) (
          tally_txs-Counts c n c.txs empty wf.txs_wf timely (record {
            seen = (zeros, none_yet);
            first = (zeros, none_yet);
            first_1ms = (zeros, none_yet);
            lags = length-replicate (length c.sources) [] ∙ size;
            matched = omega arith;
            swaps = omega arith;
          })) in
      let (per_source, f, same) =
        Ensures-some (λ per_source. seen_of per_source ≡ tally.seen) _
          (tx_source_stats-seen order tally.total tally.matched c.sources tally.seen tally.first
            tally.first_1ms tally.lags (counts.seen.0 ∙ sym size) (counts.first.0 ∙ sym size)
            (counts.first_1ms.0 ∙ sym size) (counts.lags ∙ sym size)) in
      rw (tx_summary, e, f)
        (counts.matched, counts.swaps, rw same counts.seen.0, rw same counts.seen.1)
