-- ===== src/Stats/TxSummary/Rows.antt =====
-- The rows of `tx_summary` of src/stats.rs against the transactions that they count.
use robinhood_feed_bench.Common.{
  ℕ, zero, suc, ◌<◌, get_elem?-replicate, ◌≡◌, refl, ap, subst, ◌∙◌, ◌&&◌, List, [], ◌∷◌, some,
  length, get_elem?, Ensures, Ensures-some, >>=-eq-some, arith,
}
use robinhood_feed_bench.Common.Maps.{values}
use robinhood_feed_bench.Stats.{Collector, SourceInfo}
use robinhood_feed_bench.Stats.Windows.Timely.{Timely}
use robinhood_feed_bench.Stats.Percentile.{Floats, sorted, nearest_rank, last_or_zero}
use robinhood_feed_bench.Stats.Percentile.Ordered.{IsOrder}
use robinhood_feed_bench.Stats.Wf.{IsWf}
use robinhood_feed_bench.Stats.TxSummary.Matched.{tx_summary-matched}
use robinhood_feed_bench.Stats.TxSummary.{
  tally_txs, tx_source_stats, tx_summary, TxSourceStats, no_txs,
}
use robinhood_feed_bench.Stats.TxSummary.Counts.{
  tally_of, arrival, came, came_at, inside, enough, At-same, tally_txs-Adds,
}

module _ (floats : Floats) (ms : ℕ → floats.F) (pct : ℕ → ℕ → floats.F) where
  -- What the row of source `i` says, when it delivered `k` of `n` transactions, `f` of them first.
  abbrev pub IsCounted : (i n m k f : ℕ) → List (TxSourceStats floats ms pct) → Type 0
  IsCounted i n m k f per_source =
      (row : TxSourceStats floats ms pct) × (get_elem? per_source i ≡ some row)
      × (row.seen ≡ k)
      × (row.coverage_pct ≡ pct k n)
      × (row.first_pct ≡ pct f m)

  tx_source_stats-cons :
      (n m : ℕ) (src : SourceInfo) (srcs : List SourceInfo) (x y z : ℕ)
      (seen first first_1ms : List ℕ) (l : List floats.F) (lags : List (List floats.F))
      {per_source : List (TxSourceStats floats ms pct)}
      → tx_source_stats floats ms pct n m
          (src ∷ srcs)
          (x ∷ seen)
          (y ∷ first)
          (z ∷ first_1ms)
          (l ∷ lags)
        ≡ some per_source
      → (rest : List (TxSourceStats floats ms pct)) × IsCounted 0 n m x y per_source
        × (tx_source_stats floats ms pct n m srcs seen first first_1ms lags ≡ some rest)
        × ((i : ℕ) → get_elem? per_source (suc i) ≡ get_elem? rest i)
  unfolding tx_source_stats
  tx_source_stats-cons n m src srcs x y z seen first first_1ms l lags {per_source} h =
      let s = sorted floats l in
      let (p50, _, h1) = >>=-eq-some (nearest_rank floats s 500) _ h in
      let (p90, _, h2) = >>=-eq-some (nearest_rank floats s 900) _ h1 in
      let (p95, _, h3) = >>=-eq-some (nearest_rank floats s 950) _ h2 in
      let (p99, _, h4) = >>=-eq-some (nearest_rank floats s 990) _ h3 in
      let (rest, g, h5) =
        >>=-eq-some (tx_source_stats floats ms pct n m srcs seen first first_1ms lags) _ h4 in
      let row : TxSourceStats floats ms pct = record {
        name = src.name;
        seen = x;
        coverage_pct = pct x n;
        first_pct = pct y m;
        first_by_1ms_pct = pct z m;
        lag_p50 = p50;
        lag_p90 = p90;
        lag_p95 = p95;
        lag_p99 = p99;
        lag_max = last_or_zero floats s;
      } in
      let same : per_source ≡ row ∷ rest = cc in
      (
        rest,
        (row, ap (λ l. get_elem? l 0) same, refl, refl, refl),
        g,
        λ i. ap (λ l. get_elem? l (suc i)) same,
      )

  tx_source_stats-IsCounted :
      (n m : ℕ) (srcs : List SourceInfo) (seen first first_1ms : List ℕ)
      (lags : List (List floats.F)) (i : ℕ) {k f : ℕ}
      {per_source : List (TxSourceStats floats ms pct)}
      → tx_source_stats floats ms pct n m srcs seen first first_1ms lags ≡ some per_source
      → i < length srcs
      → get_elem? seen i ≡ some k
      → get_elem? first i ≡ some f
      → IsCounted i n m k f per_source
  unfolding tx_source_stats
  tx_source_stats-IsCounted n m [] seen first first_1ms lags i h few e e' = absurd (omega arith)
  tx_source_stats-IsCounted n m (src ∷ srcs) [] first first_1ms lags i h few e e' = absurd cc
  tx_source_stats-IsCounted n m (src ∷ srcs) (x ∷ seen) [] first_1ms lags i h few e e' = absurd cc
  tx_source_stats-IsCounted n m (src ∷ srcs) (x ∷ seen) (y ∷ first) [] lags i h few e e' = absurd cc
  tx_source_stats-IsCounted n m (src ∷ srcs) (x ∷ seen) (y ∷ first) (z ∷ first_1ms) [] i h few e
        e' =
      absurd cc
  tx_source_stats-IsCounted n m (src ∷ srcs) (x ∷ seen) (y ∷ first) (z ∷ first_1ms) (l ∷ lags) zero
        {k} {f} {per_source} h few e e' =
      let (rest, now, _, _) =
        tx_source_stats-cons n m src srcs x y z seen first first_1ms l lags h in
      let ek : x ≡ k = cc in
      let ef : y ≡ f = cc in
      subst (λ k. IsCounted 0 n m k f per_source) ek
        (subst (λ f. IsCounted 0 n m x f per_source) ef now)
  tx_source_stats-IsCounted n m (src ∷ srcs) (x ∷ seen) (y ∷ first) (z ∷ first_1ms) (l ∷ lags)
        (suc i) h few e e' =
      let (rest, _, g, same) =
        tx_source_stats-cons n m src srcs x y z seen first first_1ms l lags h in
      let (row, at_i, seen_k, coverage, wins) =
        tx_source_stats-IsCounted n m srcs seen first first_1ms lags i g (omega arith) e e' in
      (row, same i ∙ at_i, seen_k, coverage, wins)

  -- `tx_summary` of a well-formed collector with no overflowing window counts in its total the
  -- transactions first seen in a window, matches those of them that at least `min_sources` sources
  -- delivered, and counts the synthetic swaps of these. The row of each source counts those in a
  -- window that the source delivered, with their share of the total, and holds the share of the
  -- matched that arrived from it at the first instant, for a total order on the samples.
  pub tx_summary-counts :
      (order : IsOrder floats) {n : ℕ} (c : Collector)
      → IsWf n c
      → Timely c.warmup c.all_up
      → (i : ℕ) → i < n
      → Ensures
          (λ s.
            (s.total ≡ tally_of (inside c) (values c.txs))
            × (s.matched ≡ tally_of (enough c) (values c.txs))
            × (s.synthetic_swaps ≡ tally_of (λ r. enough c r && r.synthetic_swap) (values c.txs))
            × IsCounted i
                (tally_of (inside c) (values c.txs))
                (tally_of (enough c) (values c.txs))
                (tally_of (λ r. inside c r && arrival came i r.arrivals) (values c.txs))
                (tally_of
                  (λ r. enough c r && arrival (came_at r.first) i r.arrivals)
                  (values c.txs))
                s.per_source)
          (tx_summary floats ms pct c)
  unfolding tx_summary
  tx_summary-counts order {n} c wf timely i h =
      let (s, e, _) =
        Ensures-some _ (tx_summary floats ms pct c)
          (tx_summary-matched floats ms pct order c wf timely) in
      let empty = no_txs floats ms pct (length c.sources) in
      let inside_it : i < length c.sources = omega (arith, wf.sizes.sources) in
      let zeros = get_elem?-replicate (length c.sources) i 0 inside_it in
      let (tally, f, h1) = >>=-eq-some (tally_txs floats ms pct c (values c.txs) empty) _ e in
      let at =
        At-same floats ms pct (omega arith) (omega arith) (omega arith) (omega arith) (omega arith)
          (tally_txs-Adds floats ms pct c (values c.txs) i 0 0 0 0 0 empty timely f (record {
            total_at = refl;
            matched_at = refl;
            swaps_at = refl;
            seen_at = zeros;
            first_at = zeros;
          })) in
      let (per_source, g, h2) =
        >>=-eq-some
          (tx_source_stats floats ms pct tally.total tally.matched c.sources tally.seen tally.first
            tally.first_1ms tally.lags)
          _ h1 in
      let (row, at_i, seen_k, coverage, wins) =
        tx_source_stats-IsCounted tally.total tally.matched c.sources tally.seen tally.first
          tally.first_1ms tally.lags i g inside_it at.seen_at at.first_at in
      rw (tx_summary, f, g)
        (
          at.total_at,
          at.matched_at,
          at.swaps_at,
          (row, at_i, seen_k, coverage ∙ ap (pct _) at.total_at, wins ∙ ap (pct _) at.matched_at),
        )
