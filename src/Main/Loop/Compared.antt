-- ===== src/Main/Loop/Compared.antt =====
-- The comparisons of a run of src/main.rs, one for each source but the reference.
use robinhood_feed_bench.Common.{
  ◌<◌, zero, suc, ◌&&◌, ltb, leb, ◌==◌, ℕ, ◌+◌, ◌≤◌, ◌≡◌, List, All, length, Ensures, Ensures-bind,
  Ensures-weaken, if◌then◌else◌, arith, Bool-cases, inl, inr,
}
use robinhood_feed_bench.Common.Texts.{Text}
use robinhood_feed_bench.Event.{Instant}
use robinhood_feed_bench.Stats.{Collector}
use robinhood_feed_bench.Stats.Wf.{IsWf}
use robinhood_feed_bench.Stats.Windows.Timely.{Timely}
use robinhood_feed_bench.Stats.Percentile.{Floats}
use robinhood_feed_bench.Stats.Percentile.Ordered.{IsOrder}
use robinhood_feed_bench.Stats.Pairs.{Marks, PairSummary}
use robinhood_feed_bench.Stats.Pairs.Sums.{sum_n, sum_txs, pair_summary-adds}
use robinhood_feed_bench.Main.Loop.{pairs_from}

module _ (floats : Floats) (pct : ℕ → ℕ → floats.F) (marks : Marks floats) where
  -- A comparison whose intervals add up to it, and whose four buckets to no more.
  abbrev pub PairAdds : PairSummary floats marks pct → Type 0
  PairAdds p =
      (sum_n floats marks pct p.intervals ≡ p.n)
      × (length p.bucket_list ≡ 4)
      × (sum_txs floats marks pct p.bucket_list ≤ p.n)

  -- Whether the reference is one of the `left` sources from `i` on.
  abbrev pub met : ℕ → ℕ → ℕ → ℕ
  met r i left = if leb i r && ltb r (i + left) then 1 else 0

  abbrev pub Compared : ℕ → ℕ → ℕ → List (PairSummary floats marks pct) → Type 0
  Compared r i left ps = (length ps + met r i left ≡ left) × All PairAdds ps

module _ (show_ms : ℕ → Text) (floats : Floats) (ms : ℕ → floats.F) (pct : ℕ → ℕ → floats.F)
    (range_label : Instant → Instant → Instant → Text) (marks : Marks floats) where
  -- The comparisons of the sources from `i` on: one for each but the reference, with intervals
  -- that add up.
  pub pairs_from-Compared :
      (order : IsOrder floats) {n : ℕ} (c : Collector) (interval i left : ℕ)
      → IsWf n c
      → Timely c.warmup c.all_up
      → c.reference < n
      → i + left ≤ n
      → Ensures
          (Compared floats pct marks c.reference i left)
          (pairs_from show_ms floats ms pct range_label marks c interval i left)
  unfolding pairs_from
  pairs_from-Compared order c interval i zero wf timely lt h = (ground arith, tt)
  pairs_from-Compared order c interval i (suc left) wf timely lt h =
      let rest = pairs_from-Compared order c interval (i + 1) left wf timely lt (omega arith) in
      elim (Bool-cases (i == c.reference)) [
        | inl same ↦ rw same (
            Ensures-weaken {A = List (PairSummary floats marks pct)}
              (Compared floats pct marks c.reference (i + 1) left)
              (Compared floats pct marks c.reference i (suc left))
              (pairs_from show_ms floats ms pct range_label marks c interval (i + 1) left)
              (λ ps k. (ground (arith, k.0), k.1)) rest)
        | inr other ↦ rw other (
            Ensures-bind {A = PairSummary floats marks pct} _ (PairAdds floats pct marks) _ _
              (pair_summary-adds floats marks pct order c i interval wf timely lt (omega arith))
              λ p adds.
                Ensures-bind {A = List (PairSummary floats marks pct)} _
                  (Compared floats pct marks c.reference (i + 1) left) _ _ rest
                  λ ps k. (ground (arith, k.0), (adds, k.1)))
      ]
