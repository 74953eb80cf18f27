-- ===== src/Stats/Pairs/Sums.antt =====
-- The totals of `pair_summary` of src/stats.rs.
use robinhood_feed_bench.Common.{
  ℕ, suc, ◌+◌, ◌-◌, ◌≤◌, ◌<◌, ◌≡◌, refl, ap, ◌∙◌, true, List, [], ◌∷◌, ◌++◌, Option, none, some,
  All, length, length-append, Ensures, Ensures-bind, Ensures-get, if◌then◌else◌, unwrap_or, arith,
  Bool-cases, Option-cases, inl, inr,
}
use robinhood_feed_bench.Common.Texts.{Text, text_eq}
use robinhood_feed_bench.Common.Maps.{lookup, insert, values, AllValues}
use robinhood_feed_bench.Event.{Instant}
use robinhood_feed_bench.Stats.{Collector, TxRec}
use robinhood_feed_bench.Stats.Wf.{IsWf}
use robinhood_feed_bench.Stats.Windows.Timely.{Timely, try_in_window-some}
use robinhood_feed_bench.Stats.Record.Arrivals.{TxWf}
use robinhood_feed_bench.Stats.Percentile.{Floats, sorted}
use robinhood_feed_bench.Stats.Percentile.Middle.{median-total}
use robinhood_feed_bench.Stats.Percentile.Ordered.{IsOrder, nearest_rank-total, length-sorted}
use robinhood_feed_bench.Stats.Pairs.{
  Marks, count_refs, buckets, is_in, position, Row, row_of, pair_rows, diffs_of, group,
  IntervalStats, interval_stats, insert_interval, sort_intervals, bucket_rows, bucket_sum,
  BucketStats, bucket_stats, pair_summary,
}

AllValues-values {ℓ} :
    {V : Type ℓ} (P : V → Type 0) (m : List (Text × V)) → AllValues P m → All P (values m)
AllValues-values P [] h = tt
AllValues-values P ((k, v) ∷ m) h = (h.0, AllValues-values P m h.1)

count_refs-total :
    (r n : ℕ) (recs : List TxRec) (counts : List (Text × ℕ))
    → r < n
    → All (TxWf n) recs
    → Ensures (λ _. Unit) (count_refs r recs counts)
unfolding count_refs
count_refs-total r n [] counts lt h = tt
count_refs-total r n (rec ∷ recs) counts lt h =
    Ensures-get _ _ rec.arrivals r (omega (arith, h.0.size))
      λ a e. count_refs-total r n recs _ lt h.1

is_in-once : (size : Option ℕ) (a b : ℕ) → is_in a size ≡ true → is_in b size ≡ true → a ≡ b
is_in-once none a b h k = cc
is_in-once (some s) a b h k = elim (Option-cases (position 0 s buckets)) [
  | inl nowhere ↦ absurd (ground arith)
  | inr (i, here) ↦ ground arith
]

module _ (floats : Floats) (marks : Marks floats) (pct : ℕ → ℕ → floats.F) where
  open floats use {F}

  row_of-total :
      (c : Collector) (counts : List (Text × ℕ)) (rec : TxRec) (tr to : Option Instant)
      → Timely c.warmup c.all_up
      → Ensures (λ _. Unit) (row_of floats marks pct c counts rec tr to)
  unfolding row_of
  row_of-total c counts rec none to timely = tt
  row_of-total c counts rec (some tr) none timely = tt
  row_of-total c counts rec (some tr) (some to) timely =
      rw (try_in_window-some c rec.first timely) tt

  pair_rows-total :
      (c : Collector) (other n : ℕ) (counts : List (Text × ℕ)) (recs : List TxRec)
      → c.reference < n
      → other < n
      → Timely c.warmup c.all_up
      → All (TxWf n) recs
      → Ensures (λ _. Unit) (pair_rows floats marks pct c other counts recs)
  unfolding pair_rows
  pair_rows-total c other n counts [] r o timely h = tt
  pair_rows-total c other n counts (rec ∷ recs) r o timely h =
      Ensures-get _ _ rec.arrivals c.reference (omega (arith, h.0.size)) λ tr e.
        Ensures-get _ _ rec.arrivals other (omega (arith, h.0.size)) λ to k.
          Ensures-bind {A = Option (Row floats marks pct)} _ (λ _. Unit) _ _
            (row_of-total c counts rec tr to timely)
            λ row _.
              Ensures-bind {A = List (Row floats marks pct)} _ (λ _. Unit) _ _
                (pair_rows-total c other n counts recs r o timely h.1) λ rows u. tt

  -- The samples of all the groups.
  abbrev total_of : List (Text × List F) → ℕ
  total_of [] = 0
  total_of ((k, v) ∷ gs) = length v + total_of gs

  insert-total :
      (k : Text) (v : List F) (gs : List (Text × List F))
      → total_of (insert k v gs) + length (unwrap_or (lookup k gs) []) ≡ total_of gs + length v
  unfolding insert lookup
  insert-total k v [] = omega arith
  insert-total k v ((j, w) ∷ gs) = elim (Bool-cases (text_eq j k)) [
    | inl same ↦ rw same (omega arith)
    | inr other ↦ rw other (omega (arith, insert-total k v gs))
  ]

  group-total :
      (start : Instant) (interval : ℕ) (rows : List (Row floats marks pct))
      (gs : List (Text × List F))
      → total_of (group floats marks pct start interval rows gs) ≡ total_of gs + length rows
  unfolding group
  group-total start interval [] gs = omega arith
  group-total start interval (x ∷ xs) gs =
      let key = marks.interval_index (x.first - start) interval ∷ [] in
      let old = unwrap_or (lookup key gs) [] in
      group-total start interval xs (insert key (old ++ (x.diff ∷ [])) gs)
      ∙ omega (arith, insert-total key (old ++ (x.diff ∷ [])) gs, length-append old (x.diff ∷ []))

  abbrev pub sum_n : List (IntervalStats floats marks pct) → ℕ
  sum_n [] = 0
  sum_n (i ∷ is) = i.n + sum_n is

  interval_stats-sum :
      (order : IsOrder floats) (interval : ℕ) (gs : List (Text × List F))
      → Ensures (λ is. sum_n is ≡ total_of gs) (interval_stats floats marks pct interval gs)
  unfolding interval_stats
  interval_stats-sum order interval [] = refl
  interval_stats-sum order interval ((k, v) ∷ gs) =
      let (m, e) = median-total floats (sorted floats v) in
      rw e (
        Ensures-bind {A = List (IntervalStats floats marks pct)} _ (λ is. sum_n is ≡ total_of gs) _
          _ (interval_stats-sum order interval gs)
          λ is same. omega (arith, same, length-sorted floats order v))

  insert_interval-sum :
      (i : IntervalStats floats marks pct) (js : List (IntervalStats floats marks pct))
      → sum_n (insert_interval floats marks pct i js) ≡ i.n + sum_n js
  unfolding insert_interval
  insert_interval-sum i [] = refl
  insert_interval-sum i (j ∷ js) = ground (arith, insert_interval-sum i js)

  sort_intervals-sum :
      (is : List (IntervalStats floats marks pct))
      → sum_n (sort_intervals floats marks pct is) ≡ sum_n is
  unfolding sort_intervals
  sort_intervals-sum [] = refl
  sort_intervals-sum (i ∷ is) =
      insert_interval-sum i (sort_intervals floats marks pct is)
      ∙ ap (λ k. i.n + k) (sort_intervals-sum is)

  length-diffs_of :
      (rows : List (Row floats marks pct)) → length (diffs_of floats marks pct rows) ≡ length rows
  length-diffs_of [] = refl
  length-diffs_of (x ∷ xs) = ap suc (length-diffs_of xs)

  abbrev pub sum_txs : List (BucketStats floats marks pct) → ℕ
  sum_txs [] = 0
  sum_txs (b ∷ bs) = b.txs + sum_txs bs

  abbrev sizes_from : ℕ → List (Row floats marks pct) → List (Text × ℕ × ℕ) → ℕ
  sizes_from b rows [] = 0
  sizes_from b rows (x ∷ xs) =
      length (bucket_rows floats marks pct b rows) + sizes_from (b + 1) rows xs

  bucket_stats-sum :
      (order : IsOrder floats) (rows : List (Row floats marks pct)) (b : ℕ)
      (bs : List (Text × ℕ × ℕ))
      → Ensures
          (λ stats. (length stats ≡ length bs) × (sum_txs stats ≡ sizes_from b rows bs))
          (bucket_stats floats marks pct rows b bs)
  unfolding bucket_stats
  bucket_stats-sum order rows b [] = (refl, refl)
  bucket_stats-sum order rows b ((label, lo, hi) ∷ bs) =
      let mine = bucket_rows floats marks pct b rows in
      let s = sorted floats (diffs_of floats marks pct mine) in
      let (m, e) = median-total floats s in
      let (p, f) = nearest_rank-total floats order s 100 in
      let (q, g) = nearest_rank-total floats order s 900 in
      rw (e, f, g)
        (Ensures-bind {A = List (BucketStats floats marks pct)} _
          (λ stats. (length stats ≡ length bs) × (sum_txs stats ≡ sizes_from (b + 1) rows bs)) _ _
          (bucket_stats-sum order rows (b + 1) bs)
          λ stats h. (
            ap suc h.0,
            omega (
              arith,
              h.1,
              length-sorted floats order (diffs_of floats marks pct mine),
              length-diffs_of mine,
            ),
          ))

  -- A row is in one bucket at most.
  bucket_sum-le :
      (rows : List (Row floats marks pct))
      → bucket_sum floats marks pct (λ l. length l) rows ≤ length rows
  unfolding bucket_rows
  bucket_sum-le [] = omega arith
  bucket_sum-le (x ∷ xs) = ground (
    arith,
    bucket_sum-le xs,
    is_in-once x.size 0 1,
    is_in-once x.size 0 2,
    is_in-once x.size 0 3,
    is_in-once x.size 1 2,
    is_in-once x.size 1 3,
    is_in-once x.size 2 3,
  )

  counts-total :
      (n : ℕ) (c : Collector)
      → c.reference < n
      → All (TxWf n) (values c.txs)
      → Ensures
          (λ _. Unit)
          (if c.nitro_present then some [] else count_refs c.reference (values c.txs) [])
  counts-total n c lt h = elim (Bool-cases c.nitro_present) [
    | inl nitro ↦ rw nitro tt
    | inr bare ↦ rw bare (count_refs-total c.reference n (values c.txs) [] lt h)
  ]

  -- `pair_summary` of a well-formed collector for two of its sources does not panic: the
  -- transactions of the intervals add up to those that it compares, and those of the four buckets to
  -- no more, for a total order on samples.
  pub pair_summary-adds :
      (order : IsOrder floats) {n : ℕ} (c : Collector) (other interval : ℕ)
      → IsWf n c
      → Timely c.warmup c.all_up
      → c.reference < n
      → other < n
      → Ensures
          (λ s.
            (sum_n s.intervals ≡ s.n) × (length s.bucket_list ≡ 4) × (sum_txs s.bucket_list ≤ s.n))
          (pair_summary floats marks pct c other interval)
  unfolding pair_summary
  pair_summary-adds order {n} c other interval wf timely r o =
      let txs = AllValues-values (TxWf n) c.txs wf.txs_wf in
      Ensures-bind {A = List (Text × ℕ)} _ (λ _. Unit) _ _ (counts-total n c r txs)
        λ counts _.
          Ensures-bind {A = List (Row floats marks pct)} _ (λ _. Unit) _ _
            (pair_rows-total c other n counts (values c.txs) r o timely txs)
            λ rows _.
              let gs = group floats marks pct c.start interval rows [] in
              Ensures-bind {A = List (IntervalStats floats marks pct)} _
                (λ is. sum_n is ≡ total_of gs) _ _ (interval_stats-sum order interval gs)
                λ is same.
                  Ensures-bind {A = List (BucketStats floats marks pct)} _
                    (λ bs. (length bs ≡ 4) × (sum_txs bs ≡ sizes_from 0 rows buckets)) _ _
                    (bucket_stats-sum order rows 0 buckets)
                    λ bs sums.
                      Ensures-get _ _ c.sources c.reference (omega (arith, wf.sizes.sources))
                        λ a ea.
                          Ensures-get _ _ c.sources other (omega (arith, wf.sizes.sources)) λ b eb.
                            let ds = sorted floats (diffs_of floats marks pct rows) in
                            let (m, e) = median-total floats ds in
                            let (p, f) = nearest_rank-total floats order ds 100 in
                            let (q, g) = nearest_rank-total floats order ds 900 in
                            rw (e, f, g)
                              (
                                omega (
                                  arith,
                                  sort_intervals-sum is,
                                  same,
                                  group-total c.start interval rows [],
                                ),
                                sums.0,
                                omega (arith, sums.1, bucket_sum-le rows),
                              )
