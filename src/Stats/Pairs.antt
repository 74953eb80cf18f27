-- ===== src/Stats/Pairs.antt =====
-- src/stats.rs: `pair_summary`. f64 values are parameters: `signed` is `signed_ms`, the tests are
-- those on a difference, and `interval_index` is the quotient of two `as_secs_f64` as a `u64`.
-- `none` is a panic.
pub mod Sums
use robinhood_feed_bench.Common.{
  ℕ, zero, suc, ◌+◌, ◌-◌, ◌%◌, ◌^◌, Bool, true, false, ◌&&◌, List, [], ◌∷◌, ◌++◌, map, Option, none,
  some, length, get_elem?, leb, ltb, ◌==◌, if◌then◌else◌, ◌>>=◌, unwrap_or,
}
use robinhood_feed_bench.Common.Texts.{Text, text_eq, codes}
use robinhood_feed_bench.Common.Maps.{lookup, insert, values}
use robinhood_feed_bench.Event.{Instant}
use robinhood_feed_bench.Stats.{Collector, TxRec}
use robinhood_feed_bench.Stats.Windows.{try_in_window}
use robinhood_feed_bench.Stats.Percentile.{Floats, nearest_rank, median, sorted}

pub record Marks (floats : Floats) : Type 0 where
  pub signed : Instant → Instant → floats.F
  pub positive : floats.F → Bool
  pub within_1 : floats.F → Bool
  pub above_5 : floats.F → Bool
  pub below_5 : floats.F → Bool
  pub interval_index : ℕ → ℕ → ℕ
  pub interval_start : ℕ → ℕ → floats.F

-- `ref_counts` for the reference source `r`.
pub count_refs : ℕ → List TxRec → List (Text × ℕ) → Option (List (Text × ℕ))
count_refs r [] counts = some counts
count_refs r (rec ∷ recs) counts = do
  a ← get_elem? rec.arrivals r
  count_refs r recs (counted a rec.block_key counts)
  where
    counted : Option Instant → Option Text → List (Text × ℕ) → List (Text × ℕ)
    counted (some t) (some k) counts =
        insert k ((unwrap_or (lookup k counts) 0 + 1) % 2 ^ 32) counts
    counted _ _ counts = counts

pub row_size : Collector → List (Text × ℕ) → TxRec → Option ℕ
row_size c counts rec =
    if c.nitro_present
    then (if rec.block_from_nitro then rec.tx_count else none)
    else (rec.block_key >>= λ k. lookup k counts)

-- `BUCKETS`
abbrev pub buckets : List (Text × ℕ × ℕ)
buckets =
    (codes "1-5", 1, 5)
    ∷ (codes "6-20", 6, 20)
    ∷ (codes "21-50", 21, 50)
    ∷ (codes ">50", 51, 4294967295)
    ∷ []

-- `BUCKETS.iter().position(..)`, counted from `i`.
abbrev pub position : ℕ → ℕ → List (Text × ℕ × ℕ) → Option ℕ
position i size [] = none
position i size ((label, lo, hi) ∷ bs) =
    if leb lo size && leb size hi then some i else position (i + 1) size bs

abbrev pub is_in : ℕ → Option ℕ → Bool
is_in b none = false
is_in b (some size) = elim (position 0 size buckets) [ none ↦ false | some i ↦ i == b ]

abbrev pub holds_key : Text → List Text → Bool
holds_key k [] = false
holds_key k (j ∷ js) = if text_eq j k then true else holds_key k js

-- What `sort_unstable` and `dedup` leave is one of each.
pub distinct : List Text → ℕ
distinct [] = 0
distinct (k ∷ ks) = let rest = distinct ks in if holds_key k ks then rest else suc rest

module _ (floats : Floats) (marks : Marks floats) (pct : ℕ → ℕ → floats.F) where
  open floats use {F}
  open marks use {signed, positive, within_1, above_5, below_5, interval_index, interval_start}

  pub record Row : Type 0 where
    pub diff : F
    pub first : Instant
    pub block : Option Text
    pub size : Option ℕ

  -- The row of a transaction, from its arrivals at the two sources.
  pub row_of :
      Collector → List (Text × ℕ) → TxRec → Option Instant → Option Instant → Option (Option Row)
  row_of c counts rec (some tr) (some to) = do
    inside ← try_in_window c rec.first
    some (
        if inside
        then some (record {
          diff = signed to tr;
          first = rec.first;
          block = rec.block_key;
          size = row_size c counts rec;
        })
        else none)
  row_of c counts rec _ _ = some none

  abbrev pub add_row : Option Row → List Row → List Row
  add_row none rows = rows
  add_row (some row) rows = row ∷ rows

  pub pair_rows : Collector → ℕ → List (Text × ℕ) → List TxRec → Option (List Row)
  pair_rows c other counts [] = some []
  pair_rows c other counts (rec ∷ recs) = do
    tr ← get_elem? rec.arrivals c.reference
    to ← get_elem? rec.arrivals other
    row ← row_of c counts rec tr to
    rows ← pair_rows c other counts recs
    some (add_row row rows)

  abbrev pub diffs_of : List Row → List F
  diffs_of [] = []
  diffs_of (x ∷ xs) = x.diff ∷ diffs_of xs

  abbrev pub count : (F → Bool) → List F → ℕ
  count f [] = 0
  count f (d ∷ ds) = if f d then suc (count f ds) else count f ds

  -- `by_interval`: the key of an interval is its index.
  pub group : Instant → ℕ → List Row → List (Text × List F) → List (Text × List F)
  group start interval [] groups = groups
  group start interval (x ∷ xs) groups =
      let key = interval_index (x.first - start) interval ∷ [] in
      group start interval xs
        (insert key (unwrap_or (lookup key groups) [] ++ (x.diff ∷ [])) groups)

  pub record IntervalStats : Type 0 where
    pub index : ℕ
    pub start_s : F
    pub n : ℕ
    pub median_ms : F
    pub ref_first_pct : F

  abbrev pub index_of : Text → ℕ
  index_of [] = 0
  index_of (i ∷ is) = i

  pub interval_stats : ℕ → List (Text × List F) → Option (List IntervalStats)
  interval_stats interval [] = some []
  interval_stats interval ((key, v) ∷ groups) = do
    let s = sorted floats v
    m ← median floats s
    rest ← interval_stats interval groups
    some (
        (record {
          index = index_of key + 1;
          start_s = interval_start (index_of key) interval;
          n = length s;
          median_ms = m;
          ref_first_pct = pct (count positive s) (length s);
        })
        ∷ rest)

  -- `sort_by_key(|i| i.index)`
  pub insert_interval : IntervalStats → List IntervalStats → List IntervalStats
  insert_interval i [] = i ∷ []
  insert_interval i (j ∷ js) =
      let rest = insert_interval i js in if ltb j.index i.index then j ∷ rest else i ∷ j ∷ js

  pub sort_intervals : List IntervalStats → List IntervalStats
  sort_intervals [] = []
  sort_intervals (i ∷ is) = insert_interval i (sort_intervals is)

  pub bucket_rows : ℕ → List Row → List Row
  bucket_rows b [] = []
  bucket_rows b (x ∷ xs) = if is_in b x.size then x ∷ bucket_rows b xs else bucket_rows b xs

  abbrev pub blocks_of : List Row → List Text
  blocks_of [] = []
  blocks_of (x ∷ xs) = elim x.block [ none ↦ blocks_of xs | some k ↦ k ∷ blocks_of xs ]

  pub record BucketStats : Type 0 where
    pub label : Text
    pub blocks : ℕ
    pub blocks_pct : F
    pub txs : ℕ
    pub txs_pct : F
    pub median_ms : F
    pub p10_ms : F
    pub p90_ms : F
    pub ref_first_pct : F

  -- The sums over the four buckets.
  abbrev pub bucket_sum : (List Row → ℕ) → List Row → ℕ
  bucket_sum f rows =
      f (bucket_rows 0 rows)
      + f (bucket_rows 1 rows)
      + f (bucket_rows 2 rows)
      + f (bucket_rows 3 rows)

  pub bucket_stats : List Row → ℕ → List (Text × ℕ × ℕ) → Option (List BucketStats)
  bucket_stats rows b [] = some []
  bucket_stats rows b ((label, lo, hi) ∷ bs) = do
    let mine = bucket_rows b rows
    let s = sorted floats (diffs_of mine)
    m ← median floats s
    p10 ← nearest_rank floats s 100
    p90 ← nearest_rank floats s 900
    rest ← bucket_stats rows (b + 1) bs
    some (
        (record {
          label = label ++ codes " txs";
          blocks = distinct (blocks_of mine);
          blocks_pct =
              pct (distinct (blocks_of mine)) (bucket_sum (λ l. distinct (blocks_of l)) rows);
          txs = length s;
          txs_pct = pct (length s) (bucket_sum (λ l. length l) rows);
          median_ms = m;
          p10_ms = p10;
          p90_ms = p90;
          ref_first_pct = pct (count positive s) (length s);
        })
        ∷ rest)

  pub record PairSummary : Type 0 where
    pub reference : Text
    pub other : Text
    pub n : ℕ
    pub median_ms : F
    pub p10_ms : F
    pub p90_ms : F
    pub ref_first_pct : F
    pub within_1ms_pct : F
    pub ref_earlier_5ms_pct : F
    pub other_earlier_5ms_pct : F
    pub intervals : List IntervalStats
    pub size_source : Text
    pub bucket_list : List BucketStats

  pub pair_summary : Collector → ℕ → ℕ → Option PairSummary
  pair_summary c other interval = do
    counts ← if c.nitro_present then some [] else count_refs c.reference (values c.txs) []
    rows ← pair_rows c other counts (values c.txs)
    let diffs = sorted floats (diffs_of rows)
    let n = length rows
    intervals ← interval_stats interval (group c.start interval rows [])
    bucket_list ← bucket_stats rows 0 buckets
    reference_info ← get_elem? c.sources c.reference
    other_info ← get_elem? c.sources other
    m ← median floats diffs
    p10 ← nearest_rank floats diffs 100
    p90 ← nearest_rank floats diffs 900
    some (record {
      reference = reference_info.name;
      other = other_info.name;
      n = n;
      median_ms = m;
      p10_ms = p10;
      p90_ms = p90;
      ref_first_pct = pct (count positive (diffs_of rows)) n;
      within_1ms_pct = pct (count within_1 (diffs_of rows)) n;
      ref_earlier_5ms_pct = pct (count above_5 (diffs_of rows)) n;
      other_earlier_5ms_pct = pct (count below_5 (diffs_of rows)) n;
      intervals = sort_intervals intervals;
      size_source =
          if c.nitro_present
          then codes "nitro frame"
          else reference_info.name ++ codes " per-block count";
      bucket_list = bucket_list;
    })
