-- ===== src/Report/Printed/Sections.antt =====
-- The sections of the text that `render` of src/report.rs writes.
use robinhood_feed_bench.Common.{
  ◌≤◌, All, ℕ, suc, ◌+◌, ◌≡◌, ◌≢◌, refl, sym, ap, ◌∙◌, true, arith, List, [], ◌∷◌, ◌++◌, map, some,
  length, append_assoc, append-none, if◌then◌else◌, ltb,
}
use robinhood_feed_bench.Common.Texts.{Text, codes}
use robinhood_feed_bench.Stats.Percentile.{Floats}
use robinhood_feed_bench.Stats.Pairs.{Marks, IntervalStats, PairSummary}
use robinhood_feed_bench.Report.Table
use robinhood_feed_bench.Report.Table.{Table, new_table, row, ended}
use robinhood_feed_bench.Report.Table.Rows.{IsTable, render-IsTable}
use robinhood_feed_bench.Report.Printed.Heading.{joined, header-IsHeader}
use robinhood_feed_bench.Report.Printed.Layout.{HasIntervals, IsPair, IsPairs, IsReport}
use robinhood_feed_bench.Report.Rendered.{
  format, filled, Report, block_headers, block_row, block_title, render_block_summary, header_lines,
}
use robinhood_feed_bench.Report.Printed.{
  tx_headers, tx_row, tx_line, pair_title, pair_table, interval_headers, interval_row,
  interval_text, size_line, bucket_headers, bucket_row, pair_text, pairs_text, block_heading,
  tx_title, last_line, render,
}

ended-append : (a b : List Text) (x : Text) → ended (a ++ b) ++ x ≡ ended a ++ (ended b ++ x)
ended-append [] b x = refl
ended-append (l ∷ a) b x =
    append_assoc l (codes "\n" ++ ended (a ++ b)) x
    ∙ ap (λ t. l ++ (10 ∷ t)) (ended-append a b x)
    ∙ sym (append_assoc l (codes "\n" ++ ended a) (ended b ++ x))

format-ended :
    (parts : List (List Text)) (x : Text)
    → format (map ended parts ++ (x ∷ [])) ≡ ended (joined parts) ++ x
format-ended [] x = append-none x
format-ended (part ∷ parts) x =
    ap (λ t. ended part ++ t) (format-ended parts x) ∙ sym (ended-append part (joined parts) x)

filled-rows :
    (headers : List Text) (rows more : List (List Text))
    → filled (record { headers = headers; rows = rows }) more
      ≡ record { headers = headers; rows = rows ++ more }
unfolding row
filled-rows headers rows [] =
    ap (λ l. record { headers = headers; rows = l }) (sym (append-none rows))
filled-rows headers rows (r ∷ more) =
    filled-rows headers (rows ++ (r ∷ [])) more
    ∙ ap (λ l. record { headers = headers; rows = l }) (append_assoc rows (r ∷ []) more)

ended-both : (a b : List Text) → ended (a ++ b) ≡ ended a ++ ended b
ended-both a b =
    sym (append-none (ended (a ++ b)))
    ∙ ended-append a b []
    ∙ ap (λ t. ended a ++ t) (append-none (ended b))

format-all :
    (parts : List (List Text)) → format (map ended parts ++ ([] ∷ [])) ≡ ended (joined parts)
format-all parts = format-ended parts [] ∙ append-none (ended (joined parts))

map-fit :
    {A : Type 0} (show : A → List Text) (xs : List A) (n : ℕ)
    → ((x : A) → length (show x) ≤ n)
    → All (λ (r : List Text). length r ≤ n) (map show xs)
map-fit show [] n h = tt
map-fit show (x ∷ xs) n h = (h x, map-fit show xs n h)

filled-IsTable :
    {A : Type 0} (headers : List Text) (show : A → List Text) (xs : List A)
    → headers ≢ []
    → ((x : A) → length (show x) ≤ length headers)
    → (ls : List Text) × (Table.render (filled (new_table headers) (map show xs)) ≡ some (ended ls))
      × IsTable headers (map show xs) ls
unfolding new_table
filled-IsTable headers show xs some_header fit =
    let (ls, e, table) =
      render-IsTable headers (map show xs) some_header (map-fit show xs (length headers) fit) in
    (ls, ap Table.render (filled-rows headers [] (map show xs)) ∙ e, table)

module _ (floats : Floats) (ms : ℕ → floats.F) (pct : ℕ → ℕ → floats.F) (marks : Marks floats)
    (fixed plus : ℕ → floats.F → Text) (mega : ℕ → floats.F) where
  intervals-table :
      (p : PairSummary floats marks pct) (ivs : List (IntervalStats floats marks pct))
      → (ls : List Text) × ((if ltb 1 (length ivs)
            then Table.render (
                filled
                  (new_table (interval_headers floats ms pct marks fixed plus mega p))
                  (map (interval_row floats ms pct marks fixed plus mega) ivs))
            else some [])
          ≡ some (ended ls))
        × HasIntervals floats ms pct marks fixed plus mega p ivs ls
  intervals-table p [] = ([], refl, refl)
  intervals-table p (iv ∷ []) = ([], refl, refl)
  intervals-table p (iv ∷ iw ∷ ivs) =
      let two : ltb 1 (suc (suc (length ivs))) ≡ true = ground arith in
      rw two (
        filled-IsTable (interval_headers floats ms pct marks fixed plus mega p)
          (interval_row floats ms pct marks fixed plus mega) (iv ∷ iw ∷ ivs) (λ e. cc)
          (λ x. omega arith))

  interval_text-HasIntervals :
      (p : PairSummary floats marks pct)
      → (ls : List Text) × (interval_text floats ms pct marks fixed plus mega p ≡ some (ended ls))
        × HasIntervals floats ms pct marks fixed plus mega p p.intervals ls
  interval_text-HasIntervals p = intervals-table p p.intervals

  pair_text-IsPair :
      (i : ℕ) (p : PairSummary floats marks pct)
      → (ls : List Text) × (pair_text floats ms pct marks fixed plus mega i p ≡ some (ended ls))
        × IsPair floats ms pct marks fixed plus mega i p ls
  unfolding pair_text row new_table
  pair_text-IsPair i p =
      let (a, e1, ta) =
        render-IsTable (pair_table floats ms pct marks fixed plus mega p).headers
          (pair_table floats ms pct marks fixed plus mega p).rows (λ e. cc) (omega arith, tt) in
      let (b, e2, tb) = interval_text-HasIntervals p in
      let (c, e3, tc) =
        filled-IsTable (bucket_headers floats ms pct marks fixed plus mega p)
          (bucket_row floats ms pct marks fixed plus mega) p.bucket_list (λ e. cc)
          (λ x. omega arith) in
      let parts =
        (pair_title floats ms pct marks fixed plus mega i p ∷ [])
        ∷ a
        ∷ b
        ∷ (size_line floats ms pct marks fixed plus mega p ∷ [])
        ∷ c
        ∷ ([] ∷ [])
        ∷ [] in
      (joined parts, rw (e1, e2, e3) (ap some (format-all parts)), (a, b, c, refl, ta, tb, tc))

  pairs_text-IsPairs :
      (i : ℕ) (ps : List (PairSummary floats marks pct))
      → (ls : List Text) × (pairs_text floats ms pct marks fixed plus mega i ps ≡ some (ended ls))
        × IsPairs floats ms pct marks fixed plus mega i ps ls
  unfolding pairs_text
  pairs_text-IsPairs i [] = ([], refl, refl)
  pairs_text-IsPairs i (p ∷ ps) =
      let (s, e1, hs) = pair_text-IsPair i p in
      let (t, e2, ht) = pairs_text-IsPairs (i + 1) ps in
      (s ++ t, rw (e1, e2) (ap some (sym (ended-both s t))), (s, t, refl, hs, ht))

  -- A report is always rendered, as lines with a line break behind each and a last line about the
  -- percentiles. Behind the lines of the header, which hold the name, kind, target, level and
  -- counters of each source in two lines, stand a table of the block summary and one of the
  -- transaction summary, with the name and the numbers of each source in a row of its own, and a
  -- section for each pair, numbered from one on, with its two sources in the title, a table of its
  -- numbers, one with a row for each of its intervals when there are two or more of them, and one
  -- with a row for each of its buckets. A row has its cells in the order of the columns.
  pub render-IsReport :
      (r : Report floats ms pct marks fixed plus mega)
      → (ls : List Text) × (render floats ms pct marks fixed plus mega r
          ≡ some (ended ls ++ last_line floats ms pct marks fixed plus mega))
        × IsReport floats ms pct marks fixed plus mega r ls
  unfolding render render_block_summary
  render-IsReport r =
      let (a, e1, ta) =
        filled-IsTable (block_headers floats ms pct marks fixed plus mega)
          (block_row floats ms pct marks fixed plus mega) r.block.per_source (λ e. cc)
          (λ x. omega arith) in
      let (b, e2, tb) =
        filled-IsTable (tx_headers floats ms pct marks fixed plus mega)
          (tx_row floats ms pct marks fixed plus mega) r.tx.per_source (λ e. cc)
          (λ x. omega arith) in
      let (c, e3, tc) = pairs_text-IsPairs 0 r.pairs in
      let title = block_title floats ms pct marks fixed plus mega r.block in
      let parts =
        header_lines floats ms pct marks fixed plus mega r.header
        ∷ ([] ∷ [])
        ∷ (block_heading floats ms pct marks fixed plus mega ∷ [])
        ∷ (title ∷ a)
        ∷ ([] ∷ [])
        ∷ (tx_title floats ms pct marks fixed plus mega
            ∷ tx_line floats ms pct marks fixed plus mega r.tx
            ∷ [])
        ∷ b
        ∷ ([] ∷ [])
        ∷ c
        ∷ [] in
      (
        joined parts,
        rw (e1, e2, e3, append-none (ended a))
            (ap some (format-ended parts (last_line floats ms pct marks fixed plus mega))),
        (
          header_lines floats ms pct marks fixed plus mega r.header,
          a,
          b,
          c,
          refl,
          header-IsHeader floats ms pct marks fixed plus mega r.header,
          ta,
          tb,
          tc,
        ),
      )
