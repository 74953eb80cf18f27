-- ===== src/Report/Table/Lines.antt =====
-- The lines that `Table::render` of src/report.rs prints.
mod Runs
use robinhood_feed_bench.Common.{
  ℕ, zero, suc, ◌+◌, ◌-◌, ◌*◌, ◌≤◌, ◌≡◌, ◌≢◌, refl, ap, ◌∙◌, max, List, [], ◌∷◌, ◌++◌, Option, none,
  some, length, replicate, map, subst, All, length-replicate, length-map, length-append, arith,
  if◌then◌else◌, ◌==◌,
}
use robinhood_feed_bench.Common.Texts.{Text, codes}
use robinhood_feed_bench.Common.Splits.{
  Without, Without-append, split-part, split, put_first, trim_end, is_blank,
}
use robinhood_feed_bench.Report.Table.Fits.{
  Fits, widen-Fits, Fits-widen_all, widen_all-Fits, length-widen, length-widen_all, length-lines,
}
use robinhood_feed_bench.Report.Table.{
  Table, widen, widen_all, widths, left, right, right_cells, cells, line, sum, ended, render,
}

abbrev pub OneLine : Text → Type 0
OneLine = Without 10

OneLine-replicate : (n c : ℕ) → c ≢ 10 → OneLine (replicate n c)
OneLine-replicate zero c h = tt
OneLine-replicate (suc n) c h = (h, OneLine-replicate n c h)

trim_end-OneLine : (t : Text) → OneLine t → OneLine (trim_end t)
trim_end-OneLine [] h = tt
trim_end-OneLine (c ∷ cs) h = ground (arith, trim_end-OneLine cs)

split-ended : (ls : List Text) → All OneLine ls → split 10 (ended ls) ≡ ls ++ ([] ∷ [])
unfolding split
split-ended [] h = refl
split-ended (l ∷ ls) h = split-part 10 l (ended ls) h.0 ∙ ap (λ r. l ∷ r) (split-ended ls h.1)

right-OneLine : (w : ℕ) (c : Text) → OneLine c → OneLine (right w c)
right-OneLine w c h = (
  omega arith,
  (
    omega arith,
    Without-append 10 (replicate (w - length c) b' ') c
        (OneLine-replicate (w - length c) b' ' (omega arith)) h,
  ),
)

right_cells-OneLine : (ws : List ℕ) (cs : List Text) → All OneLine cs → OneLine (right_cells ws cs)
right_cells-OneLine [] cs h = tt
right_cells-OneLine (w ∷ ws) [] h =
    Without-append 10 (right w []) (right_cells ws []) (right-OneLine w [] tt)
      (right_cells-OneLine ws [] tt)
right_cells-OneLine (w ∷ ws) (c ∷ cs) h =
    Without-append 10 (right w c) (right_cells ws cs) (right-OneLine w c h.0)
      (right_cells-OneLine ws cs h.1)

left-OneLine : (w : ℕ) (c : Text) → OneLine c → OneLine (left w c)
left-OneLine w c h =
    Without-append 10 c (replicate (w - length c) b' ') h
      (OneLine-replicate (w - length c) b' ' (omega arith))

line-OneLine : (ws : List ℕ) (cs : List Text) → All OneLine cs → OneLine (line ws cs)
unfolding line
line-OneLine [] cs h = tt
line-OneLine (w ∷ ws) [] h = trim_end-OneLine (cells (w ∷ ws) []) (
    Without-append 10 (left w []) (right_cells ws []) (left-OneLine w [] tt)
      (right_cells-OneLine ws [] tt))
line-OneLine (w ∷ ws) (c ∷ cs) h = trim_end-OneLine (cells (w ∷ ws) (c ∷ cs)) (
    Without-append 10 (left w c) (right_cells ws cs) (left-OneLine w c h.0)
      (right_cells-OneLine ws cs h.1))

lines-OneLine :
    (ws : List ℕ) (rs : List (List Text)) → All (All OneLine) rs → All OneLine (map (line ws) rs)
lines-OneLine ws [] h = tt
lines-OneLine ws (r ∷ rs) h = (line-OneLine ws r h.0, lines-OneLine ws rs h.1)

-- The lines of a text that ends with a line break.
abbrev pub IsLines : Text → List Text → Type 0
IsLines out ls = split 10 out ≡ ls ++ ([] ∷ [])

-- The lines of a table: the headers, a rule of dashes, and one for each of its rows; no line is
-- longer than the rule.
abbrev pub IsTable : ℕ → List Text → Type 0
IsTable rows ls =
    (n : ℕ) × (head : Text) × (body : List Text) × (ls ≡ head ∷ replicate n b'-' ∷ body)
    × (length body ≡ rows)
    × All (λ l. length l ≤ n) (head ∷ body)

abbrev pub width : List Text → List (List Text) → ℕ
width headers rows =
    sum (widths (record { headers = headers; rows = rows })) + 2 * (length headers - 1)

abbrev pub table_lines : List Text → List (List Text) → List Text
table_lines headers rows =
    let ws = widths (record { headers = headers; rows = rows }) in
    line ws headers ∷ replicate (width headers rows) b'-' ∷ map (line ws) rows

pub length-widths :
    (headers : List Text) (rows : List (List Text))
    → length (widths (record { headers = headers; rows = rows })) ≡ length headers
unfolding widths
length-widths headers rows =
    let none_yet = replicate (length headers) 0 in
    length-widen_all rows (widen none_yet headers)
    ∙ length-widen none_yet headers
    ∙ length-replicate {A = ℕ} (length headers) 0

pub table_lines-Fit :
    (headers : List Text) (rows : List (List Text))
    → (let ws = widths (record { headers = headers; rows = rows }) in
        All (λ l. length l ≤ width headers rows) (line ws headers ∷ map (line ws) rows))
unfolding widths
table_lines-Fit headers rows =
    let base = widen (replicate (length headers) 0) headers in
    let ws = widen_all base rows in
    let fits : All (Fits ws) (headers ∷ rows) = (
      Fits-widen_all rows base headers (widen-Fits (replicate (length headers) 0) headers),
      widen_all-Fits rows base,
    ) in
    subst (λ k. All (λ l. length l ≤ sum ws + 2 * (k - 1)) (line ws headers ∷ map (line ws) rows))
      (length-widths headers rows) (length-lines ws (headers ∷ rows) fits)

table_lines-IsTable :
    (headers : List Text) (rows : List (List Text))
    → IsTable (length rows) (table_lines headers rows)
table_lines-IsTable headers rows =
    let ws = widths (record { headers = headers; rows = rows }) in
    (
      width headers rows,
      line ws headers,
      map (line ws) rows,
      refl,
      length-map (line ws) rows,
      table_lines-Fit headers rows,
    )

-- A table with a column is rendered as lines, with a line break behind each.
pub render-ended :
    (headers : List Text) (rows : List (List Text))
    → headers ≢ []
    → (ls : List Text) × (render (record { headers = headers; rows = rows }) ≡ some (ended ls))
      × IsTable (length rows) ls
unfolding render
render-ended [] rows some_header = absurd (some_header refl)
render-ended (h ∷ hs) rows some_header =
    (table_lines (h ∷ hs) rows, refl, table_lines-IsTable (h ∷ hs) rows)

-- A table with a column whose cells are without line breaks renders as the line of the headers, a
-- rule of dashes, and one line for each row; no line is longer than the rule.
pub render-IsLines :
    (headers : List Text) (rows : List (List Text))
    → headers ≢ []
    → All (All OneLine) (headers ∷ rows)
    → (out : Text) × (ls : List Text) × (render (record { headers = headers; rows = rows })
        ≡ some out)
      × IsLines out ls
      × IsTable (length rows) ls
unfolding render
render-IsLines [] rows some_header one_line = absurd (some_header refl)
render-IsLines (h ∷ hs) rows some_header one_line =
    let ws = widths (record { headers = h ∷ hs; rows = rows }) in
    (
      ended (table_lines (h ∷ hs) rows),
      table_lines (h ∷ hs) rows,
      refl,
      split-ended (table_lines (h ∷ hs) rows) (
        line-OneLine ws (h ∷ hs) one_line.0,
        (
          OneLine-replicate (width (h ∷ hs) rows) b'-' (omega arith),
          lines-OneLine ws rows one_line.1,
        ),
      ),
      table_lines-IsTable (h ∷ hs) rows,
    )
