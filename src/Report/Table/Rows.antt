-- ===== src/Report/Table/Rows.antt =====
-- The cells of the lines that `Table::render` of src/report.rs prints.
use robinhood_feed_bench.Common.{
  ℕ, zero, suc, ◌+◌, ◌-◌, ◌≤◌, ◌≡◌, ◌≢◌, refl, sym, ap, ◌∙◌, List, [], ◌∷◌, ◌++◌, some, length,
  replicate, map, All, append_assoc, append-none, subst, arith,
}
use robinhood_feed_bench.Common.Texts.{Text}
use robinhood_feed_bench.Common.Splits.{trim_end}
use robinhood_feed_bench.Report.Table.{right_cells, cells, line, widths, ended, render}
use robinhood_feed_bench.Report.Table.Lines.{width, table_lines, length-widths, table_lines-Fit}

abbrev pub blanks : ℕ → Text
blanks n = replicate n b' '

-- The cells stand in the text in order, with nothing but blanks before, between and behind them.
abbrev pub Spaced : List Text → Text → Type 0
Spaced [] t = (n : ℕ) × (t ≡ blanks n)
Spaced (c ∷ cs) t = (n : ℕ) × (rest : Text) × (t ≡ blanks n ++ (c ++ rest)) × Spaced cs rest

-- A line has the cells, but for blanks at its end.
abbrev pub IsRow : List Text → Text → Type 0
IsRow cs l = (t : Text) × (l ≡ trim_end t) × Spaced cs t

abbrev pub AreRows : List (List Text) → List Text → Type 0
AreRows [] ls = ls ≡ []
AreRows (r ∷ rs) [] = ⊥
AreRows (r ∷ rs) (l ∷ ls) = IsRow r l × AreRows rs ls

blanks-append : (n m : ℕ) (t : Text) → blanks n ++ (blanks m ++ t) ≡ blanks (n + m) ++ t
blanks-append zero m t = ap (λ k. blanks k ++ t) (omega arith)
blanks-append (suc n) m t =
    ap (λ r. b' ' ∷ r) (blanks-append n m t) ∙ ap (λ k. blanks k ++ t) (the_next n m)
  where
    the_next : (n m : ℕ) → suc (n + m) ≡ suc n + m
    the_next n m = omega arith

pub Spaced-blanks : (n : ℕ) (cs : List Text) (t : Text) → Spaced cs t → Spaced cs (blanks n ++ t)
Spaced-blanks n [] t (m, e) = (
  n + m,
  ap (λ r. blanks n ++ r) (e ∙ sym (append-none (blanks m)))
      ∙ blanks-append n m []
      ∙ append-none (blanks (n + m)),
)
Spaced-blanks n (c ∷ cs) t (m, rest, e, h) =
    (n + m, rest, ap (λ r. blanks n ++ r) e ∙ blanks-append n m (c ++ rest), h)

right_cells-Spaced :
    (ws : List ℕ) (cs : List Text) → length cs ≤ length ws → Spaced cs (right_cells ws cs)
right_cells-Spaced [] [] h = (0, refl)
right_cells-Spaced [] (c ∷ cs) h = absurd (omega arith)
right_cells-Spaced (w ∷ ws) [] h =
    let (n, e) = right_cells-Spaced ws [] (omega arith) in
    Spaced-blanks 2 [] ((blanks (w - 0) ++ []) ++ right_cells ws [])
      (Spaced-blanks_append (w - 0) (right_cells ws []) (n, e))
  where
    Spaced-blanks_append : (k : ℕ) (t : Text) → Spaced [] t → Spaced [] ((blanks k ++ []) ++ t)
    Spaced-blanks_append k t h =
        let (m, e) = Spaced-blanks k [] t h in (m, ap (λ b. b ++ t) (append-none (blanks k)) ∙ e)
right_cells-Spaced (w ∷ ws) (c ∷ cs) h = (
  suc (suc (w - length c)),
  right_cells ws cs,
  ap (λ r. b' ' ∷ b' ' ∷ r) (append_assoc (blanks (w - length c)) c (right_cells ws cs)),
  right_cells-Spaced ws cs (omega arith),
)

line-IsRow : (ws : List ℕ) (cs : List Text) → length cs ≤ length ws → IsRow cs (line ws cs)
unfolding line
line-IsRow [] [] h = ([], refl, (0, refl))
line-IsRow [] (c ∷ cs) h = absurd (omega arith)
line-IsRow (w ∷ ws) [] h = (
  cells (w ∷ ws) [],
  refl,
  Spaced-blanks (w - 0) [] (right_cells ws []) (right_cells-Spaced ws [] (omega arith)),
)
line-IsRow (w ∷ ws) (c ∷ cs) h = (
  cells (w ∷ ws) (c ∷ cs),
  refl,
  (
    0,
    blanks (w - length c) ++ right_cells ws cs,
    append_assoc c (blanks (w - length c)) (right_cells ws cs),
    Spaced-blanks (w - length c) cs (right_cells ws cs) (right_cells-Spaced ws cs (omega arith)),
  ),
)

lines-AreRows :
    (ws : List ℕ) (rows : List (List Text))
    → All (λ r. length r ≤ length ws) rows
    → AreRows rows (map (line ws) rows)
lines-AreRows ws [] h = refl
lines-AreRows ws (r ∷ rows) h = (line-IsRow ws r h.0, lines-AreRows ws rows h.1)

-- The lines of a table with these cells: the headers, a rule of dashes, and one for each row, none
-- longer than the rule.
abbrev pub IsTable : List Text → List (List Text) → List Text → Type 0
IsTable headers rows ls =
    (n : ℕ) × (head : Text) × (body : List Text) × (ls ≡ head ∷ replicate n b'-' ∷ body)
    × IsRow headers head
    × AreRows rows body
    × All (λ l. length l ≤ n) (head ∷ body)

-- A table with a column, whose rows have no more cells than it has columns, is rendered as lines
-- with its cells, with a line break behind each.
pub render-IsTable :
    (headers : List Text) (rows : List (List Text))
    → headers ≢ []
    → All (λ r. length r ≤ length headers) rows
    → (ls : List Text) × (render (record { headers = headers; rows = rows }) ≡ some (ended ls))
      × IsTable headers rows ls
unfolding render
render-IsTable [] rows some_header fit = absurd (some_header refl)
render-IsTable (h ∷ hs) rows some_header fit =
    let ws = widths (record { headers = h ∷ hs; rows = rows }) in
    let cols = length-widths (h ∷ hs) rows in
    (
      table_lines (h ∷ hs) rows,
      refl,
      (
        width (h ∷ hs) rows,
        line ws (h ∷ hs),
        map (line ws) rows,
        refl,
        line-IsRow ws (h ∷ hs) (omega (arith, cols)),
        lines-AreRows ws rows
            (subst (λ k. All (λ (r : List Text). length r ≤ k) rows) (sym cols) fit),
        table_lines-Fit (h ∷ hs) rows,
      ),
    )
