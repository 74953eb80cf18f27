-- ===== src/Report/Table.antt =====
-- src/report.rs: `Table`, texts in columns.
pub mod Fits
pub mod Lines
pub mod Rows
use robinhood_feed_bench.Common.{
  ℕ, zero, suc, ◌+◌, ◌-◌, ◌*◌, max, List, [], ◌∷◌, ◌++◌, Option, none, some, length, replicate, map,
}
use robinhood_feed_bench.Common.Texts.{Text, codes}
use robinhood_feed_bench.Common.Splits.{trim_end}

pub record Table : Type 0 where
  pub headers : List Text
  pub rows : List (List Text)

unfoldable pub new_table : List Text → Table
new_table headers = record { headers = headers; rows = [] }

unfoldable pub row : Table → List Text → Table
row t cells = record t { rows = t.rows ++ (cells ∷ []) }

-- `width[i] = width[i].max(c.chars().count())`, for the cells of the columns.
abbrev pub widen : List ℕ → List Text → List ℕ
widen [] cells = []
widen (w ∷ ws) [] = w ∷ ws
widen (w ∷ ws) (c ∷ cs) = max w (length c) ∷ widen ws cs

abbrev pub widen_all : List ℕ → List (List Text) → List ℕ
widen_all ws [] = ws
widen_all ws (r ∷ rs) = widen_all (widen ws r) rs

pub widths : Table → List ℕ
widths t = widen_all (widen (replicate (length t.headers) 0) t.headers) t.rows

-- `{c:<w$}`, and `  {c:>w$}`.
abbrev pub left : ℕ → Text → Text
left w c = c ++ replicate (w - length c) b' '

abbrev pub right : ℕ → Text → Text
right w c = b' ' ∷ b' ' ∷ (replicate (w - length c) b' ' ++ c)

-- A cell that a row does not have is empty.
abbrev pub right_cells : List ℕ → List Text → Text
right_cells [] cs = []
right_cells (w ∷ ws) [] = right w [] ++ right_cells ws []
right_cells (w ∷ ws) (c ∷ cs) = right w c ++ right_cells ws cs

abbrev pub cells : List ℕ → List Text → Text
cells [] cs = []
cells (w ∷ ws) [] = left w [] ++ right_cells ws []
cells (w ∷ ws) (c ∷ cs) = left w c ++ right_cells ws cs

unfoldable pub line : List ℕ → List Text → Text
line ws cs = trim_end (cells ws cs)

abbrev pub sum : List ℕ → ℕ
sum [] = 0
sum (w ∷ ws) = w + sum ws

abbrev pub ended : List Text → Text
ended [] = []
ended (l ∷ ls) = l ++ (codes "\n" ++ ended ls)

-- Without a column `cols - 1` overflows, or wraps to a length that `repeat` refuses: both panic.
unfoldable pub render : Table → Option Text
render t = elim t.headers [
  | [] ↦ none
  | h ∷ hs ↦
      let ws = widths t in
      let rule = replicate (sum ws + 2 * (length t.headers - 1)) b'-' in
      some (ended (line ws t.headers ∷ rule ∷ map (line ws) t.rows))
]
