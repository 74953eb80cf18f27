-- ===== src/Report/Table/Fits.antt =====
-- The columns of `Table::render` of src/report.rs are wide enough for the cells.
use robinhood_feed_bench.Common.{
  ℕ, suc, ◌+◌, ◌-◌, ◌*◌, ◌≤◌, ◌≡◌, refl, ap, ◌∙◌, List, [], ◌∷◌, length, replicate, map, All,
  length-replicate, length-append, arith,
}
use robinhood_feed_bench.Common.Texts.{Text}
use robinhood_feed_bench.Common.Splits.{trim_end}
use robinhood_feed_bench.Report.Table.{widen, widen_all, left, right, right_cells, cells, line, sum}

length-trim_end : (t : Text) → length (trim_end t) ≤ length t
length-trim_end [] = omega arith
length-trim_end (c ∷ cs) = ground (arith, length-trim_end cs)

-- The cells of a row are no wider than their columns.
abbrev pub Fits : List ℕ → List Text → Type 0
Fits [] cs = Unit
Fits (w ∷ ws) [] = Unit
Fits (w ∷ ws) (c ∷ cs) = (length c ≤ w) × Fits ws cs

Fits-nil : (ws : List ℕ) → Fits ws []
Fits-nil [] = tt
Fits-nil (w ∷ ws) = tt

pub widen-Fits : (ws : List ℕ) (r : List Text) → Fits (widen ws r) r
widen-Fits [] r = tt
widen-Fits (w ∷ ws) [] = tt
widen-Fits (w ∷ ws) (c ∷ cs) = (omega arith, widen-Fits ws cs)

Fits-widen : (ws : List ℕ) (r q : List Text) → Fits ws r → Fits (widen ws q) r
Fits-widen [] r q f = tt
Fits-widen (w ∷ ws) [] [] f = tt
Fits-widen (w ∷ ws) [] (d ∷ ds) f = tt
Fits-widen (w ∷ ws) (c ∷ cs) [] f = f
Fits-widen (w ∷ ws) (c ∷ cs) (d ∷ ds) f = (omega arith, Fits-widen ws cs ds f.1)

pub Fits-widen_all :
    (rs : List (List Text)) (ws : List ℕ) (r : List Text) → Fits ws r → Fits (widen_all ws rs) r
Fits-widen_all [] ws r f = f
Fits-widen_all (q ∷ rs) ws r f = Fits-widen_all rs (widen ws q) r (Fits-widen ws r q f)

pub widen_all-Fits : (rs : List (List Text)) (ws : List ℕ) → All (Fits (widen_all ws rs)) rs
widen_all-Fits [] ws = tt
widen_all-Fits (r ∷ rs) ws =
    (Fits-widen_all rs (widen ws r) r (widen-Fits ws r), widen_all-Fits rs (widen ws r))

pub length-widen : (ws : List ℕ) (r : List Text) → length (widen ws r) ≡ length ws
length-widen [] r = refl
length-widen (w ∷ ws) [] = refl
length-widen (w ∷ ws) (c ∷ cs) = ap suc (length-widen ws cs)

pub length-widen_all : (rs : List (List Text)) (ws : List ℕ) → length (widen_all ws rs) ≡ length ws
length-widen_all [] ws = refl
length-widen_all (r ∷ rs) ws = length-widen_all rs (widen ws r) ∙ length-widen ws r

-- A row that fits is as long as the columns and the gaps between them.
length-right : (w : ℕ) (c : Text) → length c ≤ w → length (right w c) ≡ 2 + w
length-right w c h = omega (
  arith,
  length-append (replicate (w - length c) b' ') c,
  length-replicate {A = ℕ} (w - length c) b' ',
)

length-left : (w : ℕ) (c : Text) → length c ≤ w → length (left w c) ≡ w
length-left w c h = omega (
  arith,
  length-append c (replicate (w - length c) b' '),
  length-replicate {A = ℕ} (w - length c) b' ',
)

length-right_cells :
    (ws : List ℕ) (cs : List Text)
    → Fits ws cs
    → length (right_cells ws cs) ≡ sum ws + 2 * length ws
length-right_cells [] cs f = refl
length-right_cells (w ∷ ws) [] f = omega (
  arith,
  length-append (right w []) (right_cells ws []),
  length-right w [] (omega arith),
  length-right_cells ws [] (Fits-nil ws),
)
length-right_cells (w ∷ ws) (c ∷ cs) f = omega (
  arith,
  length-append (right w c) (right_cells ws cs),
  length-right w c f.0,
  length-right_cells ws cs f.1,
)

length-cells :
    (ws : List ℕ) (cs : List Text)
    → Fits ws cs
    → length (cells ws cs) ≡ sum ws + 2 * (length ws - 1)
length-cells [] cs f = refl
length-cells (w ∷ ws) [] f = omega (
  arith,
  length-append (left w []) (right_cells ws []),
  length-left w [] (omega arith),
  length-right_cells ws [] (Fits-nil ws),
)
length-cells (w ∷ ws) (c ∷ cs) f = omega (
  arith,
  length-append (left w c) (right_cells ws cs),
  length-left w c f.0,
  length-right_cells ws cs f.1,
)

length-line :
    (ws : List ℕ) (cs : List Text) → Fits ws cs → length (line ws cs) ≤ sum ws + 2 * (length ws - 1)
unfolding line
length-line ws cs f = omega (arith, length-trim_end (cells ws cs), length-cells ws cs f)

pub length-lines :
    (ws : List ℕ) (rs : List (List Text))
    → All (Fits ws) rs
    → All (λ l. length l ≤ sum ws + 2 * (length ws - 1)) (map (line ws) rs)
length-lines ws [] f = tt
length-lines ws (r ∷ rs) f = (length-line ws r f.0, length-lines ws rs f.1)
