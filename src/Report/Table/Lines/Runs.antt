-- ===== src/Report/Table/Lines/Runs.antt =====
-- The table of the tests of src/report.rs.
use robinhood_feed_bench.Common.{◌≡◌, refl, [], ◌∷◌, some}
use robinhood_feed_bench.Common.Texts.{codes}
use robinhood_feed_bench.Report.Table.{new_table, row, render, line, widths}

aligned :
    render (
      row
        (row (new_table (codes "source" ∷ codes "p50" ∷ [])) (codes "a" ∷ codes "1.00" ∷ []))
        (codes "longer" ∷ codes "12.50" ∷ []))
    ≡ some (codes "source    p50\n-------------\na        1.00\nlonger  12.50\n")
unfolding new_table row render line widths
aligned = refl
