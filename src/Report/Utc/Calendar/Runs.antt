-- ===== src/Report/Utc/Calendar/Runs.antt =====
-- The instants of the tests of src/report.rs.
use robinhood_feed_bench.Common.{ℕ, ◌+◌, ◌*◌, ◌<◌, ◌≡◌, refl, [], ◌∷◌, map}
use robinhood_feed_bench.Common.Decimal.{decimal}
use robinhood_feed_bench.Common.Texts.{codes}
use robinhood_feed_bench.Report.Utc.{year_of_era, day_of_year, march_date, civil, stamp, utc_string}
use robinhood_feed_bench.Report.Utc.Calendar.{february, days_in_month, walk, utc_string-walk}

epoch_text : utc_string 0 ≡ codes "1970-01-01 00:00:00 UTC"
unfolding utc_string civil march_date year_of_era day_of_year stamp decimal
epoch_text = refl

later_text : utc_string 1789819200 ≡ codes "2026-09-19 12:00:00 UTC"
unfolding utc_string civil march_date year_of_era day_of_year stamp decimal
later_text = refl

utc_string-walk_example :
    (h : ℕ) × (m : ℕ) × (s : ℕ) × (days : ℕ) × (h < 24)
    × (m < 60)
    × (s < 60)
    × (((days * 24 + h) * 60 + m) * 60 + s ≡ 1789819200)
    × (utc_string 1789819200 ≡ stamp (walk days) h m s)
utc_string-walk_example = utc_string-walk 1789819200

month_lengths :
    map (days_in_month 2023) (1 ∷ 2 ∷ 3 ∷ 4 ∷ 5 ∷ 6 ∷ 7 ∷ 8 ∷ 9 ∷ 10 ∷ 11 ∷ 12 ∷ [])
    ≡ 31 ∷ 28 ∷ 31 ∷ 30 ∷ 31 ∷ 30 ∷ 31 ∷ 31 ∷ 30 ∷ 31 ∷ 30 ∷ 31 ∷ []
month_lengths = refl

leap_years : map february (1900 ∷ 2000 ∷ 2023 ∷ 2024 ∷ []) ≡ 28 ∷ 29 ∷ 28 ∷ 29 ∷ []
leap_years = refl
