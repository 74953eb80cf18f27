-- ===== src/Report/Utc.antt =====
-- src/report.rs: `utc_string`, on the whole seconds since the epoch, which are not negative, so
-- that the Euclidean divisions of `i64` are those of ℕ and no subtraction goes below 0.
pub mod Calendar
use robinhood_feed_bench.Common.{
  ℕ, ◌+◌, ◌-◌, ◌*◌, ◌/◌, ◌%◌, List, [], ◌∷◌, ◌++◌, length, replicate, ltb, leb, if◌then◌else◌,
}
use robinhood_feed_bench.Common.Decimal.{decimal}
use robinhood_feed_bench.Common.Texts.{Text, codes}

-- `(y, m, d)`
pub record Date : Type 0 where
  pub y : ℕ
  pub m : ℕ
  pub d : ℕ

abbrev pub ymd : ℕ → ℕ → ℕ → Date
ymd a b c = record { y = a; m = b; d = c }

-- `yoe`, and `doy` from it: years begin in March, in eras of 400 of them.
pub year_of_era : ℕ → ℕ
year_of_era doe = (doe - doe / 1460 + doe / 36524 - doe / 146096) / 365

pub day_of_year : ℕ → ℕ → ℕ
day_of_year doe yoe = doe - (365 * yoe + yoe / 4 - yoe / 100)

-- `d`, `m` and `y`, from the day of a year that begins in March.
pub march_date : ℕ → ℕ → Date
march_date y doy =
    let mp = (5 * doy + 2) / 153 in
    let d = doy - (153 * mp + 2) / 5 + 1 in
    let m = if ltb mp 10 then mp + 3 else mp - 9 in ymd (if leb m 2 then y + 1 else y) m d

pub civil : ℕ → Date
civil days =
    let z = days + 719468 in
    let era = z / 146097 in
    let doe = z - era * 146097 in
    let yoe = year_of_era doe in march_date (yoe + era * 400) (day_of_year doe yoe)

-- `{n:0w}`
abbrev pub padded : ℕ → ℕ → Text
padded w n = replicate (w - length (decimal n)) b'0' ++ decimal n

-- The date and the time of the day, as they are printed.
pub stamp : Date → ℕ → ℕ → ℕ → Text
stamp t h m s =
    padded 4 t.y
    ++ (codes "-" ++ padded 2 t.m)
    ++ (codes "-" ++ padded 2 t.d)
    ++ (codes " " ++ padded 2 h)
    ++ (codes ":" ++ padded 2 m)
    ++ (codes ":" ++ padded 2 s)
    ++ codes " UTC"

pub utc_string : ℕ → Text
utc_string secs =
    let sod = secs % 86400 in stamp (civil (secs / 86400)) (sod / 3600) (sod / 60 % 60) (sod % 60)
