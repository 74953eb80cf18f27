-- ===== src/Report/Utc/Calendar.antt =====
-- `utc_string` of src/report.rs against the calendar, day by day.
mod Runs
use robinhood_feed_bench.Common.{
  ℕ, zero, suc, ◌+◌, ◌-◌, ◌*◌, ◌/◌, ◌%◌, ◌≤◌, ◌<◌, ◌≡◌, refl, ap, ◌∙◌, sym, Bool, true, false, not,
  ◌&&◌, ◌||◌, ltb, leb, ◌==◌, if◌then◌else◌, arith, inl, inr, dec_lt, ℕ_discrete,
}
use robinhood_feed_bench.Common.Texts.{Text}
use robinhood_feed_bench.Report.Utc.{
  Date, ymd, year_of_era, day_of_year, march_date, civil, stamp, utc_string,
}

-- The calendar, independently: the lengths of the months, and the day after a day.
abbrev pub february : ℕ → ℕ
february y = if (if y % 100 == 0 then y % 400 == 0 else y % 4 == 0) then 29 else 28

-- 31 and 30 in turn, but for July and August.
abbrev pub days_in_month : ℕ → ℕ → ℕ
days_in_month y m = if m == 2 then february y else 30 + (m + m / 8) % 2

abbrev pub next_day : Date → Date
next_day t =
    if ltb t.d (days_in_month t.y t.m)
    then ymd t.y t.m (t.d + 1)
    else if ltb t.m 12
    then ymd t.y (t.m + 1) 1
    else ymd (t.y + 1) 1 1

-- The date that many days after the first of January 1970.
abbrev pub walk : ℕ → Date
walk zero = ymd 1970 1 1
walk (suc n) = next_day (walk n)

-- The days before a year that begins in March.
abbrev days_before : ℕ → ℕ
days_before y = 365 * y + y / 4 - y / 100 + y / 400

abbrev year_at : ℕ → ℕ
year_at z = year_of_era (z % 146097) + z / 146097 * 400

abbrev day_at : ℕ → ℕ
day_at z = day_of_year (z % 146097) (year_of_era (z % 146097))

civil-march : (n : ℕ) → civil n ≡ march_date (year_at (n + 719468)) (day_at (n + 719468))
unfolding civil
civil-march n =
    let same : n + 719468 - (n + 719468) / 146097 * 146097 ≡ (n + 719468) % 146097 = omega arith in
    rw same refl

split_day : (z : ℕ) → days_before (year_at z) + day_at z ≡ z
unfolding year_of_era day_of_year
split_day z = omega arith

within_year : (z : ℕ) → day_at z < days_before (year_at z + 1) - days_before (year_at z)
unfolding year_of_era day_of_year
within_year z = omega arith

days_before_mono : (x y : ℕ) → x ≤ y → days_before x ≤ days_before y
days_before_mono x y h = omega arith

-- The month of the calendar, and its year, from the months since March.
abbrev month_of : ℕ → ℕ
month_of mp = if ltb mp 10 then mp + 3 else mp - 9

abbrev year_of : ℕ → ℕ → ℕ
year_of y mp = if leb (month_of mp) 2 then y + 1 else y

month_length :
    (y mp : ℕ)
    → mp < 11
    → days_in_month (year_of y mp) (month_of mp) ≡ (153 * (mp + 1) + 2) / 5 - (153 * mp + 2) / 5
month_length y mp h = ground arith

february_length :
    (y : ℕ) → days_in_month (year_of y 11) 2 ≡ days_before (y + 1) - days_before y - 337
february_length y = ground arith

march_date-eq :
    (y d : ℕ)
    → march_date y d ≡ (
        let mp = (5 * d + 2) / 153 in ymd (year_of y mp) (month_of mp) (d - (153 * mp + 2) / 5 + 1))
unfolding march_date
march_date-eq y d = refl

next_in_month :
    (y mp day : ℕ)
    → day < days_in_month (year_of y mp) (month_of mp)
    → next_day (ymd (year_of y mp) (month_of mp) day) ≡ ymd (year_of y mp) (month_of mp) (day + 1)
next_in_month y mp day h = ground arith

next_over_month :
    (y mp : ℕ)
    → mp < 11
    → next_day (ymd (year_of y mp) (month_of mp) (days_in_month (year_of y mp) (month_of mp)))
      ≡ ymd (year_of y (mp + 1)) (month_of (mp + 1)) 1
next_over_month y mp h = ground arith

abbrev months : ℕ → ℕ
months d = (5 * d + 2) / 153

abbrev march_start : ℕ → ℕ
march_start mp = (153 * mp + 2) / 5

day_in_month :
    (y d : ℕ)
    → d + 1 < days_before (y + 1) - days_before y
    → months (d + 1) ≡ months d
    → d - march_start (months d) + 1 < days_in_month (year_of y (months d)) (month_of (months d))
day_in_month y d h same = elim (dec_lt (months d) 11) [
  | yes early ↦ omega (arith, month_length y (months d) early)
  | no late ↦
      let eleven : months d ≡ 11 = omega arith in rw eleven (omega (arith, february_length y))
]

next_in_year :
    (y d : ℕ)
    → d + 1 < days_before (y + 1) - days_before y
    → next_day (march_date y d) ≡ march_date y (d + 1)
next_in_year y d h =
    rw (march_date-eq y d, march_date-eq y (d + 1))
      (elim (ℕ_discrete (months (d + 1)) (months d)) [
        | yes same ↦
            next_in_month y (months d) (d - march_start (months d) + 1) (day_in_month y d h same)
            ∙ ap (ymd (year_of y (months d)) (month_of (months d))) (omega arith)
            ∙ ap (λ mp. ymd (year_of y mp) (month_of mp) (d + 1 - march_start mp + 1)) (sym same)
        | no other ↦
            let early : months d < 11 = omega arith in
            let next : months (d + 1) ≡ months d + 1 = omega arith in
            ap (λ k. next_day (ymd (year_of y (months d)) (month_of (months d)) k))
              (omega (arith, month_length y (months d) early))
            ∙ next_over_month y (months d) early
            ∙ ap (ymd (year_of y (months d + 1)) (month_of (months d + 1))) (omega arith)
            ∙ ap (λ mp. ymd (year_of y mp) (month_of mp) (d + 1 - march_start mp + 1)) (sym next)
      ])

next_over_year :
    (y d : ℕ)
    → d + 1 ≡ days_before (y + 1) - days_before y
    → next_day (march_date y d) ≡ march_date (y + 1) 0
unfolding march_date
next_over_year y d h = ground arith

-- The year and the day of the next number.
year_kept :
    (z : ℕ)
    → day_at z + 1 < days_before (year_at z + 1) - days_before (year_at z)
    → year_at (suc z) ≡ year_at z
unfolding year_of_era day_of_year
year_kept z h = omega arith

day_after_over :
    (z : ℕ)
    → day_at z + 1 ≡ days_before (year_at z + 1) - days_before (year_at z)
    → (year_at (suc z) ≡ year_at z + 1) × (day_at (suc z) ≡ 0)
unfolding year_of_era day_of_year
day_after_over z h = omega arith

march_step :
    (z : ℕ)
    → march_date (year_at (suc z)) (day_at (suc z)) ≡ next_day (march_date (year_at z) (day_at z))
march_step z =
    elim (dec_lt (day_at z + 1) (days_before (year_at z + 1) - days_before (year_at z))) [
      | yes h ↦
          let same = year_kept z h in
          let next : day_at (suc z) ≡ day_at z + 1 =
            omega (arith, same, split_day z, split_day (suc z)) in
          rw (same, next) (sym (next_in_year (year_at z) (day_at z) h))
      | no h ↦
          let last : day_at z + 1 ≡ days_before (year_at z + 1) - days_before (year_at z) =
            omega (arith, within_year z) in
          let over = day_after_over z last in
          rw (over.0, over.1) (sym (next_over_year (year_at z) (day_at z) last))
    ]

civil-walk : (n : ℕ) → civil n ≡ walk n
civil-walk zero = unfold civil march_date year_of_era day_of_year in refl
civil-walk (suc n) =
    let shifted : suc n + 719468 ≡ suc (n + 719468) = omega arith in
    civil-march (suc n)
    ∙ ap (λ z. march_date (year_at z) (day_at z)) shifted
    ∙ march_step (n + 719468)
    ∙ ap next_day (sym (civil-march n) ∙ civil-walk n)

-- The text for an instant is the stamp of the calendar's date for its day, counted one day after
-- another from the first of January 1970 by the Gregorian rules, with an hour below 24, a minute
-- and a second below 60 that, with the days, make up the seconds since the epoch.
pub utc_string-walk :
    (secs : ℕ)
    → (h : ℕ) × (m : ℕ) × (s : ℕ) × (days : ℕ) × (h < 24)
      × (m < 60)
      × (s < 60)
      × (((days * 24 + h) * 60 + m) * 60 + s ≡ secs)
      × (utc_string secs ≡ stamp (walk days) h m s)
unfolding utc_string
utc_string-walk secs =
    let sod = secs % 86400 in
    (
      sod / 3600,
      sod / 60 % 60,
      sod % 60,
      secs / 86400,
      omega arith,
      omega arith,
      omega arith,
      omega arith,
      ap (λ t. stamp t (sod / 3600) (sod / 60 % 60) (sod % 60)) (civil-walk (secs / 86400)),
    )
