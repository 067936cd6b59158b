-- ===== src/Clock/Days.antt =====
-- The days of src/kernel/time.c against a calendar.
use nupkux.Base.{
  ℕ, zero, suc, ◌+◌, ◌-◌, ◌*◌, ◌≡◌, refl, sym, ◌∙◌, ap, ap₂, ◌||◌, ◌≤◌, ◌<◌, ◌==◌, ◌%◌, ltb, leb,
  if◌then◌else◌, Bool, true, arith,
}
use nupkux.Clock.{date_bcd, is_leap, year_day, leap_years, last_year, days_since}

-- `DateBCD` reads two decimal digits.
pub date_bcd_lem :
    (tens ones : ℕ) → tens < 10 → ones < 10 → date_bcd (16 * tens + ones) true ≡ 10 * tens + ones
unfolding date_bcd
date_bcd_lem tens ones h h' = ground (arith, h, h')

-- The days of the months.
abbrev pub month_days : Bool → ℕ → ℕ
month_days leap mon =
    if mon == 2
    then (if leap then 29 else 28)
    else if mon == 4 || mon == 6 || mon == 9 || mon == 11
    then 30
    else 31

-- The days in front of a month.
abbrev pub days_before : Bool → ℕ → ℕ
days_before leap zero = 0
days_before leap (suc zero) = 0
days_before leap (suc (suc mon)) = month_days leap (suc mon) + days_before leap (suc mon)

-- `tm_yday` is the number of days in front of the date in its year.
pub year_day_lem :
    (leap : Bool) (mon mday : ℕ)
    → 1 ≤ mon
    → mon ≤ 12
    → year_day leap mon mday ≡ days_before leap mon + (mday - 1)
unfolding year_day
year_day_lem leap zero mday h h' = absurd (omega arith)
year_day_lem leap (suc zero) mday h h' = ground arith
year_day_lem leap (suc (suc zero)) mday h h' = ground arith
year_day_lem leap (suc (suc (suc zero))) mday h h' = ground arith
year_day_lem leap (suc (suc (suc (suc zero)))) mday h h' = ground arith
year_day_lem leap (suc (suc (suc (suc (suc zero))))) mday h h' = ground arith
year_day_lem leap (suc (suc (suc (suc (suc (suc zero)))))) mday h h' = ground arith
year_day_lem leap (suc (suc (suc (suc (suc (suc (suc zero))))))) mday h h' = ground arith
year_day_lem leap (suc (suc (suc (suc (suc (suc (suc (suc zero)))))))) mday h h' = ground arith
year_day_lem leap (suc (suc (suc (suc (suc (suc (suc (suc (suc zero))))))))) mday h h' =
    ground arith
year_day_lem leap (suc (suc (suc (suc (suc (suc (suc (suc (suc (suc zero)))))))))) mday h h' =
    ground arith
year_day_lem leap (suc (suc (suc (suc (suc (suc (suc (suc (suc (suc (suc zero))))))))))) mday h h' =
    ground arith
year_day_lem leap (suc (suc (suc (suc (suc (suc (suc (suc (suc (suc (suc (suc zero)))))))))))) mday
      h h' =
    ground arith
year_day_lem leap (suc (suc (suc (suc (suc (suc (suc (suc (suc (suc (suc (suc (suc n)))))))))))))
      mday h h' =
    absurd (omega arith)

-- The days of a year of the Gregorian calendar.
abbrev pub days_of_year : ℕ → ℕ
days_of_year y =
    if y % 400 == 0 then 366 else if y % 100 == 0 then 365 else if y % 4 == 0 then 366 else 365

-- The days of `n` years from 1970 on.
abbrev pub days_of_years : ℕ → ℕ
days_of_years zero = 0
days_of_years (suc n) = days_of_year (1970 + n) + days_of_years n

-- The test of the code gives a leap year one day more.
days_of_year-is_leap : (y : ℕ) → days_of_year y ≡ 365 + (if is_leap y then 1 else 0)
days_of_year-is_leap y = ground arith

-- The year of two digits: from 1970 to 2069.
abbrev pub full_year : ℕ → ℕ
full_year year = if ltb year 70 then 2000 + year else 1900 + year

days_of_years-leap_years : (n : ℕ) → days_of_years n ≡ n * 365 + leap_years n
unfolding leap_years
days_of_years-leap_years zero = refl
days_of_years-leap_years (suc n) =
    omega (arith, days_of_years-leap_years n, days_of_year-is_leap (1970 + n))

-- The days of `mktime` are those of all years from 1970 up to the given one, by the Gregorian calendar, and
-- the days in it.
pub days_since_lem :
    (year yday : ℕ)
    → year < 100
    → days_since year yday ≡ days_of_years (full_year year - 1970) + yday
unfolding days_since
days_since_lem year yday h =
    let last : last_year year - 1969 ≡ full_year year - 1970 = ground (arith, h) in
    let plain : (if leb 70 year then (year - 70) * 365 else (year + 30) * 365)
        ≡ (full_year year - 1970) * 365 =
      ground (arith, h) in
    ap₂ (λ a b. a + leap_years b + yday) plain last
    ∙ ap (λ a. a + yday) (sym (days_of_years-leap_years (full_year year - 1970)))
