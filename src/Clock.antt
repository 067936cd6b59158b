-- ===== src/Clock.antt =====
-- The calendar of src/kernel/time.c: what `getrtctime` and `mktime` compute from the clock's bytes.
pub mod Days
mod Tests
use nupkux.Base.{
  ℕ, zero, suc, ◌+◌, ◌-◌, ◌*◌, ◌/◌, ◌%◌, ◌^◌, ◌==◌, ltb, leb, if◌then◌else◌, Bool, true, false, not,
  ◌&&◌, ◌||◌,
}

-- `DateBCD`; -1 is 255 as a UCHAR.
unfoldable pub date_bcd : ℕ → Bool → ℕ
date_bcd value false = value
date_bcd value true =
    if ltb 9 (value % 16) || ltb 9 (value / 16 % 16)
    then 255
    else value % 16 + 10 * (value / 16 % 16)

-- `(!(y % 4) && (y % 100)) || (!(y % 400))`
abbrev pub is_leap : ℕ → Bool
is_leap y = (y % 4 == 0 && not (y % 100 == 0)) || y % 400 == 0

-- `tm_yday` of `getrtctime` in a month from 1 on and a day from 1 on; `leap` is the test of the year.
unfoldable pub year_day : Bool → ℕ → ℕ → ℕ
year_day leap mon mday =
    (mon - 1) * 30
    - (if ltb 2 mon then 2 else 0)
    + (if ltb mon 7 then mon / 2 else if mon == 7 then 3 else (mon - 7) / 2 + 4)
    + (mday - 1)
    + (if leap && ltb 2 mon then 1 else 0)

-- The loop of `mktime`: the leap years among the `n` years from 1970 on.
unfoldable pub leap_years : ℕ → ℕ
leap_years zero = 0
leap_years (suc n) = (if is_leap (1970 + n) then 1 else 0) + leap_years n

-- `i = tm_year + 1899; if (i < 1969) i += 100;`
abbrev pub last_year : ℕ → ℕ
last_year year = if ltb (year + 1899) 1969 then year + 1999 else year + 1899

-- The days of `mktime`, from a year of two digits.
unfoldable pub days_since : ℕ → ℕ → ℕ
days_since year yday =
    (if leb 70 year then (year - 70) * 365 else (year + 30) * 365)
    + leap_years (last_year year - 1969)
    + yday

-- `mktime`, with an hour that is not negative; the result has 32 bits.
unfoldable pub mktime : ℕ → ℕ → ℕ → ℕ → ℕ → ℕ
mktime year yday hour min sec =
    (((days_since year yday * 24 + hour) * 60 + min) * 60 + sec) % 2 ^ 32
