-- ===== src/Clock/Tests.antt =====
-- Concrete dates, and the theorems applied to them.
use nupkux.Base.{◌≡◌, refl, ◌+◌, ◌-◌, true, arith}
use nupkux.Clock.{year_day, days_since}
use nupkux.Clock.Days.{days_of_years, full_year, days_since_lem}

-- 1 March 2008 is the day 60 of its year, counted from 0.
leap_march : year_day true 3 1 ≡ 60
unfolding year_day
leap_march = refl

days_since_lem_example : days_since 8 60 ≡ days_of_years (full_year 8 - 1970) + 60
days_since_lem_example = days_since_lem 8 60 (omega arith)
