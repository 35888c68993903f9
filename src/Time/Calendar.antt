-- ===== src/Time/Calendar.antt =====
-- The days of an era of src/zrtools/zrt_time.h: 400 years that begin in March.
use zrtools.Prelude.{ℕ, suc, ◌+◌, ◌-◌, ◌*◌, ◌/◌, ◌≤◌, ◌<◌, ◌≡◌, arith}
use zrtools.Time.Civil.{year_of_era, era_days_before, day_of_year, month_of}

pub year_of_era-lt : (doe : ℕ) → doe < 146097 → year_of_era doe < 400
unfolding year_of_era
year_of_era-lt doe h = omega arith

pub era_days_before-le : (doe : ℕ) → doe < 146097 → era_days_before (year_of_era doe) ≤ doe
unfolding year_of_era era_days_before
era_days_before-le doe h = omega arith

pub day-lt : (doe : ℕ) → doe < 146097 → doe < era_days_before (suc (year_of_era doe)) + 1
unfolding year_of_era era_days_before
day-lt doe h = omega arith

-- The last year of an era has one day more.
pub day_of_year-le : (doe : ℕ) → doe < 146097 → doe - era_days_before (year_of_era doe) ≤ 365
unfolding year_of_era era_days_before
day_of_year-le doe h = omega arith

abbrev pub month_index : ℕ → ℕ
month_index doy = (5 * doy + 2) / 153

abbrev pub month_day : ℕ → ℕ
month_day doy = doy - (153 * month_index doy + 2) / 5 + 1

-- A day of the year has one month and one day of the month, which give it back.
pub day_of_year-month_of :
    (doy : ℕ) → doy ≤ 365 → day_of_year (month_of (month_index doy) + 1) (month_day doy) ≡ doy
unfolding day_of_year
day_of_year-month_of doy h = ground arith

pub month_of-lt : (doy : ℕ) → doy ≤ 365 → month_of (month_index doy) < 12
month_of-lt doy h = ground arith
