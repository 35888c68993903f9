-- ===== src/Time/Civil.antt =====
-- src/zrtools/zrt_time.h, namespace `detail`: a second of the epoch to calendar fields in UTC, and back.
-- `int64_t` and `int` values are integers, and only the conversion of the year to `int` is written as
-- one: the other fields are small. Unsigned arithmetic wraps at 32 bits.
use zrtools.Prelude.{
  ℕ, ◌+◌, ◌-◌, ◌*◌, ◌/◌, ◌^◌, Bool, ◌&&◌, ◌||◌, not, List, [], ◌∷◌, get_or, if◌then◌else◌, ltb, leb,
  wrap32, sub32,
}
use zrtools.Prelude.Int.{ℤ, pos, ◌+ℤ◌, ◌-ℤ◌, ◌*ℤ◌, ◌/ℤ◌, ◌%ℤ◌, ltb_ℤ, eqb_ℤ, to_u32, to_int}

-- `std::tm`, but for the fields that GNU adds.
pub record Tm : Type 0 where
  pub tm_sec : ℤ
  pub tm_min : ℤ
  pub tm_hour : ℤ
  pub tm_mday : ℤ
  pub tm_mon : ℤ
  pub tm_year : ℤ
  pub tm_wday : ℤ
  pub tm_yday : ℤ
  pub tm_isdst : ℤ

-- The era of 400 years, rounded down.
unfoldable pub year_era : ℤ → ℤ
year_era y = (if ltb_ℤ y (pos 0) then y -ℤ pos 399 else y) /ℤ 400

-- The day of the year that begins in March.
unfoldable pub day_of_year : ℕ → ℕ → ℕ
day_of_year m d =
    let mp = wrap32 (m + (if ltb 2 m then 2 ^ 32 - 3 else 9)) in
    sub32 (wrap32 (wrap32 (153 * mp + 2) / 5 + d)) 1

unfoldable pub days_from_civil : ℤ → ℕ → ℕ → ℤ
days_from_civil y0 m d =
    let y = if leb m 2 then y0 -ℤ pos 1 else y0 in
    let era = year_era y in
    let yoe = to_u32 (y -ℤ era *ℤ 400) in
    let doe = wrap32 (sub32 (wrap32 (yoe * 365 + yoe / 4)) (yoe / 100) + day_of_year m d) in
    era *ℤ 146097 +ℤ pos doe -ℤ pos 719468

unfoldable pub fast_timegm : Tm → ℤ
fast_timegm tm =
    let days =
      days_from_civil (tm.tm_year +ℤ pos 1900) (to_u32 (tm.tm_mon +ℤ pos 1)) (to_u32 tm.tm_mday) in
    days *ℤ 86400 +ℤ tm.tm_hour *ℤ 3600 +ℤ tm.tm_min *ℤ 60 +ℤ tm.tm_sec

-- Days since the epoch, rounded down.
unfoldable pub epoch_days : ℤ → ℤ
epoch_days z =
    if ltb_ℤ z (pos 0) && not (eqb_ℤ (z %ℤ 86400) (pos 0)) then z /ℤ 86400 -ℤ pos 1 else z /ℤ 86400

unfoldable pub day_era : ℤ → ℤ
day_era days = (if ltb_ℤ days (pos 0) then days -ℤ pos 146096 else days) /ℤ 146097

-- Years, and the days before them, within an era.
unfoldable pub year_of_era : ℕ → ℕ
year_of_era doe = (doe - doe / 1460 + doe / 36524 - doe / 146096) / 365

unfoldable pub era_days_before : ℕ → ℕ
era_days_before yoe = 365 * yoe + yoe / 4 - yoe / 100

unfoldable pub month_days : List ℕ
month_days = 0 ∷ 31 ∷ 59 ∷ 90 ∷ 120 ∷ 151 ∷ 181 ∷ 212 ∷ 243 ∷ 273 ∷ 304 ∷ 334 ∷ []

unfoldable pub is_leap : ℤ → Bool
is_leap y = eqb_ℤ (y %ℤ 4) (pos 0) && (not (eqb_ℤ (y %ℤ 100) (pos 0)) || eqb_ℤ (y %ℤ 400) (pos 0))

-- `mp < 10 ? mp + 2 : mp - 10`.
abbrev pub month_of : ℕ → ℕ
month_of mp = if ltb mp 10 then mp + 2 else sub32 mp 10

unfoldable pub week_day : ℤ → ℤ
week_day orig_days =
    let wday = (orig_days +ℤ pos 4) %ℤ 7 in if ltb_ℤ wday (pos 0) then wday +ℤ pos 7 else wday

unfoldable pub civil_from_epoch_utc : ℤ → Tm
civil_from_epoch_utc z =
    let day_seconds = z %ℤ 86400 in
    let days = epoch_days z +ℤ pos 719468 in
    let era = day_era days in
    let doe = to_u32 (days -ℤ era *ℤ 146097) in
    let yoe = year_of_era doe in
    let y = pos yoe +ℤ era *ℤ 400 in
    let doy = sub32 doe (era_days_before yoe) in
    let mp = wrap32 (5 * doy + 2) / 153 in
    let mday = wrap32 (sub32 doy ((153 * mp + 2) / 5) + 1) in
    let mon = month_of mp in
    let yday = pos (get_or month_days mon 0 + mday) -ℤ pos 1 in
    record {
      tm_sec = day_seconds %ℤ 60;
      tm_min = (day_seconds %ℤ 3600) /ℤ 60;
      tm_hour = day_seconds /ℤ 3600;
      tm_mday = pos mday;
      tm_mon = pos mon;
      tm_year = to_int (if leb mon 1 then y +ℤ pos 1 else y) -ℤ pos 1900;
      tm_wday = week_day (z /ℤ 86400);
      tm_yday = if ltb 1 mon && is_leap y then yday +ℤ pos 1 else yday;
      tm_isdst = pos 0;
    }
