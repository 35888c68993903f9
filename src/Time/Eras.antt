-- ===== src/Time/Eras.antt =====
-- src/zrtools/zrt_time.h: eras, years and days, from the days since the epoch and back.
use zrtools.Prelude.{
  ℕ, ◌+◌, ◌-◌, ◌*◌, ◌/◌, ◌^◌, ◌≤◌, ◌<◌, ◌≡◌, refl, ap, arith, if◌then◌else◌, leb, wrap32, sub32,
}
use zrtools.Prelude.Int.{
  ℤ, pos, pos_part, ◌+ℤ◌, ◌-ℤ◌, ◌*ℤ◌, ◌/ℤ◌, ◌%ℤ◌, ◌≤ℤ◌, ◌<ℤ◌, to_u32, +ℤ_parts, -ℤ_parts, *ℤ_parts,
  /ℤ_parts, %ℤ_parts, eq_of_parts, parts_of_eq, one_part,
}
use zrtools.Time.Civil.{year_era, days_from_civil, day_era, year_of_era, era_days_before, month_of}
use zrtools.Time.Calendar.{
  year_of_era-lt, era_days_before-le, day_of_year-le, month_index, month_day, day_of_year-month_of,
}

-- The day of its era is below 146097.
day_era_range :
    (days : ℤ)
    → (pos 0 ≤ℤ days -ℤ day_era days *ℤ 146097) × (days -ℤ day_era days *ℤ 146097 <ℤ pos 146097)
unfolding day_era
day_era_range days = ground (
  arith,
  -ℤ_parts days (pos 146096),
  one_part (days -ℤ pos 146096),
  /ℤ_parts days 146097,
  /ℤ_parts (days -ℤ pos 146096) 146097,
  *ℤ_parts (days /ℤ 146097) 146097,
  *ℤ_parts ((days -ℤ pos 146096) /ℤ 146097) 146097,
  -ℤ_parts days (days /ℤ 146097 *ℤ 146097),
  -ℤ_parts days ((days -ℤ pos 146096) /ℤ 146097 *ℤ 146097),
  one_part days,
)

pub to_u32-range : (a : ℤ) → pos 0 ≤ℤ a → a <ℤ pos (2 ^ 32) → pos (to_u32 a) ≡ a
unfolding to_u32
to_u32-range a h l = ground arith

-- The year gives its era back.
year_era-year : (yoe : ℕ) (era : ℤ) → yoe < 400 → year_era (pos yoe +ℤ era *ℤ 400) ≡ era
unfolding year_era
year_era-year yoe era h = ground (
  arith,
  *ℤ_parts era 400,
  +ℤ_parts (pos yoe) (era *ℤ 400),
  one_part (pos yoe +ℤ era *ℤ 400),
  -ℤ_parts (pos yoe +ℤ era *ℤ 400) (pos 399),
  one_part (pos yoe +ℤ era *ℤ 400 -ℤ pos 399),
  /ℤ_parts (pos yoe +ℤ era *ℤ 400) 400,
  /ℤ_parts (pos yoe +ℤ era *ℤ 400 -ℤ pos 399) 400,
  one_part era,
  eq_of_parts ((pos yoe +ℤ era *ℤ 400) /ℤ 400) era,
  eq_of_parts ((pos yoe +ℤ era *ℤ 400 -ℤ pos 399) /ℤ 400) era,
)

-- January and February belong to the year before.
same_year :
    (y : ℤ) (mon : ℕ)
    → (let y0 = if leb mon 1 then y +ℤ pos 1 else y in if leb (mon + 1) 2 then y0 -ℤ pos 1 else y0)
      ≡ y
same_year y mon =
    ground (
      arith,
      eq_of_parts (y +ℤ pos 1 -ℤ pos 1) y,
      +ℤ_parts y (pos 1),
      -ℤ_parts (y +ℤ pos 1) (pos 1),
    )

year_of_era-year :
    (yoe : ℕ) (era : ℤ) → yoe < 400 → to_u32 ((pos yoe +ℤ era *ℤ 400) -ℤ era *ℤ 400) ≡ yoe
year_of_era-year yoe era h =
    let same : (pos yoe +ℤ era *ℤ 400) -ℤ era *ℤ 400 ≡ pos yoe = eq_of_parts _ _ (
      omega
        (arith, +ℤ_parts (pos yoe) (era *ℤ 400), -ℤ_parts (pos yoe +ℤ era *ℤ 400) (era *ℤ 400))) in
    rw same (small yoe h)
  where
    small : (n : ℕ) → n < 400 → to_u32 (pos n) ≡ n
    small n l = ap pos_part (to_u32-range (pos n) (omega arith) (omega arith))

-- The words of `doe` do not wrap.
day_of_era :
    (doe : ℕ)
    → doe < 146097
    → let yoe = year_of_era doe in
      wrap32 (sub32 (wrap32 (yoe * 365 + yoe / 4)) (yoe / 100) + (doe - era_days_before yoe)) ≡ doe
unfolding era_days_before
day_of_era doe h =
    let yoe = year_of_era doe in
    let before : 365 * yoe + yoe / 4 - yoe / 100 ≤ doe = era_days_before-le doe h in
    ground (arith, year_of_era-lt doe h)

-- The year, month and day of a day of an era.
pub days_from_civil-fields :
    (era : ℤ) (doe : ℕ)
    → doe < 146097
    → let yoe = year_of_era doe in
      let doy = doe - era_days_before yoe in
      let mon = month_of (month_index doy) in
      let y = pos yoe +ℤ era *ℤ 400 in
      days_from_civil (if leb mon 1 then y +ℤ pos 1 else y) (mon + 1) (month_day doy)
      ≡ era *ℤ 146097 +ℤ pos doe -ℤ pos 719468
unfolding days_from_civil
days_from_civil-fields era doe h =
    let yoe = year_of_era doe in
    let y = pos yoe +ℤ era *ℤ 400 in
    let doy = doe - era_days_before yoe in
    rw
      (
        same_year y (month_of (month_index doy)),
        year_era-year yoe era (year_of_era-lt doe h),
        year_of_era-year yoe era (year_of_era-lt doe h),
        day_of_year-month_of doy (day_of_year-le doe h),
        day_of_era doe h,
      )
      refl

-- The seconds of a day, which C++ gives the sign of the time.
pub day_seconds : (q : ℤ) → (q /ℤ 3600) *ℤ 3600 +ℤ ((q %ℤ 3600) /ℤ 60) *ℤ 60 +ℤ q %ℤ 60 ≡ q
day_seconds q = eq_of_parts _ _ (
    omega (
      arith,
      /ℤ_parts q 3600,
      *ℤ_parts (q /ℤ 3600) 3600,
      %ℤ_parts q 3600,
      /ℤ_parts (q %ℤ 3600) 60,
      *ℤ_parts ((q %ℤ 3600) /ℤ 60) 60,
      %ℤ_parts q 60,
      +ℤ_parts ((q /ℤ 3600) *ℤ 3600) (((q %ℤ 3600) /ℤ 60) *ℤ 60),
      +ℤ_parts ((q /ℤ 3600) *ℤ 3600 +ℤ ((q %ℤ 3600) /ℤ 60) *ℤ 60) (q %ℤ 60),
    ))

abbrev pub doe_of : ℤ → ℕ
doe_of days = to_u32 (days -ℤ day_era days *ℤ 146097)

doe_of-eq : (days : ℤ) → pos (doe_of days) ≡ days -ℤ day_era days *ℤ 146097
doe_of-eq days =
    let range = day_era_range days in
    to_u32-range (days -ℤ day_era days *ℤ 146097) range.0 (omega (arith, range))

pub doe_of-lt : (days : ℤ) → doe_of days < 146097
doe_of-lt days = omega (arith, day_era_range days, parts_of_eq _ _ (doe_of-eq days))

-- A day is its era and the day of it.
pub day-era :
    (days : ℤ) → day_era days *ℤ 146097 +ℤ pos (doe_of days) -ℤ pos 719468 ≡ days -ℤ pos 719468
day-era days =
    let inner : day_era days *ℤ 146097 +ℤ pos (doe_of days) ≡ days = eq_of_parts _ _ (
      omega (
        arith,
        parts_of_eq _ _ (doe_of-eq days),
        -ℤ_parts days (day_era days *ℤ 146097),
        +ℤ_parts (day_era days *ℤ 146097) (pos (doe_of days)),
      )) in
    ap (λ (d : ℤ). d -ℤ pos 719468) inner
