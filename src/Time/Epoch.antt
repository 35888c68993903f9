-- ===== src/Time/Epoch.antt =====
-- src/zrtools/zrt_time.h: `fast_timegm` of the fields that `civil_from_epoch_utc` gives.
use zrtools.Prelude.{
  ℕ, ◌+◌, ◌-◌, ◌*◌, ◌/◌, ◌^◌, ◌≤◌, ◌<◌, ◌≡◌, ◌≢◌, ◌⊎◌, refl, ap, arith, if◌then◌else◌, leb, wrap32,
  sub32,
}
use zrtools.Prelude.Int.{
  ℤ, pos, pos_part, neg_part, ◌+ℤ◌, ◌-ℤ◌, ◌*ℤ◌, ◌/ℤ◌, ◌%ℤ◌, ◌≤ℤ◌, ◌<ℤ◌, to_u32, to_int,
  to_int-small, +ℤ_parts, -ℤ_parts, *ℤ_parts, /ℤ_parts, %ℤ_parts, eq_of_parts, parts_of_eq,
  one_part,
}
use zrtools.Time.Civil.{
  days_from_civil, fast_timegm, epoch_days, day_era, year_of_era, era_days_before, month_of,
  civil_from_epoch_utc,
}
use zrtools.Time.Calendar.{
  year_of_era-lt, era_days_before-le, day_of_year-le, month_index, month_day, month_of-lt,
}
use zrtools.Time.Eras.{
  days_from_civil-fields, day_seconds, doe_of, doe_of-lt, day-era, to_u32-range,
}

-- Seconds whose year fits `int`.
abbrev pub InRange : ℤ → Type 0
InRange z = (pos_part z < 2 ^ 55) × (neg_part z < 2 ^ 55)

abbrev days_of : ℤ → ℤ
days_of z = epoch_days z +ℤ pos 719468

abbrev doy_of : ℕ → ℕ
doy_of doe = doe - era_days_before (year_of_era doe)

-- The words that the fields are computed in do not wrap.
doy_word : (doe : ℕ) → doe < 146097 → sub32 doe (era_days_before (year_of_era doe)) ≡ doy_of doe
doy_word doe h = omega (arith, era_days_before-le doe h)

month_word : (doy : ℕ) → doy ≤ 365 → wrap32 (5 * doy + 2) / 153 ≡ month_index doy
month_word doy h = omega arith

day_word :
    (doy : ℕ) → doy ≤ 365 → wrap32 (sub32 doy ((153 * month_index doy + 2) / 5) + 1) ≡ month_day doy
day_word doy h = omega arith

pos-small : (n : ℕ) → n < 2 ^ 32 → to_u32 (pos n) ≡ n
pos-small n h = ap pos_part (to_u32-range (pos n) (omega arith) (omega arith))

pos-next : (n : ℕ) → n < 12 → to_u32 (pos n +ℤ pos 1) ≡ n + 1
pos-next n h =
    let sum : pos n +ℤ pos 1 ≡ pos (n + 1) =
      eq_of_parts _ _ (omega (arith, +ℤ_parts (pos n) (pos 1))) in
    rw sum (pos-small (n + 1) (omega arith))

day_era-small :
    (z : ℤ)
    → InRange z
    → (pos_part (day_era (days_of z)) < 2 ^ 22) × (neg_part (day_era (days_of z)) < 2 ^ 22)
unfolding day_era epoch_days
day_era-small z h = ground (
  arith,
  one_part z,
  /ℤ_parts z 86400,
  -ℤ_parts (z /ℤ 86400) (pos 1),
  one_part (z /ℤ 86400 -ℤ pos 1),
  +ℤ_parts (z /ℤ 86400) (pos 719468),
  one_part (z /ℤ 86400 +ℤ pos 719468),
  one_part (z /ℤ 86400 -ℤ pos 1 +ℤ pos 719468),
  +ℤ_parts (z /ℤ 86400 -ℤ pos 1) (pos 719468),
  /ℤ_parts (z /ℤ 86400 +ℤ pos 719468) 146097,
  /ℤ_parts (z /ℤ 86400 -ℤ pos 1 +ℤ pos 719468) 146097,
  -ℤ_parts (z /ℤ 86400 +ℤ pos 719468) (pos 146096),
  -ℤ_parts (z /ℤ 86400 -ℤ pos 1 +ℤ pos 719468) (pos 146096),
  one_part (z /ℤ 86400 +ℤ pos 719468 -ℤ pos 146096),
  one_part (z /ℤ 86400 -ℤ pos 1 +ℤ pos 719468 -ℤ pos 146096),
  /ℤ_parts (z /ℤ 86400 +ℤ pos 719468 -ℤ pos 146096) 146097,
  /ℤ_parts (z /ℤ 86400 -ℤ pos 1 +ℤ pos 719468 -ℤ pos 146096) 146097,
)

-- The year fits `int`, and 1900 comes and goes.
year-back :
    (z : ℤ) (mon : ℕ)
    → InRange z
    → let yoe = year_of_era (doe_of (days_of z)) in
      let y = pos yoe +ℤ day_era (days_of z) *ℤ 400 in
      let y0 = if leb mon 1 then y +ℤ pos 1 else y in to_int y0 -ℤ pos 1900 +ℤ pos 1900 ≡ y0
year-back z mon h =
    let yoe = year_of_era (doe_of (days_of z)) in
    let y = pos yoe +ℤ day_era (days_of z) *ℤ 400 in
    let year_small : (pos_part y + 400 < 2 ^ 31) × (neg_part y < 2 ^ 31) = ground (
      arith,
      day_era-small z h,
      year_of_era-lt (doe_of (days_of z)) (doe_of-lt (days_of z)),
      *ℤ_parts (day_era (days_of z)) 400,
      +ℤ_parts (pos yoe) (day_era (days_of z) *ℤ 400),
      one_part y,
    ) in
    let next = +ℤ_parts y (pos 1) in
    let one = one_part (y +ℤ pos 1) in
    restored (if leb mon 1 then y +ℤ pos 1 else y) (ground arith) (ground arith)
  where
    restored :
        (n : ℤ) → neg_part n ≤ 2 ^ 31 → pos_part n < 2 ^ 31 → to_int n -ℤ pos 1900 +ℤ pos 1900 ≡ n
    restored n l m = rw (to_int-small n l m) (
        eq_of_parts _ _ (omega (arith, -ℤ_parts n (pos 1900), +ℤ_parts (n -ℤ pos 1900) (pos 1900))))

-- The date of a second, turned into days.
days_from_civil-civil :
    (z : ℤ)
    → InRange z
    → let tm = civil_from_epoch_utc z in
      days_from_civil (tm.tm_year +ℤ pos 1900) (to_u32 (tm.tm_mon +ℤ pos 1)) (to_u32 tm.tm_mday)
      ≡ epoch_days z
unfolding civil_from_epoch_utc
days_from_civil-civil z h =
    let doe = doe_of (days_of z) in
    let small = doe_of-lt (days_of z) in
    let doy = doy_of doe in
    let fits = day_of_year-le doe small in
    rw
      (
        doy_word doe small,
        month_word doy fits,
        day_word doy fits,
        pos-next (month_of (month_index doy)) (month_of-lt doy fits),
        pos-small (month_day doy) (omega arith),
        year-back z (month_of (month_index doy)) h,
        days_from_civil-fields (day_era (days_of z)) doe small,
        day-era (days_of z),
      )
      (eq_of_parts _ _
        (omega (arith, +ℤ_parts (epoch_days z) (pos 719468), -ℤ_parts (days_of z) (pos 719468))))

hour_is : (z : ℤ) → (civil_from_epoch_utc z).tm_hour ≡ (z %ℤ 86400) /ℤ 3600
unfolding civil_from_epoch_utc
hour_is z = refl

min_is : (z : ℤ) → (civil_from_epoch_utc z).tm_min ≡ ((z %ℤ 86400) %ℤ 3600) /ℤ 60
unfolding civil_from_epoch_utc
min_is z = refl

sec_is : (z : ℤ) → (civil_from_epoch_utc z).tm_sec ≡ (z %ℤ 86400) %ℤ 60
unfolding civil_from_epoch_utc
sec_is z = refl

-- Any time is turned into its day, rounded down, and the seconds that C++ finds in it.
fast_timegm-parts :
    (z : ℤ) → InRange z → fast_timegm (civil_from_epoch_utc z) ≡ epoch_days z *ℤ 86400 +ℤ z %ℤ 86400
unfolding fast_timegm
fast_timegm-parts z h =
    rw (days_from_civil-civil z h, hour_is z, min_is z, sec_is z)
      (eq_of_parts _ _ (
        omega (
          arith,
          parts_of_eq _ _ (day_seconds q),
          +ℤ_parts (epoch_days z *ℤ 86400) (q /ℤ 3600 *ℤ 3600),
          +ℤ_parts (epoch_days z *ℤ 86400 +ℤ q /ℤ 3600 *ℤ 3600) ((q %ℤ 3600) /ℤ 60 *ℤ 60),
          +ℤ_parts (epoch_days z *ℤ 86400 +ℤ q /ℤ 3600 *ℤ 3600 +ℤ (q %ℤ 3600) /ℤ 60 *ℤ 60)
              (q %ℤ 60),
          +ℤ_parts (q /ℤ 3600 *ℤ 3600) ((q %ℤ 3600) /ℤ 60 *ℤ 60),
          +ℤ_parts (q /ℤ 3600 *ℤ 3600 +ℤ (q %ℤ 3600) /ℤ 60 *ℤ 60) (q %ℤ 60),
          +ℤ_parts (epoch_days z *ℤ 86400) q,
        )))
  where
    q : ℤ
    q = z %ℤ 86400

-- A time in range that is not before the epoch, or that is a whole number of days, is what
-- fast_timegm gives for the fields that civil_from_epoch_utc gives for it.
pub fast_timegm-civil :
    (z : ℤ)
    → InRange z
    → (pos 0 ≤ℤ z) ⊎ (z %ℤ 86400 ≡ pos 0)
    → fast_timegm (civil_from_epoch_utc z) ≡ z
unfolding epoch_days
fast_timegm-civil z h whole = rw (fast_timegm-parts z h) (day_back whole)
  where
    day_back : (pos 0 ≤ℤ z) ⊎ (z %ℤ 86400 ≡ pos 0) → epoch_days z *ℤ 86400 +ℤ z %ℤ 86400 ≡ z
    day_back whole = ground (
      arith,
      one_part z,
      /ℤ_parts z 86400,
      %ℤ_parts z 86400,
      *ℤ_parts (z /ℤ 86400) 86400,
      +ℤ_parts (z /ℤ 86400 *ℤ 86400) (z %ℤ 86400),
      parts_of_eq (z %ℤ 86400) (pos 0),
      eq_of_parts (z /ℤ 86400 *ℤ 86400 +ℤ z %ℤ 86400) z,
    )

-- A time in range before the epoch that is not a whole number of days loses a day when it is
-- turned into fields and back.
pub fast_timegm-civil_before :
    (z : ℤ)
    → InRange z
    → z <ℤ pos 0
    → z %ℤ 86400 ≢ pos 0
    → fast_timegm (civil_from_epoch_utc z) ≡ z -ℤ pos 86400
unfolding epoch_days
fast_timegm-civil_before z h before part = rw (fast_timegm-parts z h) (
    ground (
      arith,
      one_part z,
      /ℤ_parts z 86400,
      %ℤ_parts z 86400,
      -ℤ_parts (z /ℤ 86400) (pos 1),
      *ℤ_parts (z /ℤ 86400 -ℤ pos 1) 86400,
      +ℤ_parts ((z /ℤ 86400 -ℤ pos 1) *ℤ 86400) (z %ℤ 86400),
      -ℤ_parts z (pos 86400),
      eq_of_parts (z %ℤ 86400) (pos 0),
      eq_of_parts ((z /ℤ 86400 -ℤ pos 1) *ℤ 86400 +ℤ z %ℤ 86400) (z -ℤ pos 86400),
    ))
