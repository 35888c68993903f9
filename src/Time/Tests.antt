-- ===== src/Time/Tests.antt =====
-- Runs of src/zrtools/zrt_time.h, and its theorems at concrete times.
use zrtools.Prelude.{◌≡◌, inl, refl, arith, List, [], ◌∷◌}
use zrtools.Prelude.Int.{ℤ, pos, negsuc, ◌+ℤ◌, ◌-ℤ◌, ◌*ℤ◌, ◌/ℤ◌, ◌%ℤ◌, to_u32, to_int, parts_of_eq}
use zrtools.Time.Civil.{
  fast_timegm, epoch_days, day_era, year_of_era, era_days_before, month_days, is_leap, week_day,
  civil_from_epoch_utc,
}
use zrtools.Time.Epoch.{fast_timegm-civil, fast_timegm-civil_before}
use zrtools.Time.DateTime.{
  utc, new_at, zero_tm, update_tm, hms_of, ymd_of, get_hms, get_ymd, set_hour, set_min, set_sec,
  offset_sec,
}
use zrtools.Time.Cached.{Call, read_fields, hour, later_sec, IsCoherent}
use zrtools.Time.Clock.{IsAt, get-set_clock}

-- Tuesday, 2023-11-14 22:13:20.
abbrev autumn : ℤ
autumn = pos 1700000000

autumn_date : ymd_of (civil_from_epoch_utc autumn) ≡ pos 20231114
unfolding ymd_of civil_from_epoch_utc epoch_days day_era year_of_era era_days_before month_days
    is_leap week_day ◌+ℤ◌ ◌-ℤ◌ ◌*ℤ◌ ◌/ℤ◌ ◌%ℤ◌ to_u32 to_int
autumn_date = refl

autumn_week_day : (civil_from_epoch_utc autumn).tm_wday ≡ pos 2
unfolding civil_from_epoch_utc week_day ◌+ℤ◌ ◌-ℤ◌ ◌*ℤ◌ ◌/ℤ◌ ◌%ℤ◌
autumn_week_day = refl

-- The second before the epoch is a Wednesday, and is given as a Thursday at 00:00:-1.
before_week_day : (civil_from_epoch_utc (negsuc 0)).tm_wday ≡ pos 4
unfolding civil_from_epoch_utc week_day ◌+ℤ◌ ◌-ℤ◌ ◌*ℤ◌ ◌/ℤ◌ ◌%ℤ◌
before_week_day = refl

before_sec : (civil_from_epoch_utc (negsuc 0)).tm_sec ≡ negsuc 0
unfolding civil_from_epoch_utc ◌/ℤ◌ ◌%ℤ◌
before_sec = refl

-- The getters of a time that reaches -1 are those of the fields that were there.
stale : (get_hms utc (offset_sec (negsuc 0) (new_at (pos 0) (pos 0)))).1 ≡ pos 0
unfolding get_hms offset_sec new_at update_tm hms_of zero_tm ◌+ℤ◌ ◌*ℤ◌
stale = refl

fast_timegm-civil_example : fast_timegm (civil_from_epoch_utc autumn) ≡ autumn
fast_timegm-civil_example = fast_timegm-civil autumn (omega arith, omega arith) (inl (omega arith))

fast_timegm-civil_before_example :
    fast_timegm (civil_from_epoch_utc (negsuc 0)) ≡ negsuc 0 -ℤ pos 86400
unfolding ◌%ℤ◌
fast_timegm-civil_before_example =
    fast_timegm-civil_before (negsuc 0) (omega arith, omega arith) (omega arith)
      (λ e. absurd (omega (arith, parts_of_eq _ _ e)))

abbrev some_calls : List Call
some_calls = read_fields ∷ hour (pos 5) ∷ read_fields ∷ later_sec (pos 3) ∷ []

autumn-IsAt : IsAt 1700000000 (new_at autumn (pos 0))
unfolding new_at IsCoherent
autumn-IsAt = record { second = refl; coherent = inl refl; in_range = omega arith }

get-set_clock_example :
    let dt = new_at autumn (pos 0) in
    let later = set_sec utc (pos 58) (set_min utc (pos 59) (set_hour utc (pos 7) dt)) in
    ((get_hms utc later).1 ≡ pos 75958) × ((get_ymd utc later).1 ≡ (get_ymd utc dt).1)
get-set_clock_example =
    get-set_clock 1700000000 7 59 58 (new_at autumn (pos 0)) autumn-IsAt (omega arith) (omega arith)
      (omega arith)
