-- ===== src/Time/DateTime.antt =====
-- src/zrtools/zrt_time.h and zrt_time-inl.h, class `DateTime`: a point in time that keeps the
-- calendar fields of the second that it converted last.
use zrtools.Prelude.{not, ℕ, ◌*◌, ◌≡◌, refl, Bool, if◌then◌else◌, ◌==◌}
use zrtools.Prelude.Int.{ℤ, pos, negsuc, ◌+ℤ◌, ◌-ℤ◌, ◌*ℤ◌, ◌/ℤ◌, ◌%ℤ◌, ltb_ℤ, eqb_ℤ}
use zrtools.Time.Civil.{Tm, civil_from_epoch_utc, fast_timegm}

abbrev pub kilo : ℕ
kilo = 1000

abbrev pub mega : ℕ
mega = kilo * 1000

abbrev pub giga : ℕ
giga = mega * 1000

-- `TMUpdater` and `TSUpdater` of a time zone. The first is given the fields that it overwrites; what
-- it gives does not depend on them, as `localtime_r` documents.
pub record Zone : Type 0 where
  pub to_tm : ℤ → Tm → Tm
  pub to_epoch : Tm → ℤ
  pub to_tm_fresh : (z : ℤ) (old old' : Tm) → to_tm z old ≡ to_tm z old'

unfoldable pub utc : Zone
utc = record {
  to_tm = λ z old. civil_from_epoch_utc z;
  to_epoch = fast_timegm;
  to_tm_fresh = λ z old old'. refl;
}

-- The class's members.
pub record DateTime : Type 0 where
  pub tv_sec : ℤ
  pub tv_nsec : ℤ
  pub tm : Tm
  pub cached_epoch : ℤ

abbrev pub minus_one : ℤ
minus_one = negsuc 0

unfoldable pub zero_tm : Tm
zero_tm = record {
  tm_sec = pos 0;
  tm_min = pos 0;
  tm_hour = pos 0;
  tm_mday = pos 0;
  tm_mon = pos 0;
  tm_year = pos 0;
  tm_wday = pos 0;
  tm_yday = pos 0;
  tm_isdst = pos 0;
}

unfoldable pub new_at : ℤ → ℤ → DateTime
new_at sec nsec = record { tv_sec = sec; tv_nsec = nsec; tm = zero_tm; cached_epoch = minus_one }

-- `DateTime(epoch, digits)`; other digits than these leave the time at zero.
unfoldable pub from_digits : ℤ → ℕ → DateTime
from_digits epoch digits =
    if digits == 10
    then new_at epoch (pos 0)
    else if digits == 13
    then new_at (epoch /ℤ kilo) (epoch %ℤ kilo *ℤ mega)
    else if digits == 16
    then new_at (epoch /ℤ mega) (epoch %ℤ mega *ℤ kilo)
    else if digits == 19
    then new_at (epoch /ℤ giga) (epoch %ℤ giga)
    else new_at (pos 0) (pos 0)

unfoldable pub epoch19 : DateTime → ℤ
epoch19 dt = dt.tv_sec *ℤ giga +ℤ dt.tv_nsec

unfoldable pub epoch16 : DateTime → ℤ
epoch16 dt = epoch19 dt /ℤ 1000

unfoldable pub epoch13 : DateTime → ℤ
epoch13 dt = epoch19 dt /ℤ 1000 /ℤ 1000

unfoldable pub epoch10 : DateTime → ℤ
epoch10 dt = dt.tv_sec

-- The comparisons.
unfoldable pub lt : DateTime → DateTime → Bool
lt a b = ltb_ℤ (epoch19 a) (epoch19 b)

unfoldable pub eq : DateTime → DateTime → Bool
eq a b = eqb_ℤ (epoch19 a) (epoch19 b)

unfoldable pub gt : DateTime → DateTime → Bool
gt a b = ltb_ℤ (epoch19 b) (epoch19 a)

unfoldable pub le : DateTime → DateTime → Bool
le a b = not (ltb_ℤ (epoch19 b) (epoch19 a))

unfoldable pub ge : DateTime → DateTime → Bool
ge a b = not (ltb_ℤ (epoch19 a) (epoch19 b))

unfoldable pub diff_sec : DateTime → DateTime → ℤ
diff_sec a b = epoch10 a -ℤ epoch10 b

unfoldable pub diff_mill : DateTime → DateTime → ℤ
diff_mill a b = epoch13 a -ℤ epoch13 b

unfoldable pub diff_micro : DateTime → DateTime → ℤ
diff_micro a b = epoch16 a -ℤ epoch16 b

unfoldable pub diff_nano : DateTime → DateTime → ℤ
diff_nano a b = epoch19 a -ℤ epoch19 b

-- `get_epoch19` and the others, of what the clock gives.
unfoldable pub get_epoch19 : ℤ → ℤ → ℤ
get_epoch19 sec nsec = sec *ℤ giga +ℤ nsec

unfoldable pub get_epoch16 : ℤ → ℤ → ℤ
get_epoch16 sec nsec = get_epoch19 sec nsec /ℤ kilo

unfoldable pub get_epoch13 : ℤ → ℤ → ℤ
get_epoch13 sec nsec = get_epoch19 sec nsec /ℤ mega

unfoldable pub get_epoch10 : ℤ → ℤ → ℤ
get_epoch10 sec nsec = get_epoch19 sec nsec /ℤ giga

unfoldable pub update_tm : Zone → DateTime → DateTime
update_tm zone dt =
    if eqb_ℤ dt.tv_sec dt.cached_epoch
    then dt
    else record dt { tm = zone.to_tm dt.tv_sec dt.tm; cached_epoch = dt.tv_sec }

unfoldable pub update_epoch : Zone → DateTime → DateTime
update_epoch zone dt = record dt { tv_sec = zone.to_epoch dt.tm; cached_epoch = minus_one }

-- What the getters make of the fields.
unfoldable pub hms_of : Tm → ℤ
hms_of t = t.tm_hour *ℤ 10000 +ℤ t.tm_min *ℤ 100 +ℤ t.tm_sec

unfoldable pub ymd_of : Tm → ℤ
ymd_of t = (t.tm_year +ℤ pos 1900) *ℤ 10000 +ℤ (t.tm_mon +ℤ pos 1) *ℤ 100 +ℤ t.tm_mday

unfoldable pub get_hms : Zone → DateTime → DateTime × ℤ
get_hms zone dt = let now = update_tm zone dt in (now, hms_of now.tm)

unfoldable pub get_ymd : Zone → DateTime → DateTime × ℤ
get_ymd zone dt = let now = update_tm zone dt in (now, ymd_of now.tm)

unfoldable pub get_ymd_hms : Zone → DateTime → DateTime × ℤ
get_ymd_hms zone dt = let now = update_tm zone dt in (now, ymd_of now.tm *ℤ mega +ℤ hms_of now.tm)

-- A setter brings the fields up to date, changes one of them and converts them back.
unfoldable pub set_year : Zone → ℤ → DateTime → DateTime
set_year zone year dt =
    let now = update_tm zone dt in
    update_epoch zone (record now { tm = record now.tm { tm_year = year -ℤ pos 1900 } })

unfoldable pub set_mon : Zone → ℤ → DateTime → DateTime
set_mon zone mon dt =
    let now = update_tm zone dt in
    update_epoch zone (record now { tm = record now.tm { tm_mon = mon -ℤ pos 1 } })

unfoldable pub set_day : Zone → ℤ → DateTime → DateTime
set_day zone day dt =
    let now = update_tm zone dt in
    update_epoch zone (record now { tm = record now.tm { tm_mday = day } })

unfoldable pub set_hour : Zone → ℤ → DateTime → DateTime
set_hour zone hour dt =
    let now = update_tm zone dt in
    update_epoch zone (record now { tm = record now.tm { tm_hour = hour } })

unfoldable pub set_min : Zone → ℤ → DateTime → DateTime
set_min zone minute dt =
    let now = update_tm zone dt in
    update_epoch zone (record now { tm = record now.tm { tm_min = minute } })

unfoldable pub set_sec : Zone → ℤ → DateTime → DateTime
set_sec zone sec dt =
    let now = update_tm zone dt in
    update_epoch zone (record now { tm = record now.tm { tm_sec = sec } })

unfoldable pub set_nano : ℤ → DateTime → DateTime
set_nano nano dt = record dt { tv_nsec = nano }

unfoldable pub offset_day : ℤ → DateTime → DateTime
offset_day day dt = record dt { tv_sec = dt.tv_sec +ℤ day *ℤ 86400; cached_epoch = minus_one }

unfoldable pub offset_hour : ℤ → DateTime → DateTime
offset_hour hour dt = record dt { tv_sec = dt.tv_sec +ℤ hour *ℤ 3600; cached_epoch = minus_one }

unfoldable pub offset_min : ℤ → DateTime → DateTime
offset_min minute dt = record dt { tv_sec = dt.tv_sec +ℤ minute *ℤ 60; cached_epoch = minus_one }

unfoldable pub offset_sec : ℤ → DateTime → DateTime
offset_sec sec dt = record dt { tv_sec = dt.tv_sec +ℤ sec; cached_epoch = minus_one }

unfoldable pub offset_nano : ℤ → DateTime → DateTime
offset_nano nano dt =
    let time = epoch19 dt +ℤ nano in
    record dt { tv_sec = time /ℤ giga; tv_nsec = time %ℤ giga; cached_epoch = minus_one }

unfoldable pub offset_msec : ℤ → DateTime → DateTime
offset_msec ms dt = offset_nano (ms *ℤ 1000 *ℤ 1000) dt

unfoldable pub offset_usec : ℤ → DateTime → DateTime
offset_usec us dt = offset_nano (us *ℤ 1000) dt
