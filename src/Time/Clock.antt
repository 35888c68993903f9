-- ===== src/Time/Clock.antt =====
-- src/zrtools/zrt_time.h, class `DateTime` in UTC: `SetHour`, `SetMin` and `SetSec` against the getters.
use zrtools.Prelude.{ℕ, ◌+◌, ◌*◌, ◌/◌, ◌%◌, ◌^◌, ◌<◌, ◌≡◌, inl, refl, sym, ap, ◌∙◌, arith}
use zrtools.Prelude.Int.{
  ℤ, pos, ◌+ℤ◌, ◌*ℤ◌, ◌/ℤ◌, ◌%ℤ◌, +ℤ_parts, *ℤ_parts, /ℤ_parts, %ℤ_parts, eq_of_parts, parts_of_eq,
  one_part, to_u32,
}
use zrtools.Time.Civil.{Tm, fast_timegm, civil_from_epoch_utc, epoch_days, days_from_civil}
use zrtools.Time.Epoch.{fast_timegm-civil}
use zrtools.Time.DateTime.{
  DateTime, utc, update_tm, update_epoch, hms_of, ymd_of, get_hms, get_ymd, set_hour, set_min,
  set_sec,
}
use zrtools.Time.Cached.{IsCoherent, update_tm-fields}

-- A date-time in UTC at a second that is not before the epoch, with a coherent cache.
pub record IsAt (n : ℕ) (dt : DateTime) : Type 0 where
  pub second : dt.tv_sec ≡ pos n
  pub coherent : IsCoherent utc dt
  pub in_range : n / 86400 < 2 ^ 37

fields : (n : ℕ) (dt : DateTime) → IsAt n dt → (update_tm utc dt).tm ≡ civil_from_epoch_utc (pos n)
unfolding utc
fields n dt h =
    update_tm-fields utc dt h.coherent
      (λ e. absurd (omega (arith, parts_of_eq _ _ (sym h.second ∙ e))))
    ∙ ap civil_from_epoch_utc h.second

sums : (a b c d e : ℤ) → a +ℤ b +ℤ c +ℤ d +ℤ e ≡ a +ℤ e +ℤ c +ℤ d +ℤ b
sums a b c d e = eq_of_parts _ _ (
    omega (
      arith,
      +ℤ_parts a b,
      +ℤ_parts (a +ℤ b) c,
      +ℤ_parts (a +ℤ b +ℤ c) d,
      +ℤ_parts (a +ℤ b +ℤ c +ℤ d) e,
      +ℤ_parts a e,
      +ℤ_parts (a +ℤ e) c,
      +ℤ_parts (a +ℤ e +ℤ c) d,
      +ℤ_parts (a +ℤ e +ℤ c +ℤ d) b,
    ))

+ℤ_right : (a b c : ℤ) → a +ℤ b +ℤ c ≡ a +ℤ c +ℤ b
+ℤ_right a b c =
    eq_of_parts _ _
      (omega (arith, +ℤ_parts a b, +ℤ_parts (a +ℤ b) c, +ℤ_parts a c, +ℤ_parts (a +ℤ c) b))

-- Another hour, minute or second in the fields of a time.
abbrev days_of : Tm → ℤ
days_of tm =
    days_from_civil (tm.tm_year +ℤ pos 1900) (to_u32 (tm.tm_mon +ℤ pos 1)) (to_u32 tm.tm_mday)
    *ℤ 86400

hour_changed :
    (tm : Tm) (h : ℤ)
    → fast_timegm (record tm { tm_hour = h }) +ℤ tm.tm_hour *ℤ 3600 ≡ fast_timegm tm +ℤ h *ℤ 3600
unfolding fast_timegm
hour_changed tm h =
    let d : ℤ = days_of tm in sums d (h *ℤ 3600) (tm.tm_min *ℤ 60) tm.tm_sec (tm.tm_hour *ℤ 3600)

min_changed :
    (tm : Tm) (m : ℤ)
    → fast_timegm (record tm { tm_min = m }) +ℤ tm.tm_min *ℤ 60 ≡ fast_timegm tm +ℤ m *ℤ 60
unfolding fast_timegm
min_changed tm m =
    let d : ℤ = days_of tm +ℤ tm.tm_hour *ℤ 3600 in
    let at_end = ap (λ t. t +ℤ tm.tm_min *ℤ 60) (+ℤ_right d (m *ℤ 60) tm.tm_sec) in
    at_end
    ∙ +ℤ_right (d +ℤ tm.tm_sec) (m *ℤ 60) (tm.tm_min *ℤ 60)
    ∙ ap (λ t. t +ℤ m *ℤ 60) (+ℤ_right d tm.tm_sec (tm.tm_min *ℤ 60))

sec_changed :
    (tm : Tm) (s : ℤ) → fast_timegm (record tm { tm_sec = s }) +ℤ tm.tm_sec ≡ fast_timegm tm +ℤ s
unfolding fast_timegm
sec_changed tm s = +ℤ_right (days_of tm +ℤ tm.tm_hour *ℤ 3600 +ℤ tm.tm_min *ℤ 60) s tm.tm_sec

round_trip : (n : ℕ) → n / 86400 < 2 ^ 37 → fast_timegm (civil_from_epoch_utc (pos n)) ≡ pos n
round_trip n h = fast_timegm-civil (pos n) (omega arith, omega arith) (inl (omega arith))

-- The second after each setter.
set_hour-IsAt :
    (n h : ℕ) (dt : DateTime)
    → IsAt n dt
    → h < 24
    → IsAt (n / 86400 * 86400 + h * 3600 + n % 3600) (set_hour utc (pos h) dt)
unfolding set_hour update_epoch IsCoherent utc civil_from_epoch_utc
set_hour-IsAt n h dt at l = record {
  second =
      let z = civil_from_epoch_utc (pos n) in
      let e = hour_changed z (pos h) in
      ap (λ t. fast_timegm (record t { tm_hour = pos h })) (fields n dt at)
      ∙ eq_of_parts _ _ (
          omega (
            arith,
            parts_of_eq _ _ e,
            parts_of_eq _ _ (round_trip n at.in_range),
            %ℤ_parts (pos n) 86400,
            /ℤ_parts (pos n %ℤ 86400) 3600,
            *ℤ_parts ((pos n %ℤ 86400) /ℤ 3600) 3600,
            *ℤ_parts (pos h) 3600,
            +ℤ_parts (fast_timegm z) (pos h *ℤ 3600),
            +ℤ_parts (fast_timegm (record z { tm_hour = pos h })) (z.tm_hour *ℤ 3600),
          ));
  coherent = inl refl;
  in_range = let r = at.in_range in omega arith;
}

set_min-IsAt :
    (n m : ℕ) (dt : DateTime)
    → IsAt n dt
    → m < 60
    → IsAt (n / 3600 * 3600 + m * 60 + n % 60) (set_min utc (pos m) dt)
unfolding set_min update_epoch IsCoherent utc civil_from_epoch_utc
set_min-IsAt n m dt at l = record {
  second =
      let z = civil_from_epoch_utc (pos n) in
      let e = min_changed z (pos m) in
      let q = (pos n %ℤ 86400) %ℤ 3600 in
      ap (λ t. fast_timegm (record t { tm_min = pos m })) (fields n dt at)
      ∙ eq_of_parts _ _ (
          omega (
            arith,
            parts_of_eq _ _ e,
            parts_of_eq _ _ (round_trip n at.in_range),
            %ℤ_parts (pos n) 86400,
            %ℤ_parts (pos n %ℤ 86400) 3600,
            /ℤ_parts q 60,
            *ℤ_parts (q /ℤ 60) 60,
            *ℤ_parts (pos m) 60,
            +ℤ_parts (fast_timegm z) (pos m *ℤ 60),
            +ℤ_parts (fast_timegm (record z { tm_min = pos m })) (z.tm_min *ℤ 60),
          ));
  coherent = inl refl;
  in_range = let r = at.in_range in omega arith;
}

set_sec-IsAt :
    (n s : ℕ) (dt : DateTime) → IsAt n dt → s < 60 → IsAt (n / 60 * 60 + s) (set_sec utc (pos s) dt)
unfolding set_sec update_epoch IsCoherent utc civil_from_epoch_utc
set_sec-IsAt n s dt at l = record {
  second =
      let z = civil_from_epoch_utc (pos n) in
      let e = sec_changed z (pos s) in
      ap (λ t. fast_timegm (record t { tm_sec = pos s })) (fields n dt at)
      ∙ eq_of_parts _ _ (
          omega (
            arith,
            parts_of_eq _ _ e,
            parts_of_eq _ _ (round_trip n at.in_range),
            %ℤ_parts (pos n) 86400,
            %ℤ_parts (pos n %ℤ 86400) 60,
            +ℤ_parts (fast_timegm z) (pos s),
            +ℤ_parts (fast_timegm (record z { tm_sec = pos s })) z.tm_sec,
          ));
  coherent = inl refl;
  in_range = let r = at.in_range in omega arith;
}

-- The getters at a second.
get_hms-IsAt :
    (n : ℕ) (dt : DateTime)
    → IsAt n dt
    → (get_hms utc dt).1 ≡ pos (n / 3600 % 24 * 10000 + n / 60 % 60 * 100 + n % 60)
unfolding get_hms hms_of civil_from_epoch_utc
get_hms-IsAt n dt at =
    let d = pos n %ℤ 86400 in
    ap hms_of (fields n dt at)
    ∙ eq_of_parts _ _ (
        omega (
          arith,
          %ℤ_parts (pos n) 86400,
          /ℤ_parts d 3600,
          %ℤ_parts d 3600,
          /ℤ_parts (d %ℤ 3600) 60,
          %ℤ_parts d 60,
          *ℤ_parts (d /ℤ 3600) 10000,
          *ℤ_parts ((d %ℤ 3600) /ℤ 60) 100,
          +ℤ_parts (d /ℤ 3600 *ℤ 10000) ((d %ℤ 3600) /ℤ 60 *ℤ 100),
          +ℤ_parts (d /ℤ 3600 *ℤ 10000 +ℤ (d %ℤ 3600) /ℤ 60 *ℤ 100) (d %ℤ 60),
        ))

epoch_days-pos : (n : ℕ) → epoch_days (pos n) ≡ pos (n / 86400)
unfolding epoch_days
epoch_days-pos n = ground (arith, /ℤ_parts (pos n) 86400, one_part (pos n /ℤ 86400))

-- The date depends on the day only.
same_date :
    (n n' : ℕ)
    → n / 86400 ≡ n' / 86400
    → ymd_of (civil_from_epoch_utc (pos n)) ≡ ymd_of (civil_from_epoch_utc (pos n'))
unfolding ymd_of civil_from_epoch_utc
same_date n n' e = rw (epoch_days-pos n, epoch_days-pos n', e) refl

get_ymd-IsAt :
    (n n' : ℕ) (dt dt' : DateTime)
    → IsAt n dt
    → IsAt n' dt'
    → n / 86400 ≡ n' / 86400
    → (get_ymd utc dt).1 ≡ (get_ymd utc dt').1
unfolding get_ymd
get_ymd-IsAt n n' dt dt' at at' e =
    ap ymd_of (fields n dt at) ∙ same_date n n' e ∙ sym (ap ymd_of (fields n' dt' at'))

-- In UTC, for a second that is not before the epoch and whose day is below 2 ^ 37, and with a
-- coherent cache: setting an hour, a minute and a second in turn, each below its bound, makes the
-- clock show them, and leaves the date as it was.
pub get-set_clock :
    (n h m s : ℕ) (dt : DateTime)
    → IsAt n dt
    → h < 24
    → m < 60
    → s < 60
    → let later = set_sec utc (pos s) (set_min utc (pos m) (set_hour utc (pos h) dt)) in
      ((get_hms utc later).1 ≡ pos (h * 10000 + m * 100 + s))
      × ((get_ymd utc later).1 ≡ (get_ymd utc dt).1)
get-set_clock n h m s dt at lh lm ls =
    let n1 = n / 86400 * 86400 + h * 3600 + n % 3600 in
    let n2 = n1 / 3600 * 3600 + m * 60 + n1 % 60 in
    let n3 = n2 / 60 * 60 + s in
    let d1 = set_hour utc (pos h) dt in
    let d2 = set_min utc (pos m) d1 in
    let at3 = set_sec-IsAt n2 s d2 (set_min-IsAt n1 m d1 (set_hour-IsAt n h dt at lh) lm) ls in
    let shown : n3 / 3600 % 24 * 10000 + n3 / 60 % 60 * 100 + n3 % 60 ≡ h * 10000 + m * 100 + s =
      omega arith in
    (
      get_hms-IsAt n3 (set_sec utc (pos s) d2) at3 ∙ ap pos shown,
      get_ymd-IsAt n3 n (set_sec utc (pos s) d2) dt at3 at (omega arith),
    )
