-- ===== src/Time/Cached.antt =====
-- src/zrtools/zrt_time.h, class `DateTime`: the cached fields through any sequence of operations.
use zrtools.Prelude.{◌≡◌, ◌≢◌, ◌⊎◌, inl, inr, sym, ap, Bool-cases, ◌∙◌, List, [], ◌∷◌}
use zrtools.Prelude.Int.{ℤ, eqb_ℤ, eqb_ℤ_iff}
use zrtools.Time.DateTime.{
  Zone, DateTime, minus_one, update_tm, set_year, set_mon, set_day, set_hour, set_min, set_sec,
  set_nano, offset_day, offset_hour, offset_min, offset_sec, offset_nano, offset_msec, offset_usec,
  zero_tm,
}

-- A call of a member that changes the object.
pub data Call : Type 0 where
  read_fields : Call
  year : ℤ → Call
  mon : ℤ → Call
  day : ℤ → Call
  hour : ℤ → Call
  minute : ℤ → Call
  sec : ℤ → Call
  nano : ℤ → Call
  later_day : ℤ → Call
  later_hour : ℤ → Call
  later_min : ℤ → Call
  later_sec : ℤ → Call
  later_msec : ℤ → Call
  later_usec : ℤ → Call
  later_nano : ℤ → Call

unfoldable pub call : Zone → Call → DateTime → DateTime
call zone read_fields dt = update_tm zone dt
call zone (year n) dt = set_year zone n dt
call zone (mon n) dt = set_mon zone n dt
call zone (day n) dt = set_day zone n dt
call zone (hour n) dt = set_hour zone n dt
call zone (minute n) dt = set_min zone n dt
call zone (sec n) dt = set_sec zone n dt
call zone (nano n) dt = set_nano n dt
call zone (later_day n) dt = offset_day n dt
call zone (later_hour n) dt = offset_hour n dt
call zone (later_min n) dt = offset_min n dt
call zone (later_sec n) dt = offset_sec n dt
call zone (later_msec n) dt = offset_msec n dt
call zone (later_usec n) dt = offset_usec n dt
call zone (later_nano n) dt = offset_nano n dt

unfoldable pub calls : Zone → List Call → DateTime → DateTime
calls zone [] dt = dt
calls zone (c ∷ cs) dt = calls zone cs (call zone c dt)

-- The cache is empty, or the fields are those of the cached second.
unfoldable pub IsCoherent : Zone → DateTime → Type 0
IsCoherent zone dt = (dt.cached_epoch ≡ minus_one) ⊎ (dt.tm ≡ zone.to_tm dt.cached_epoch zero_tm)

-- Where the time is not the value that marks the empty cache, the fields are brought up to date.
pub update_tm-fields :
    (zone : Zone) (dt : DateTime)
    → IsCoherent zone dt
    → dt.tv_sec ≢ minus_one
    → (update_tm zone dt).tm ≡ zone.to_tm dt.tv_sec zero_tm
unfolding update_tm IsCoherent
update_tm-fields zone dt h apart = elim (Bool-cases (eqb_ℤ dt.tv_sec dt.cached_epoch)) [
  | inl e ↦ rw e (hit h ((eqb_ℤ_iff dt.tv_sec dt.cached_epoch).0 e))
  | inr miss ↦ rw miss (zone.to_tm_fresh dt.tv_sec dt.tm zero_tm)
]
  where
    hit :
        (dt.cached_epoch ≡ minus_one) ⊎ (dt.tm ≡ zone.to_tm dt.cached_epoch zero_tm)
        → dt.tv_sec ≡ dt.cached_epoch
        → dt.tm ≡ zone.to_tm dt.tv_sec zero_tm
    hit (inl none) same = absurd (apart (same ∙ none))
    hit (inr fields) same = fields ∙ ap (λ z. zone.to_tm z zero_tm) (sym same)
