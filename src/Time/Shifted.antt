-- ===== src/Time/Shifted.antt =====
-- src/zrtools/zrt_time.h, class `DateTime`: what the offsets, the setters and the constructors do to
-- the time.
use native.Mathlib.Nat.{mul_assoc}
use zrtools.Prelude.{ℕ, ◌*◌, ◌≡◌, refl, sym, ap, ◌∙◌, arith}
use zrtools.Prelude.Int.{
  ℤ, pos, pos_part, neg_part, ◌+ℤ◌, ◌*ℤ◌, ◌/ℤ◌, ◌%ℤ◌, +ℤ_parts, *ℤ_parts, /ℤ_parts, %ℤ_parts,
  eq_of_parts, one_part,
}
use zrtools.Time.DateTime.{
  DateTime, kilo, mega, giga, new_at, from_digits, epoch19, epoch16, epoch13, epoch10, offset_day,
  offset_hour, offset_min, offset_sec, offset_nano, offset_msec, offset_usec,
}

-- Quotient and remainder give the number back.
quotient_back : (n : ℤ) → n /ℤ giga *ℤ giga +ℤ n %ℤ giga ≡ n
quotient_back n = ground (
  arith,
  one_part n,
  /ℤ_parts n giga,
  %ℤ_parts n giga,
  *ℤ_parts (n /ℤ giga) giga,
  +ℤ_parts (n /ℤ giga *ℤ giga) (n %ℤ giga),
  eq_of_parts (n /ℤ giga *ℤ giga +ℤ n %ℤ giga) n,
)

*ℤ_assoc : (n : ℤ) (j k : ℕ) → n *ℤ j *ℤ k ≡ n *ℤ (j * k)
*ℤ_assoc n j k =
    let pos_same =
      (*ℤ_parts (n *ℤ j) k).0
      ∙ ap (λ x. x * k) (*ℤ_parts n j).0
      ∙ mul_assoc (pos_part n) j k
      ∙ sym (*ℤ_parts n (j * k)).0 in
    let neg_same =
      (*ℤ_parts (n *ℤ j) k).1
      ∙ ap (λ x. x * k) (*ℤ_parts n j).1
      ∙ mul_assoc (neg_part n) j k
      ∙ sym (*ℤ_parts n (j * k)).1 in
    eq_of_parts _ _ (omega (arith, pos_same, neg_same))

-- A unit of the offsets.
pub data Step : Type 0 where
  days : Step
  hours : Step
  minutes : Step
  seconds : Step
  milliseconds : Step
  microseconds : Step
  nanoseconds : Step

unfoldable pub step_nanos : Step → ℕ
step_nanos days = 24 * 60 * 60 * giga
step_nanos hours = 60 * 60 * giga
step_nanos minutes = 60 * giga
step_nanos seconds = giga
step_nanos milliseconds = mega
step_nanos microseconds = kilo
step_nanos nanoseconds = 1

unfoldable pub offset : Step → ℤ → DateTime → DateTime
offset days n dt = offset_day n dt
offset hours n dt = offset_hour n dt
offset minutes n dt = offset_min n dt
offset seconds n dt = offset_sec n dt
offset milliseconds n dt = offset_msec n dt
offset microseconds n dt = offset_usec n dt
offset nanoseconds n dt = offset_nano n dt

*ℤ_one : (n : ℤ) → n *ℤ 1 ≡ n
*ℤ_one n = eq_of_parts _ _ (omega (arith, *ℤ_parts n 1))

more_seconds : (s n d : ℤ) → (s +ℤ d) *ℤ giga +ℤ n ≡ s *ℤ giga +ℤ n +ℤ d *ℤ giga
more_seconds s n d = eq_of_parts _ _ (
    omega (
      arith,
      +ℤ_parts s d,
      *ℤ_parts (s +ℤ d) giga,
      +ℤ_parts ((s +ℤ d) *ℤ giga) n,
      *ℤ_parts s giga,
      +ℤ_parts (s *ℤ giga) n,
      *ℤ_parts d giga,
      +ℤ_parts (s *ℤ giga +ℤ n) (d *ℤ giga),
    ))

more_units : (s n d : ℤ) (k : ℕ) → (s +ℤ d *ℤ k) *ℤ giga +ℤ n ≡ s *ℤ giga +ℤ n +ℤ d *ℤ (k * giga)
more_units s n d k = more_seconds s n (d *ℤ k) ∙ ap (◌+ℤ◌ (s *ℤ giga +ℤ n)) (*ℤ_assoc d k giga)

-- An offset of any unit adds that many nanoseconds.
pub epoch19-offset :
    (unit : Step) (n : ℤ) (dt : DateTime)
    → epoch19 (offset unit n dt) ≡ epoch19 dt +ℤ n *ℤ step_nanos unit
unfolding epoch19 offset step_nanos offset_day offset_hour offset_min offset_sec offset_nano
    offset_msec offset_usec
epoch19-offset days n dt = more_units dt.tv_sec dt.tv_nsec n 86400
epoch19-offset hours n dt = more_units dt.tv_sec dt.tv_nsec n 3600
epoch19-offset minutes n dt = more_units dt.tv_sec dt.tv_nsec n 60
epoch19-offset seconds n dt = more_seconds dt.tv_sec dt.tv_nsec n
epoch19-offset milliseconds n dt = quotient_back _ ∙ ap (◌+ℤ◌ (epoch19 dt)) (*ℤ_assoc n 1000 1000)
epoch19-offset microseconds n dt = quotient_back _
epoch19-offset nanoseconds n dt = quotient_back _ ∙ ap (◌+ℤ◌ (epoch19 dt)) (sym (*ℤ_one n))

nanos_of_millis : (e : ℤ) → e /ℤ kilo *ℤ giga +ℤ e %ℤ kilo *ℤ mega ≡ e *ℤ mega
nanos_of_millis e = ground (
  arith,
  one_part e,
  /ℤ_parts e kilo,
  %ℤ_parts e kilo,
  *ℤ_parts (e /ℤ kilo) giga,
  *ℤ_parts (e %ℤ kilo) mega,
  *ℤ_parts e mega,
  +ℤ_parts (e /ℤ kilo *ℤ giga) (e %ℤ kilo *ℤ mega),
  eq_of_parts (e /ℤ kilo *ℤ giga +ℤ e %ℤ kilo *ℤ mega) (e *ℤ mega),
)

nanos_of_micros : (e : ℤ) → e /ℤ mega *ℤ giga +ℤ e %ℤ mega *ℤ kilo ≡ e *ℤ kilo
nanos_of_micros e = ground (
  arith,
  one_part e,
  /ℤ_parts e mega,
  %ℤ_parts e mega,
  *ℤ_parts (e /ℤ mega) giga,
  *ℤ_parts (e %ℤ mega) kilo,
  *ℤ_parts e kilo,
  +ℤ_parts (e /ℤ mega *ℤ giga) (e %ℤ mega *ℤ kilo),
  eq_of_parts (e /ℤ mega *ℤ giga +ℤ e %ℤ mega *ℤ kilo) (e *ℤ kilo),
)

times_over : (e : ℤ) → e *ℤ 1000 /ℤ 1000 ≡ e
times_over e = ground (
  arith,
  one_part e,
  *ℤ_parts e 1000,
  /ℤ_parts (e *ℤ 1000) 1000,
  eq_of_parts (e *ℤ 1000 /ℤ 1000) e,
)

-- The time of a number of 10, 13, 16 or 19 digits is that number of seconds, milliseconds,
-- microseconds or nanoseconds, and the getter of that many digits gives it back.
pub epoch-from_digits :
    (e : ℤ)
    → (epoch10 (from_digits e 10) ≡ e)
      × (epoch13 (from_digits e 13) ≡ e)
      × (epoch16 (from_digits e 16) ≡ e)
      × (epoch19 (from_digits e 10) ≡ e *ℤ giga)
      × (epoch19 (from_digits e 13) ≡ e *ℤ mega)
      × (epoch19 (from_digits e 16) ≡ e *ℤ kilo)
      × (epoch19 (from_digits e 19) ≡ e)
unfolding from_digits epoch10 epoch13 epoch16 epoch19 new_at
epoch-from_digits e = (
  refl,
  ap (λ n. n /ℤ 1000 /ℤ 1000) (nanos_of_millis e ∙ sym (*ℤ_assoc e 1000 1000))
      ∙ ap (λ n. n /ℤ 1000) (times_over (e *ℤ 1000))
      ∙ times_over e,
  ap (λ n. n /ℤ 1000) (nanos_of_micros e) ∙ times_over e,
  eq_of_parts _ _ (omega (arith, +ℤ_parts (e *ℤ giga) (pos 0))),
  nanos_of_millis e,
  nanos_of_micros e,
  quotient_back e,
)
