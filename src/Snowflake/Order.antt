-- ===== src/Snowflake/Order.antt =====
-- src/zrtools/zrt_snowflake.h: every exchange of the state word in `nextId` raises it.
use zrtools.Prelude.{
  ℕ, ◌+◌, ◌-◌, ◌*◌, ◌%◌, ◌^◌, ◌≤◌, ◌<◌, ◌≡◌, ap, sym, ◌∙◌, arith, bit_and, Bool, List, [], ◌∷◌,
  some, ◌⊎◌,
}
use zrtools.Prelude.Bits.{bit_and-low_mask, bit_or-shifted, pow-add}
use native.Mathlib.Nat.{one-le-pow, mod-eq_of_lt, div-add-mod', mod-lt, mod_self, pow-le-pow_right}
use zrtools.Snowflake.Params.{Params, IsParams, max_sequence, shr}
use zrtools.Snowflake.Generator.{drift_policy, proceed, wait_next_millis, propose, new_state}
use zrtools.Snowflake.Ids.{field_bound}

-- What `waitNextMillis` returns is later.
pub wait_next_millis-later :
    (last : ℕ) (readings : List ℕ) {later : ℕ} {rest : List ℕ}
    → wait_next_millis last readings ≡ some (later, rest)
    → last < later
unfolding wait_next_millis
wait_next_millis-later last [] e = cc
wait_next_millis-later last (t ∷ readings) {later} {rest} e =
    ground (arith, wait_next_millis-later last readings {later = later} {rest = rest})

-- A pass goes on with a timestamp that is not before the last one.
pub drift_policy-proceed :
    (p : Params) (now last : ℕ) {timestamp : ℕ} {kept : Bool}
    → drift_policy p now last ≡ proceed timestamp kept
    → last ≤ timestamp
unfolding drift_policy
drift_policy-proceed p now last e = ground arith

-- Timestamps below this keep their bits in the state word.
abbrev pub clock_limit : Params → ℕ
clock_limit p = 2 ^ (64 - p.sequence_bits)

-- A pass proposes the next number of the same millisecond, or the first one of a later.
abbrev pub Advances : Params → ℕ → ℕ → ℕ → Type 0
Advances p old_state timestamp sequence =
    ((shr old_state p.sequence_bits < timestamp) × (sequence ≡ 0))
    ⊎ ((timestamp ≡ shr old_state p.sequence_bits)
        × (sequence ≡ bit_and old_state (max_sequence p) + 1))

-- A word with a later timestamp is larger, whatever the sequence number below `c`.
pub later_word : (c last s timestamp : ℕ) → last < timestamp → s < c → last * c + s < timestamp * c
later_word c last s timestamp h k = grind arith

module _ (p : Params) (q : IsParams p) where
  pub clock_limit-word : clock_limit p * 2 ^ p.sequence_bits ≡ 2 ^ 64
  clock_limit-word =
      let e : 64 - p.sequence_bits + p.sequence_bits ≡ 64 = omega (arith, q.sequence_most) in
      sym (ap (λ (n : ℕ). 2 ^ n) (sym e) ∙ pow-add (64 - p.sequence_bits) p.sequence_bits)

  module _ (t r : ℕ) (ht : t < clock_limit p) (hr : r < 2 ^ p.sequence_bits) where
    pub new_state-lt : t * 2 ^ p.sequence_bits + r < 2 ^ 64
    new_state-lt =
        rw clock_limit-word at (field_bound (clock_limit p) (2 ^ p.sequence_bits) t r ht hr)

    pub new_state-sum : new_state p t r ≡ t * 2 ^ p.sequence_bits + r
    new_state-sum =
        let low : t * 2 ^ p.sequence_bits % 2 ^ 64 ≡ t * 2 ^ p.sequence_bits =
          mod-eq_of_lt (omega (arith, new_state-lt)) in
        rw low (bit_or-shifted p.sequence_bits t r hr)

  -- A state word is its timestamp and its sequence number.
  pub state-parts :
      (state : ℕ)
      → (state ≡ shr state p.sequence_bits * 2 ^ p.sequence_bits + bit_and state (max_sequence p))
        × (bit_and state (max_sequence p) < 2 ^ p.sequence_bits)
  state-parts state = rw (bit_and-low_mask p.sequence_bits state) (
    sym (div-add-mod' state (2 ^ p.sequence_bits)),
    mod-lt state {m = 2 ^ p.sequence_bits} (one-le-pow p.sequence_bits 2 (omega arith)),
  )

  -- The sequence number of the next identifier in the same millisecond.
  next_sequence :
      (s : ℕ)
      → s < 2 ^ p.sequence_bits
      → let n = bit_and ((s + 1) % 2 ^ 64) (max_sequence p) in
        (n < 2 ^ p.sequence_bits) × ((n ≡ 0) ⊎ (n ≡ s + 1))
  next_sequence s h = ground (
    arith,
    q.sequence_most,
    pow-le-pow_right {n = 2} (omega arith) {i = p.sequence_bits} {j = 22},
    bit_and-low_mask p.sequence_bits ((s + 1) % 2 ^ 64),
    mod-eq_of_lt {n = s + 1} {m = 2 ^ p.sequence_bits},
    mod_self (2 ^ p.sequence_bits),
    mod-lt ((s + 1) % 2 ^ 64) {m = 2 ^ p.sequence_bits},
  )

  pub propose-Advances :
      (timestamp old_state : ℕ) (readings rest : List ℕ) (timestamp' sequence : ℕ)
      (overflowed : Bool)
      → shr old_state p.sequence_bits ≤ timestamp
      → propose p timestamp old_state readings ≡ some (timestamp', sequence, overflowed, rest)
      → Advances p old_state timestamp' sequence × (sequence < 2 ^ p.sequence_bits)
  unfolding propose
  propose-Advances timestamp old_state readings rest timestamp' sequence overflowed h e = ground (
    arith,
    one-le-pow p.sequence_bits 2,
    (state-parts old_state).1,
    next_sequence (bit_and old_state (max_sequence p)),
    wait_next_millis-later timestamp readings {later = timestamp'} {rest = rest},
  )

  -- An exchange that succeeds raises the state word.
  pub Advances-lt :
      (old_state timestamp sequence : ℕ)
      → Advances p old_state timestamp sequence
      → sequence < 2 ^ p.sequence_bits
      → timestamp < clock_limit p
      → old_state < new_state p timestamp sequence
  Advances-lt old_state timestamp sequence a h k =
      let (parts, small) = state-parts old_state in
      ground (
        arith,
        new_state-sum timestamp sequence k h,
        later_word (2 ^ p.sequence_bits) (shr old_state p.sequence_bits)
            (bit_and old_state (max_sequence p)) timestamp,
        parts,
        small,
      )
