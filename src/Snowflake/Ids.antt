-- ===== src/Snowflake/Ids.antt =====
-- src/zrtools/zrt_snowflake.h: the layout of an identifier, and `parseId`.
use zrtools.Prelude.{
  ℕ, ◌+◌, ◌-◌, ◌*◌, ◌%◌, ◌^◌, ◌≤◌, ◌<◌, ◌≡◌, ap, sym, ◌∙◌, arith, bit_and, bit_or,
}
use zrtools.Prelude.Bits.{bit_and-low_mask, bit_or-shifted, mod_unique, div_unique, pow-add}
use native.Mathlib.Nat.{
  one-le-pow, mod-eq_of_lt, div-div-eq-div-mul, mul-lt-mul_of_pos_right, mul_comm,
}
use zrtools.Snowflake.Params.{
  Params, IsParams, server_id_shift, timestamp_shift, max_server_id, max_sequence, max_timestamp,
  shl, shr,
}
use zrtools.Snowflake.Generator.{Generator, time_diff, make_id, parse_id}

-- A field of `k` bits below one of `l` bits fits in `k + l`.
pub field_bound : (a b hi lo : ℕ) → hi < a → lo < b → hi * b + lo < a * b
field_bound a b hi lo h l = grind arith

-- Three fields of `a`, `b` and `c` values.
pub fields_bound : (a b c d s r : ℕ) → d < a → s < b → r < c → (d * b + s) * c + r < a * b * c
fields_bound a b c d s r hd hs hr =
    field_bound (a * b) c (d * b + s) r (field_bound a b d s hd hs) hr

-- What `nextId` has checked of the parts of an identifier.
pub record IsIssuable (p : Params) (g : Generator) (timestamp sequence : ℕ) : Type 0 where
  pub server : g.server_id ≤ max_server_id p
  pub after_epoch : g.epoch_ms ≤ timestamp
  pub word : timestamp < 2 ^ 64
  pub in_time : timestamp - g.epoch_ms ≤ max_timestamp p
  pub in_sequence : sequence ≤ max_sequence p

module _ (p : Params) (q : IsParams p) where
  pub shift-sum : 2 ^ timestamp_shift p ≡ 2 ^ p.server_id_bits * 2 ^ p.sequence_bits
  shift-sum = pow-add p.sequence_bits p.server_id_bits ∙ mul_comm _ _

  -- The three fields make up 63 bits.
  pub word-fields : 2 ^ p.timestamp_bits * 2 ^ p.server_id_bits * 2 ^ p.sequence_bits ≡ 2 ^ 63
  word-fields =
      let e : p.timestamp_bits + p.server_id_bits + p.sequence_bits ≡ 63 = omega (arith, q.total) in
      sym (
        ap (λ (n : ℕ). 2 ^ n) (sym e)
        ∙ pow-add (p.timestamp_bits + p.server_id_bits) p.sequence_bits
        ∙ ap (λ (n : ℕ). n * 2 ^ p.sequence_bits) (pow-add p.timestamp_bits p.server_id_bits))

  module _ (d s r : ℕ) (hd : d < 2 ^ p.timestamp_bits) (hs : s < 2 ^ p.server_id_bits)
      (hr : r < 2 ^ p.sequence_bits) where
    -- Three fields in their places are below `2 ^ 63`.
    pub packed-lt : (d * 2 ^ p.server_id_bits + s) * 2 ^ p.sequence_bits + r < 2 ^ 63
    packed-lt = rw word-fields at (
        fields_bound (2 ^ p.timestamp_bits) (2 ^ p.server_id_bits) (2 ^ p.sequence_bits) d s r hd hs
          hr)

    shifted_fields :
        d * 2 ^ timestamp_shift p + s * 2 ^ p.sequence_bits
        ≡ (d * 2 ^ p.server_id_bits + s) * 2 ^ p.sequence_bits
    shifted_fields = rw shift-sum (omega arith)

    pub bit_or-fields :
        bit_or (bit_or (shl d (timestamp_shift p)) (shl s (server_id_shift p))) r
        ≡ (d * 2 ^ p.server_id_bits + s) * 2 ^ p.sequence_bits + r
    bit_or-fields =
        let small : s * 2 ^ p.sequence_bits < 2 ^ timestamp_shift p =
          rw shift-sum (mul-lt-mul_of_pos_right hs (omega (arith, hr))) in
        let top : d * 2 ^ timestamp_shift p % 2 ^ 64 ≡ d * 2 ^ timestamp_shift p =
          mod-eq_of_lt (omega (arith, shifted_fields, packed-lt)) in
        let low : s * 2 ^ p.sequence_bits % 2 ^ 64 ≡ s * 2 ^ p.sequence_bits =
          mod-eq_of_lt (omega (arith, shifted_fields, packed-lt)) in
        rw
          (
            top,
            low,
            bit_or-shifted (timestamp_shift p) d (s * 2 ^ p.sequence_bits) small,
            shifted_fields,
          )
          (bit_or-shifted p.sequence_bits (d * 2 ^ p.server_id_bits + s) r hr)

    -- The fields come out again.
    pub field-sequence :
        bit_and ((d * 2 ^ p.server_id_bits + s) * 2 ^ p.sequence_bits + r) (max_sequence p) ≡ r
    field-sequence =
        bit_and-low_mask p.sequence_bits _
        ∙ mod_unique (2 ^ p.sequence_bits) (d * 2 ^ p.server_id_bits + s) r hr

    pub field-server :
        bit_and
          (shr ((d * 2 ^ p.server_id_bits + s) * 2 ^ p.sequence_bits + r) (server_id_shift p))
          (max_server_id p)
        ≡ s
    field-server =
        rw (div_unique (2 ^ p.sequence_bits) (d * 2 ^ p.server_id_bits + s) r hr)
          (bit_and-low_mask p.server_id_bits _ ∙ mod_unique (2 ^ p.server_id_bits) d s hs)

    pub field-timestamp :
        shr ((d * 2 ^ p.server_id_bits + s) * 2 ^ p.sequence_bits + r) (timestamp_shift p) ≡ d
    field-timestamp =
        rw
          (
            pow-add p.sequence_bits p.server_id_bits,
            ← div-div-eq-div-mul,
            div_unique (2 ^ p.sequence_bits) (d * 2 ^ p.server_id_bits + s) r hr,
          )
          (div_unique (2 ^ p.server_id_bits) d s hs)

  module _ (g : Generator) (timestamp sequence : ℕ) (v : IsIssuable p g timestamp sequence) where
    time_fits : timestamp - g.epoch_ms < 2 ^ p.timestamp_bits
    time_fits = omega (arith, v.in_time, one-le-pow p.timestamp_bits 2)

    server_fits : g.server_id < 2 ^ p.server_id_bits
    server_fits = omega (arith, v.server, one-le-pow p.server_id_bits 2)

    sequence_fits : sequence < 2 ^ p.sequence_bits
    sequence_fits = omega (arith, v.in_sequence, one-le-pow p.sequence_bits 2)

    pub make_id-sum :
        make_id p g timestamp sequence
        ≡ ((timestamp - g.epoch_ms) * 2 ^ p.server_id_bits + g.server_id) * 2 ^ p.sequence_bits
          + sequence
    unfolding make_id
    make_id-sum =
        let d : time_diff p g timestamp ≡ timestamp - g.epoch_ms =
          omega (arith, v.after_epoch, v.word) in
        rw d (
          bit_or-fields (timestamp - g.epoch_ms) g.server_id sequence time_fits server_fits
            sequence_fits)

    -- The sign bit of an identifier is clear: of a server number, a timestamp at or past the epoch
    -- and a sequence number in their ranges.
    pub make_id-lt : make_id p g timestamp sequence < 2 ^ 63
    make_id-lt = rw make_id-sum (
        packed-lt (timestamp - g.epoch_ms) g.server_id sequence time_fits server_fits sequence_fits)

    -- `parseId` gives back the timestamp, the server number and the sequence number of an
    -- identifier, where these are in their ranges and the timestamp is not before the epoch.
    pub parse_id-make_id :
        parse_id p g (make_id p g timestamp sequence)
        ≡ record { timestamp_ms = timestamp; server_id = g.server_id; sequence = sequence }
    unfolding parse_id
    parse_id-make_id =
        let d = timestamp - g.epoch_ms in
        ground (
          arith,
          v.after_epoch,
          v.word,
          make_id-sum,
          field-sequence d g.server_id sequence time_fits server_fits sequence_fits,
          field-server d g.server_id sequence time_fits server_fits sequence_fits,
          field-timestamp d g.server_id sequence time_fits server_fits sequence_fits,
        )
