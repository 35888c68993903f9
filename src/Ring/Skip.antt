-- ===== src/Ring/Skip.antt =====
-- src/zrtools/zrt_shm_ring.h: the skipped area that `Append` leaves before the end of the buffer.
use zrtools.Prelude.{
  ℕ, ◌+◌, ◌-◌, ◌*◌, ◌/◌, ◌%◌, ◌^◌, ◌≤◌, ◌<◌, ◌≡◌, ◌⊎◌, inl, inr, ◌∙◌, ap, sym, refl, arith, List,
  [], ◌∷◌, ◌++◌, true, leb,
}
use zrtools.Wal.Memory.{Memory, load_bytes}
use zrtools.Wal.Words.{
  load_word, store_word, load_word-store_word, load_word-store_apart, store_word-apart,
}
use zrtools.Wal.Entry.{
  Header, header_size, load_header, set_seq, set_timestamp_ns, set_type, set_data_len, set_crc32,
}
use zrtools.Ring.State.{Ring}
use zrtools.Ring.Append.{entry_size, write_skip, wrap_around, take_seq}
use zrtools.Ring.Offsets.{IsGeometry, entry_size-eight, offset-kept, offset-lt}
use zrtools.Ring.Chain.{Segment, Chain, Chain-append, Chain-cong}
use native.Mathlib.Nat.{mul_assoc, div-add-mod'}

abbrev pub skip_header : ℕ → Header
skip_header remaining = record {
  seq = 0;
  timestamp_ns = 0;
  type = 0;
  data_len = remaining - header_size;
  crc32 = 0;
}

-- The stores into the header.
abbrev skipped : Memory → ℕ → ℕ → Memory
skipped mem at remaining =
    store_word
      (store_word (store_word (store_word (store_word mem at 8 0) (at + 8) 8 0) (at + 16) 2 0)
        (at + 18) 2 ((remaining - header_size) % 2 ^ 16))
      (at + 20) 4 0

write_skip-skipped :
    (mem : Memory) (at remaining : ℕ)
    → header_size ≤ remaining
    → write_skip mem at remaining ≡ skipped mem at remaining
unfolding write_skip set_seq set_timestamp_ns set_type set_data_len set_crc32
write_skip-skipped mem at remaining h =
    let room : leb header_size remaining ≡ true = ground arith in rw room refl

load_header-write_skip :
    (mem : Memory) (at remaining : ℕ)
    → header_size ≤ remaining
    → remaining ≤ 2 ^ 16
    → load_header (write_skip mem at remaining) at ≡ skip_header remaining
unfolding load_header
load_header-write_skip mem at remaining h l = rw (write_skip-skipped mem at remaining h) (λ i.
    record {
      seq = seq_read i;
      timestamp_ns = timestamp_read i;
      type = type_read i;
      data_len = data_len_read i;
      crc32 = crc_read i;
    })
  where
    crc_read : load_word (skipped mem at remaining) (at + 20) 4 ≡ 0
    crc_read = load_word-store_word _ (at + 20) 4 0 (omega arith)

    data_len_read : load_word (skipped mem at remaining) (at + 18) 2 ≡ remaining - header_size
    data_len_read =
        load_word-store_apart _ (at + 20) 4 0 (at + 18) 2 (inl (omega arith))
        ∙ load_word-store_word _ (at + 18) 2 ((remaining - header_size) % 2 ^ 16) (omega arith)
        ∙ omega arith

    type_read : load_word (skipped mem at remaining) (at + 16) 2 ≡ 0
    type_read =
        load_word-store_apart _ (at + 20) 4 0 (at + 16) 2 (inl (omega arith))
        ∙ load_word-store_apart _ (at + 18) 2 _ (at + 16) 2 (inl (omega arith))
        ∙ load_word-store_word _ (at + 16) 2 0 (omega arith)

    timestamp_read : load_word (skipped mem at remaining) (at + 8) 8 ≡ 0
    timestamp_read =
        load_word-store_apart _ (at + 20) 4 0 (at + 8) 8 (inl (omega arith))
        ∙ load_word-store_apart _ (at + 18) 2 _ (at + 8) 8 (inl (omega arith))
        ∙ load_word-store_apart _ (at + 16) 2 0 (at + 8) 8 (inl (omega arith))
        ∙ load_word-store_word _ (at + 8) 8 0 (omega arith)

    seq_read : load_word (skipped mem at remaining) at 8 ≡ 0
    seq_read =
        load_word-store_apart _ (at + 20) 4 0 at 8 (inl (omega arith))
        ∙ load_word-store_apart _ (at + 18) 2 _ at 8 (inl (omega arith))
        ∙ load_word-store_apart _ (at + 16) 2 0 at 8 (inl (omega arith))
        ∙ load_word-store_apart _ (at + 8) 8 0 at 8 (inl (omega arith))
        ∙ load_word-store_word mem at 8 0 (omega arith)

write_skip-apart :
    (mem : Memory) (at remaining i : ℕ)
    → header_size ≤ remaining
    → (i < at) ⊎ (at + header_size ≤ i)
    → write_skip mem at remaining i ≡ mem i
write_skip-apart mem at remaining i h apart =
    ap (λ (m : Memory). m i) (write_skip-skipped mem at remaining h)
    ∙ store_word-apart _ (at + 20) 4 0 i (out 20 4 (omega arith))
    ∙ store_word-apart _ (at + 18) 2 _ i (out 18 2 (omega arith))
    ∙ store_word-apart _ (at + 16) 2 0 i (out 16 2 (omega arith))
    ∙ store_word-apart _ (at + 8) 8 0 i (out 8 8 (omega arith))
    ∙ store_word-apart mem at 8 0 i (elim apart [ inl p ↦ inl p | inr p ↦ inr (omega arith) ])
  where
    out : (k w : ℕ) → k + w ≤ 24 → (i < at + k) ⊎ (at + k + w ≤ i)
    out k w l = elim apart [ inl p ↦ inl (omega arith) | inr p ↦ inr (omega arith) ]

-- What `wrap_around` leaves behind the chain.
abbrev pub skip_segment : ℕ → Ring → Segment
skip_segment buffer_size r =
    let at = r.write_pos % buffer_size in
    record {
      header = skip_header (buffer_size - at);
      content =
          load_bytes (write_skip r.buffer at (buffer_size - at)) (at + header_size)
            (buffer_size - at - header_size);
    }

pub aligned_offset :
    (buffer_size pos : ℕ) → buffer_size % 8 ≡ 0 → pos % 8 ≡ 0 → (pos % buffer_size) % 8 ≡ 0
aligned_offset buffer_size pos h l =
    let whole = div-add-mod' pos buffer_size in
    let eighths : buffer_size ≡ buffer_size / 8 * 8 = omega arith in
    let multiple =
      ap (λ (t : ℕ). pos / buffer_size * t) eighths
      ∙ sym (mul_assoc (pos / buffer_size) (buffer_size / 8) 8) in
    omega arith

module _ (buffer_size max_entry_size : ℕ) (g : IsGeometry buffer_size max_entry_size) where
  -- The chain goes on over the skipped area, to the start of the buffer. The area is as large as a
  -- header at least, and lies outside what is still needed.
  pub wrap_around-Chain :
      (r : Ring) (pos : ℕ) (ss : List Segment)
      → Chain buffer_size r.buffer pos ss r.write_pos
      → r.write_pos % 8 ≡ 0
      → let remaining = buffer_size - r.write_pos % buffer_size in
        header_size ≤ remaining
        → remaining ≤ max_entry_size
        → r.write_pos + header_size ≤ pos + buffer_size
        → Chain buffer_size
            (wrap_around buffer_size (take_seq r)).buffer
            pos
            (ss ++ (skip_segment buffer_size r ∷ []))
            (r.write_pos + remaining)
  unfolding wrap_around
  wrap_around-Chain r pos ss c even room small apart =
      let at = r.write_pos % buffer_size in
      let remaining = buffer_size - at in
      let mem' = write_skip r.buffer at remaining in
      let inside = offset-lt buffer_size g.some_room r.write_pos in
      let size : entry_size (remaining - header_size) ≡ remaining =
        entry_size-eight (remaining - header_size) (omega (arith, g.skip_fits))
        ∙ omega (arith, aligned_offset buffer_size r.write_pos g.aligned even, g.aligned) in
      Chain-append buffer_size mem' pos r.write_pos (r.write_pos + remaining) ss
        (skip_segment buffer_size r ∷ [])
        (Chain-cong buffer_size r.buffer mem' pos r.write_pos ss g.some_room
          (λ q a b. write_skip-apart r.buffer at remaining (q % buffer_size) room (
            offset-kept buffer_size g.some_room pos q r.write_pos header_size a b apart
              (omega arith)))
          c)
        (
          (
            load_header-write_skip r.buffer at remaining room (omega (arith, g.skip_fits)),
            refl,
            omega (arith, g.skip_fits),
          ),
          omega arith,
          omega arith,
        )
