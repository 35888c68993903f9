-- ===== src/Ring/Next.antt =====
-- src/zrtools/zrt_shm_ring.h: `ReadNext` takes the entries in the order of the log.
use zrtools.Prelude.{
  wrap64, ℕ, zero, suc, ◌+◌, ◌-◌, ◌%◌, ◌^◌, ◌≤◌, ◌<◌, ◌≡◌, ◌⊎◌, inl, inr, ◌∙◌, ap, ap₂, refl, arith,
  List, [], ◌∷◌, Bool, true, false, All, Option, some, none, leb,
}
use zrtools.Wal.Entry.{Header, load_header, validate_crc}
use zrtools.Ring.State.{Ring}
use zrtools.Ring.Append.{entry_size}
use zrtools.Ring.Read.{is_skipped, copied_data, advance_read, read_from}
use zrtools.Ring.Chain.{Segment, IsLive, entries, Chain, Chain-le}
use zrtools.Ring.Offsets.{entry_size-eight}
use zrtools.Ring.Segments.{
  live_cases, entries-none, entries-skipped, entries-entry_first, validate_crc-IsEntry, delivered,
  copied_data-delivered,
}

-- The ring with another read position.
abbrev pub at_read : Ring → ℕ → Ring
at_read r pos = record r { read_pos = pos }

module _ (buffer_size : ℕ) where
  module _ (r : Ring) (is_null : Bool) (max_len : ℕ) where
    read_from-end :
        (fuel : ℕ)
        → r.write_pos ≤ r.read_pos
        → read_from buffer_size (suc fuel) r is_null max_len ≡ some (none, r)
    unfolding read_from
    read_from-end fuel h = ground arith

    read_from-skipped :
        (fuel : ℕ) (s : Segment)
        → r.read_pos < r.write_pos
        → load_header r.buffer (r.read_pos % buffer_size) ≡ s.header
        → is_skipped s.header ≡ true
        → read_from buffer_size (suc fuel) r is_null max_len
          ≡ read_from buffer_size fuel
              (advance_read buffer_size r (entry_size s.header.data_len))
              is_null
              max_len
    unfolding read_from
    read_from-skipped fuel s h e k =
        let before : leb r.write_pos r.read_pos ≡ false = ground arith in rw (e, k, before) refl

    read_from-entry :
        (fuel : ℕ) (s : Segment)
        → r.read_pos < r.write_pos
        → load_header r.buffer (r.read_pos % buffer_size) ≡ s.header
        → is_skipped s.header ≡ false
        → validate_crc r.buffer (r.read_pos % buffer_size) ≡ true
        → read_from buffer_size (suc fuel) r is_null max_len
          ≡ some (
            some (s.header, copied_data r (r.read_pos % buffer_size) s.header is_null max_len),
            advance_read buffer_size r (entry_size s.header.data_len),
          )
    unfolding read_from
    read_from-entry fuel s h e k v =
        let before : leb r.write_pos r.read_pos ≡ false = ground arith in rw (e, k, v, before) refl

    -- The first entry and the rest of the log behind it, or the end of the log.
    abbrev pub IsRead : List Segment → Option (Option (Header × List ℕ) × Ring) → Type 0
    IsRead ss result =
        ((entries ss ≡ []) × (result ≡ some (none, at_read r r.write_pos)))
        ⊎ ((h : Header) × (content : List ℕ) × (pos : ℕ) × (back : List Segment) × (entries ss
              ≡ (h, content) ∷ entries back)
            × (result ≡ some (some (h, delivered is_null max_len content), at_read r pos))
            × Chain buffer_size r.buffer pos back r.write_pos
            × All IsLive back)

  module _ (r : Ring) (is_null : Bool) (max_len : ℕ) where
    -- Over a skipped area.
    pass_skipped :
        (s : Segment) (ss : List Segment) {result again : Option (Option (Header × List ℕ) × Ring)}
        → is_skipped s.header ≡ true
        → result ≡ again
        → IsRead r is_null max_len ss again
        → IsRead r is_null max_len (s ∷ ss) result
    pass_skipped s ss skip same (inl (nothing, ends)) =
        inl (entries-skipped s ss skip ∙ nothing, same ∙ ends)
    pass_skipped s ss skip same (inr (h, content, pos, back, first, ends, chain, live)) =
        inr (h, content, pos, back, entries-skipped s ss skip ∙ first, same ∙ ends, chain, live)

    read_from-Chain :
        (fuel pos : ℕ) (ss : List Segment)
        → Chain buffer_size r.buffer pos ss r.write_pos
        → All IsLive ss
        → r.write_pos < 2 ^ 64
        → r.write_pos - pos < fuel
        → IsRead r is_null max_len ss (read_from buffer_size fuel (at_read r pos) is_null max_len)
    read_from-Chain zero pos ss c l small enough = absurd (omega arith)
    read_from-Chain (suc fuel) pos [] c l small enough = inl (
      entries-none,
      read_from-end (at_read r pos) is_null max_len fuel (omega arith)
          ∙ ap (λ (p : ℕ). some (none, at_read r p)) c,
    )
    read_from-Chain (suc fuel) pos (s ∷ ss) c l small enough =
        let size = entry_size-eight s.header.data_len c.0.2 in
        let behind = pos + entry_size s.header.data_len in
        let later = Chain-le buffer_size r.buffer behind r.write_pos ss c.2 in
        let next : wrap64 behind ≡ behind = omega arith in
        elim (live_cases s l.0) [
          | inl skip ↦
              pass_skipped s ss skip
                (read_from-skipped (at_read r pos) is_null max_len fuel s (omega arith) c.0.0 skip
                  ∙ ap (λ (p : ℕ). read_from buffer_size fuel (at_read r p) is_null max_len) next)
                (read_from-Chain fuel behind ss c.2 l.1 small (omega arith))
          | inr entry ↦ inr (
            s.header,
            s.content,
            behind,
            ss,
            entries-entry_first s ss entry.0,
            read_from-entry (at_read r pos) is_null max_len fuel s (omega arith) c.0.0 entry.0
                  (validate_crc-IsEntry r.buffer (pos % buffer_size) s c.0 entry)
                ∙ ap₂ (λ (d : List ℕ) (p : ℕ). some (some (s.header, d), at_read r p))
                    (copied_data-delivered (at_read r pos) (pos % buffer_size) s is_null max_len c.0
                      entry.1)
                    next,
            c.2,
            l.1,
          )
        ]

  -- On a ring whose log begins at the read position, the recursion of `ReadNext` ends. It is false only
  -- if no entry is left; else it gives the first entry with the data that the caller's buffer takes, and
  -- the log goes on behind that entry.
  pub read_from-IsRead :
      (r : Ring) (is_null : Bool) (max_len : ℕ) (ss : List Segment)
      → Chain buffer_size r.buffer r.read_pos ss r.write_pos
      → All IsLive ss
      → r.write_pos < 2 ^ 64
      → IsRead r is_null max_len ss
          (read_from buffer_size (suc (r.write_pos - r.read_pos)) r is_null max_len)
  read_from-IsRead r is_null max_len ss c l small =
      read_from-Chain r is_null max_len (suc (r.write_pos - r.read_pos)) r.read_pos ss c l small
        (omega arith)
