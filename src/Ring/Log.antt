-- ===== src/Ring/Log.antt =====
-- src/zrtools/zrt_shm_ring.h: `Append` adds an entry to the log, or nothing.
use zrtools.Prelude.{
  ℕ, ◌+◌, ◌-◌, ◌%◌, ◌^◌, ◌≤◌, ◌<◌, ◌≡◌, ◌⊎◌, inl, inr, ◌∙◌, ap, refl, arith, List, [], ◌∷◌, ◌++◌,
  Option, some, length,
}
use zrtools.Wal.Entry.{header_size}
use zrtools.Wal.Built.{written_header}
use zrtools.Ring.State.{Ring}
use zrtools.Ring.Append.{entry_size, append_from, wrap_around, take_seq}
use zrtools.Ring.Offsets.{IsGeometry, offset-lt, offset-beyond}
use zrtools.Ring.Chain.{Segment, entries, Chain-le}
use zrtools.Ring.Skip.{skip_segment}
use zrtools.Ring.Appended.{
  IsLog, IsCall, IsRefusal, IsAppended, append_from-refused, append_from-wrap,
}
use zrtools.Ring.Outcome.{entries-skip, wrap_around-IsLog, settled-IsAppended}

module _ (buffer_size max_entry_size : ℕ) (g : IsGeometry buffer_size max_entry_size) where
  wrapped_pos :
      (r : Ring)
      → r.write_pos + buffer_size + buffer_size < 2 ^ 64
      → (wrap_around buffer_size (take_seq r)).write_pos
        ≡ r.write_pos + (buffer_size - r.write_pos % buffer_size)
  unfolding wrap_around
  wrapped_pos r h = omega arith

  wrapped_seq :
      (r : Ring)
      → r.next_seq + 2 ≤ 2 ^ 64
      → (wrap_around buffer_size (take_seq r)).next_seq ≡ r.next_seq + 1
  unfolding wrap_around
  wrapped_seq r h = omega arith

  wrapped_offset :
      (r : Ring)
      → r.write_pos + buffer_size + buffer_size < 2 ^ 64
      → (wrap_around buffer_size (take_seq r)).write_pos % buffer_size ≡ 0
  wrapped_offset r h =
      let inside = offset-lt buffer_size g.some_room r.write_pos in
      ap (λ (w : ℕ). w % buffer_size) (wrapped_pos r h)
      ∙ omega (
        arith,
        offset-beyond buffer_size g.some_room r.write_pos (buffer_size - r.write_pos % buffer_size)
            (omega arith) (omega arith),
      )

  -- A log with a skipped area at its end has the same entries.
  retell :
      (now : ℕ → ℕ) (pos type : ℕ) (content : List ℕ) (ss ss' : List Segment)
      {result again : Option (ℕ × Ring)}
      → entries ss' ≡ entries ss
      → result ≡ again
      → IsAppended buffer_size max_entry_size g now pos ss' type content again
      → IsAppended buffer_size max_entry_size g now pos ss type content result
  retell now pos type content ss ss' e same
        (n, r', longer, ends, log, inl (none_added, entries_are, why)) =
      (n, r', longer, same ∙ ends, log, inl (none_added, entries_are ∙ e, why))
  retell now pos type content ss ss' e same
        (n, r', longer, ends, log, inr (some_seq, entries_are)) =
      (
        n,
        r',
        longer,
        same ∙ ends,
        log,
        inr (
          some_seq,
          entries_are ∙ ap (λ t. t ++ ((written_header n (now n) type content, content) ∷ [])) e,
        ),
      )

  -- The second call, which begins at the start of the buffer.
  wrapped-IsAppended :
      (now : ℕ → ℕ) (r : Ring) (pos type : ℕ) (content : List ℕ) (ss : List Segment)
      → IsLog buffer_size r pos ss
      → IsCall buffer_size max_entry_size g now r type content
      → entry_size (length content) ≤ max_entry_size
      → r.write_pos + entry_size (length content) ≤ r.confirmed_pos + buffer_size
      → buffer_size < r.write_pos % buffer_size + entry_size (length content)
      → header_size ≤ buffer_size - r.write_pos % buffer_size
      → IsAppended buffer_size max_entry_size g now pos
          (ss ++ (skip_segment buffer_size r ∷ []))
          type
          content
          (append_from buffer_size max_entry_size now 1
            (wrap_around buffer_size (take_seq r))
            type
            (some content)
            (length content))
  wrapped-IsAppended now r pos type content ss log c most room crosses header =
      let small = wrapped_pos r (omega (arith, c.positions_fit)) in
      let number = wrapped_seq r c.seq_fits in
      let start = wrapped_offset r (omega (arith, c.positions_fit)) in
      settled-IsAppended buffer_size max_entry_size g now 0 (wrap_around buffer_size (take_seq r))
        pos type content (ss ++ (skip_segment buffer_size r ∷ []))
        (wrap_around-IsLog buffer_size max_entry_size g r pos ss log header (omega arith)
          (omega arith) (omega (arith, c.positions_fit)))
        (record {
          seq_fits = omega (arith, c.seq_fits);
          timestamp_fits = c.clock_fits _;
          type_fits = c.type_fits;
          data_fits = c.data_fits;
        })
        (λ e. omega arith) c.type_some (omega (arith, c.positions_fit))
        (omega (arith, g.entry_fits))

  -- A call of `Append` that begins on a log ends within two rounds. Either the number is 0, the entries
  -- are as before, and the entry is too large or does not fit before the confirmed position, or the
  -- number is not 0 and the entry with it is the last of the log. The numbers fit their types, and no
  -- tail shorter than a header is left where the entry would cross the end.
  pub append_from-IsAppended :
      (now : ℕ → ℕ) (r : Ring) (pos type : ℕ) (content : List ℕ) (ss : List Segment)
      → IsLog buffer_size r pos ss
      → IsCall buffer_size max_entry_size g now r type content
      → IsAppended buffer_size max_entry_size g now pos ss type content
          (append_from buffer_size max_entry_size now 2 r type (some content) (length content))
  append_from-IsAppended now r pos type content ss log c =
      let used : r.confirmed_pos ≤ r.write_pos =
        omega
          (arith, log.unconfirmed, Chain-le buffer_size r.buffer pos r.write_pos ss log.chain) in
      let small : r.write_pos + buffer_size + buffer_size < 2 ^ 64 =
        omega (arith, c.positions_fit) in
      elim (cases (entry_size (length content))) [
        | inl fits ↦
            settled-IsAppended buffer_size max_entry_size g now 1 r pos type content ss log
              (record {
                seq_fits = omega (arith, c.seq_fits);
                timestamp_fits = c.clock_fits r.next_seq;
                type_fits = c.type_fits;
                data_fits = c.data_fits;
              })
              (λ e. omega (arith, c.seq_some)) c.type_some small fits
        | inr (inl (crosses, refused)) ↦ (
          0,
          r,
          ss,
          append_from-refused buffer_size max_entry_size g now r type content 1 used small
              c.data_fits refused,
          log,
          inl (refl, refl, refused),
        )
        | inr (inr (crosses, most, room)) ↦
            retell now pos type content ss (ss ++ (skip_segment buffer_size r ∷ []))
              (entries-skip buffer_size r ss)
              (append_from-wrap buffer_size max_entry_size g now r type content 1 used small most
                room crosses)
              (wrapped-IsAppended now r pos type content ss log c most room crosses
                (header (entry_size (length content)) c.tail crosses))
      ]
    where
      cases :
          (size : ℕ)
          → (r.write_pos % buffer_size + size ≤ buffer_size)
            ⊎ ((buffer_size < r.write_pos % buffer_size + size)
                × IsRefusal buffer_size max_entry_size g r size)
            ⊎ ((buffer_size < r.write_pos % buffer_size + size)
                × (size ≤ max_entry_size)
                × (r.write_pos + size ≤ r.confirmed_pos + buffer_size))
      cases size = grind arith

      header :
          (size : ℕ)
          → (r.write_pos % buffer_size + size ≤ buffer_size)
            ⊎ (r.write_pos % buffer_size + header_size ≤ buffer_size)
          → buffer_size < r.write_pos % buffer_size + size
          → header_size ≤ buffer_size - r.write_pos % buffer_size
      header size (inl fits) crosses = absurd (omega arith)
      header size (inr room) crosses = omega arith
