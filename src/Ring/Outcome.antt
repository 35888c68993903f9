-- ===== src/Ring/Outcome.antt =====
-- src/zrtools/zrt_shm_ring.h: every call of `Append` on a ring that holds a log.
use zrtools.Prelude.{
  wrap64, ℕ, suc, ◌+◌, ◌-◌, ◌%◌, ◌^◌, ◌≤◌, ◌<◌, ◌≡◌, ◌≢◌, ◌⊎◌, inl, inr, ◌∙◌, ap, refl, arith, List,
  [], ◌∷◌, ◌++◌, append-nil, some, length,
}
use zrtools.Wal.Entry.{Header, header_size}
use zrtools.Wal.Built.{IsWritable, written_header}
use zrtools.Ring.State.{Ring}
use zrtools.Ring.Append.{entry_size, append_from, wrap_around, take_seq, put_entry}
use zrtools.Ring.Offsets.{IsGeometry, entry_size-eight}
use zrtools.Ring.Chain.{Segment, entries, Chain-le, Chain-end}
use zrtools.Ring.Skip.{skip_segment, wrap_around-Chain, aligned_offset}
use zrtools.Ring.Appended.{
  IsLog, entry_segment, entries-append, IsLive-append, put_entry-Chain, IsRefusal, IsAppended,
  append_from-refused, append_from-put,
}

pub entries-skip :
    (buffer_size : ℕ) (r : Ring) (ss : List Segment)
    → entries (ss ++ (skip_segment buffer_size r ∷ [])) ≡ entries ss
unfolding entries
entries-skip buffer_size r ss =
    entries-append ss (skip_segment buffer_size r ∷ []) ∙ append-nil (entries ss)

entries-entry :
    (seq timestamp_ns type : ℕ) (content : List ℕ) (ss : List Segment)
    → seq ≢ 0
    → type ≢ 0
    → entries (ss ++ (entry_segment seq timestamp_ns type content ∷ []))
      ≡ entries ss ++ ((written_header seq timestamp_ns type content, content) ∷ [])
unfolding entries
entries-entry seq timestamp_ns type content ss h k =
    entries-append ss (entry_segment seq timestamp_ns type content ∷ [])
    ∙ ap (λ (t : List (Header × List ℕ)). entries ss ++ t) (grind arith)

module _ (buffer_size max_entry_size : ℕ) (g : IsGeometry buffer_size max_entry_size) where
  pub put_entry-IsLog :
      (r : Ring) (pos seq timestamp_ns type : ℕ) (content : List ℕ) (ss : List Segment)
      → IsLog buffer_size r pos ss
      → IsWritable seq timestamp_ns type content
      → seq ≢ 0
      → type ≢ 0
      → r.write_pos % buffer_size + entry_size (length content) ≤ buffer_size
      → r.write_pos + entry_size (length content) ≤ r.confirmed_pos + buffer_size
      → r.write_pos + buffer_size < 2 ^ 64
      → IsLog buffer_size
          (put_entry buffer_size (take_seq r) seq timestamp_ns type (some content) (length content))
          pos
          (ss ++ (entry_segment seq timestamp_ns type content ∷ []))
  unfolding put_entry
  put_entry-IsLog r pos seq timestamp_ns type content ss log w h k fits room small =
      let end : r.write_pos + entry_size (length content)
          ≡ wrap64 (r.write_pos + entry_size (length content)) =
        omega arith in
      record {
        chain =
            Chain-end buffer_size
              (put_entry buffer_size (take_seq r) seq timestamp_ns type (some content)
                (length content)).buffer
              pos (ss ++ (entry_segment seq timestamp_ns type content ∷ [])) end
              (put_entry-Chain buffer_size max_entry_size g (take_seq r) pos seq timestamp_ns type
                content ss log.chain w fits (omega (arith, log.unconfirmed)));
        live = IsLive-append ss _ log.live (inr (h, k, refl, refl), tt);
        unconfirmed = log.unconfirmed;
        even = omega (arith, log.even, entry_size-eight (length content) w.data_fits);
      }

  pub wrap_around-IsLog :
      (r : Ring) (pos : ℕ) (ss : List Segment)
      → IsLog buffer_size r pos ss
      → header_size ≤ buffer_size - r.write_pos % buffer_size
      → buffer_size - r.write_pos % buffer_size ≤ max_entry_size
      → r.write_pos + header_size ≤ r.confirmed_pos + buffer_size
      → r.write_pos + buffer_size < 2 ^ 64
      → IsLog buffer_size
          (wrap_around buffer_size (take_seq r))
          pos
          (ss ++ (skip_segment buffer_size r ∷ []))
  unfolding wrap_around
  wrap_around-IsLog r pos ss log room most apart small =
      let end : r.write_pos + (buffer_size - r.write_pos % buffer_size)
          ≡ wrap64 (r.write_pos + (buffer_size - r.write_pos % buffer_size)) =
        omega arith in
      record {
        chain =
            Chain-end buffer_size (wrap_around buffer_size (take_seq r)).buffer pos
              (ss ++ (skip_segment buffer_size r ∷ [])) end
              (wrap_around-Chain buffer_size max_entry_size g r pos ss log.chain log.even room most
                (omega (arith, log.unconfirmed)));
        live = IsLive-append ss _ log.live (inl refl, tt);
        unconfirmed = log.unconfirmed;
        even =
            omega (
              arith,
              log.even,
              g.aligned,
              aligned_offset buffer_size r.write_pos g.aligned log.even,
            );
      }

  -- A ring on which the entry does not cross the end needs one call.
  pub settled-IsAppended :
      (now : ℕ → ℕ) (fuel : ℕ) (r : Ring) (pos type : ℕ) (content : List ℕ) (ss : List Segment)
      → IsLog buffer_size r pos ss
      → IsWritable r.next_seq (now r.next_seq) type content
      → r.next_seq ≢ 0
      → type ≢ 0
      → r.write_pos + buffer_size + buffer_size < 2 ^ 64
      → r.write_pos % buffer_size + entry_size (length content) ≤ buffer_size
      → IsAppended buffer_size max_entry_size g now pos ss type content (
          append_from buffer_size max_entry_size now
            (suc fuel)
            r
            type
            (some content)
            (length content))
  settled-IsAppended now fuel r pos type content ss log w h k small fits =
      let used : r.confirmed_pos ≤ r.write_pos =
        omega
          (arith, log.unconfirmed, Chain-le buffer_size r.buffer pos r.write_pos ss log.chain) in
      elim (cases (entry_size (length content))) [
        | inl refused ↦ (
          0,
          r,
          ss,
          append_from-refused buffer_size max_entry_size g now r type content fuel used small
              w.data_fits refused,
          log,
          inl (refl, refl, refused),
        )
        | inr (most, room) ↦ (
          r.next_seq,
          put_entry buffer_size (take_seq r) r.next_seq (now r.next_seq) type (some content)
              (length content),
          ss ++ (entry_segment r.next_seq (now r.next_seq) type content ∷ []),
          append_from-put buffer_size max_entry_size g now r type content fuel used small most room
              fits,
          put_entry-IsLog r pos r.next_seq (now r.next_seq) type content ss log w h k fits room
              (omega arith),
          inr (h, entries-entry r.next_seq (now r.next_seq) type content ss h k),
        )
      ]
    where
      cases :
          (size : ℕ)
          → IsRefusal buffer_size max_entry_size g r size
            ⊎ ((size ≤ max_entry_size) × (r.write_pos + size ≤ r.confirmed_pos + buffer_size))
      cases size = grind arith
