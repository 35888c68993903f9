-- ===== src/Ring/Appended.antt =====
-- src/zrtools/zrt_shm_ring.h: what `Append` does to the log between a position and `write_pos`.
use zrtools.Prelude.{
  ℕ, suc, ◌+◌, ◌%◌, ◌^◌, ◌≤◌, ◌<◌, ◌≡◌, ◌≢◌, ◌⊎◌, inl, inr, refl, arith, List, [], ◌∷◌, ◌++◌,
  Option, some, length, All,
}
use zrtools.Wal.Entry.{header_size, write_entry}
use zrtools.Wal.Built.{
  IsWritable, written_header, load_header-write_entry, load_bytes-write_entry, write_entry-apart,
}
use zrtools.Ring.State.{Ring}
use zrtools.Ring.Append.{entry_size, append_from, wrap_around, take_seq, put_entry}
use zrtools.Ring.Offsets.{IsGeometry, entry_size-eight, offset-kept}
use zrtools.Ring.Chain.{Segment, IsLive, entries, Chain, Chain-append, Chain-cong}

module _ (buffer_size : ℕ) where
  -- From a position that is not yet confirmed, the memory holds a list of live segments.
  pub record IsLog (r : Ring) (pos : ℕ) (ss : List Segment) : Type 0 where
    pub chain : Chain buffer_size r.buffer pos ss r.write_pos
    pub live : All IsLive ss
    pub unconfirmed : r.confirmed_pos ≤ pos
    pub even : r.write_pos % 8 ≡ 0

abbrev pub entry_segment : ℕ → ℕ → ℕ → List ℕ → Segment
entry_segment seq timestamp_ns type content = record {
  header = written_header seq timestamp_ns type content;
  content = content;
}

pub entries-append :
    (front back : List Segment) → entries (front ++ back) ≡ entries front ++ entries back
unfolding entries
entries-append [] back = refl
entries-append (s ∷ front) back = ground (arith, entries-append front back)

pub IsLive-append : (xs ys : List Segment) → All IsLive xs → All IsLive ys → All IsLive (xs ++ ys)
IsLive-append [] ys h k = k
IsLive-append (x ∷ xs) ys h k = (h.0, IsLive-append xs ys h.1 k)

module _ (buffer_size max_entry_size : ℕ) (g : IsGeometry buffer_size max_entry_size) where
  pub put_entry-Chain :
      (r : Ring) (pos seq timestamp_ns type : ℕ) (content : List ℕ) (ss : List Segment)
      → Chain buffer_size r.buffer pos ss r.write_pos
      → IsWritable seq timestamp_ns type content
      → r.write_pos % buffer_size + entry_size (length content) ≤ buffer_size
      → r.write_pos + entry_size (length content) ≤ pos + buffer_size
      → Chain buffer_size
          (put_entry buffer_size r seq timestamp_ns type (some content) (length content)).buffer
          pos
          (ss ++ (entry_segment seq timestamp_ns type content ∷ []))
          (r.write_pos + entry_size (length content))
  unfolding put_entry
  put_entry-Chain r pos seq timestamp_ns type content ss c w fits room =
      let at = r.write_pos % buffer_size in
      let size = entry_size (length content) in
      let mem' = write_entry r.buffer at seq timestamp_ns type (some content) (length content) in
      let covers : header_size + length content ≤ size =
        omega (arith, entry_size-eight (length content) w.data_fits) in
      let lower : (q : ℕ)
          → (q % buffer_size < at) ⊎ (at + size ≤ q % buffer_size)
          → (q % buffer_size < at) ⊎ (at + header_size + length content ≤ q % buffer_size) =
        λ q h. elim h [ inl l ↦ inl l | inr l ↦ inr (omega arith) ] in
      Chain-append buffer_size mem' pos r.write_pos (r.write_pos + size) ss
        (entry_segment seq timestamp_ns type content ∷ [])
        (Chain-cong buffer_size r.buffer mem' pos r.write_pos ss g.some_room
          (λ q a b.
            write_entry-apart r.buffer at seq timestamp_ns type content (q % buffer_size)
              w.data_fits
              (lower q (offset-kept buffer_size g.some_room pos q r.write_pos size a b room fits)))
          c)
        (
          (
            load_header-write_entry r.buffer at seq timestamp_ns type content w,
            load_bytes-write_entry r.buffer at seq timestamp_ns type content w.data_fits,
            w.data_fits,
          ),
          fits,
          refl,
        )

  -- A call whose arguments and numbers fit their types, where the bytes before the end of the buffer
  -- take the entry or a header.
  pub record IsCall (now : ℕ → ℕ) (r : Ring) (type : ℕ) (content : List ℕ) : Type 0 where
    pub type_some : type ≢ 0
    pub type_fits : type < 2 ^ 16
    pub data_fits : length content < 2 ^ 16
    pub clock_fits : (n : ℕ) → now n < 2 ^ 64
    pub seq_some : 0 < r.next_seq
    pub seq_fits : r.next_seq + 2 ≤ 2 ^ 64
    pub positions_fit : r.write_pos + buffer_size + buffer_size + buffer_size < 2 ^ 64
    pub tail :
        (r.write_pos % buffer_size + entry_size (length content) ≤ buffer_size)
        ⊎ (r.write_pos % buffer_size + header_size ≤ buffer_size)

  -- Too large, or no room before the confirmed position.
  abbrev pub IsRefusal : Ring → ℕ → Type 0
  IsRefusal r size = (max_entry_size < size) ⊎ (r.confirmed_pos + buffer_size < r.write_pos + size)

  -- The number that is returned, and the log: either nothing is added, for a reason, or the entry is.
  abbrev pub IsAppended : (ℕ → ℕ) → ℕ → List Segment → ℕ → List ℕ → Option (ℕ × Ring) → Type 0
  IsAppended now pos ss type content result =
      (n : ℕ) × (r' : Ring) × (ss' : List Segment) × (result ≡ some (n, r'))
      × IsLog buffer_size r' pos ss'
      × (((n ≡ 0) × (entries ss' ≡ entries ss) × IsRefusal r' (entry_size (length content)))
          ⊎ ((n ≢ 0)
              × (entries ss'
                  ≡ entries ss ++ ((written_header n (now n) type content, content) ∷ []))))

  module _ (now : ℕ → ℕ) (r : Ring) (type : ℕ) (content : List ℕ) where
    pub append_from-refused :
        (fuel : ℕ)
        → r.confirmed_pos ≤ r.write_pos
        → r.write_pos + buffer_size + buffer_size < 2 ^ 64
        → length content < 2 ^ 16
        → IsRefusal r (entry_size (length content))
        → append_from buffer_size max_entry_size now
            (suc fuel)
            r
            type
            (some content)
            (length content)
          ≡ some (0, r)
    unfolding append_from
    append_from-refused fuel h l d (inl large) = ground arith
    append_from-refused fuel h l d (inr full) = ground (arith, entry_size-eight (length content) d)

    pub append_from-put :
        (fuel : ℕ)
        → r.confirmed_pos ≤ r.write_pos
        → r.write_pos + buffer_size + buffer_size < 2 ^ 64
        → entry_size (length content) ≤ max_entry_size
        → r.write_pos + entry_size (length content) ≤ r.confirmed_pos + buffer_size
        → r.write_pos % buffer_size + entry_size (length content) ≤ buffer_size
        → append_from buffer_size max_entry_size now
            (suc fuel)
            r
            type
            (some content)
            (length content)
          ≡ some (
            r.next_seq,
            put_entry buffer_size
                (take_seq r)
                r.next_seq
                (now r.next_seq)
                type
                (some content)
                (length content),
          )
    unfolding append_from
    append_from-put fuel h l small room fits = ground arith

    pub append_from-wrap :
        (fuel : ℕ)
        → r.confirmed_pos ≤ r.write_pos
        → r.write_pos + buffer_size + buffer_size < 2 ^ 64
        → entry_size (length content) ≤ max_entry_size
        → r.write_pos + entry_size (length content) ≤ r.confirmed_pos + buffer_size
        → buffer_size < r.write_pos % buffer_size + entry_size (length content)
        → append_from buffer_size max_entry_size now
            (suc fuel)
            r
            type
            (some content)
            (length content)
          ≡ append_from buffer_size max_entry_size now fuel
              (wrap_around buffer_size (take_seq r))
              type
              (some content)
              (length content)
    unfolding append_from
    append_from-wrap fuel h l small room fits = ground arith
