-- ===== src/Ring/Chain.antt =====
-- src/zrtools/zrt_shm_ring.h: the headers and data that lie one after the other between two positions.
use zrtools.Prelude.{
  ℕ, ◌+◌, ◌%◌, ◌^◌, ◌≤◌, ◌<◌, ◌≡◌, ◌≢◌, ◌⊎◌, ◌∙◌, ap, sym, refl, subst, arith, List, [], ◌∷◌, ◌++◌,
  length, if◌then◌else◌,
}
use zrtools.Wal.Memory.{Memory, load_bytes, load_bytes-cong}
use zrtools.Wal.Words.{load_word, load_word-cong}
use zrtools.Wal.Entry.{Header, header_size, load_header}
use zrtools.Wal.Built.{data_crc}
use zrtools.Ring.Append.{entry_size}
use zrtools.Ring.Read.{is_skipped}
use zrtools.Ring.Offsets.{entry_size-eight, offset-inside}

pub record Segment : Type 0 where
  pub header : Header
  pub content : List ℕ

-- A segment at an offset.
abbrev pub IsAt : Memory → ℕ → Segment → Type 0
IsAt mem at s =
    (load_header mem at ≡ s.header)
    × (load_bytes mem (at + header_size) s.header.data_len ≡ s.content)
    × (s.header.data_len < 2 ^ 16)

-- An entry that a reader returns, or a skipped area.
abbrev pub IsLive : Segment → Type 0
IsLive s =
    (s.header.seq ≡ 0)
    ⊎ ((s.header.seq ≢ 0)
        × (s.header.type ≢ 0)
        × (length s.content ≡ s.header.data_len)
        × (s.header.crc32 ≡ data_crc s.content))

-- What is to be read: the entries, without the skipped areas.
unfoldable pub entries : List Segment → List (Header × List ℕ)
entries [] = []
entries (s ∷ ss) =
    let rest = entries ss in if is_skipped s.header then rest else (s.header, s.content) ∷ rest

pub IsAt-cong :
    (mem mem' : Memory) (at : ℕ) (s : Segment)
    → ((i : ℕ) → i < header_size + s.header.data_len → mem' (at + i) ≡ mem (at + i))
    → IsAt mem at s
    → IsAt mem' at s
unfolding load_header
IsAt-cong mem mem' at s same h = (
  (λ i. record {
    seq = load_word-cong mem' mem at at 8 (λ j l. same j (omega arith)) i;
    timestamp_ns = field 8 8 (omega arith) i;
    type = field 16 2 (omega arith) i;
    data_len = field 18 2 (omega arith) i;
    crc32 = field 20 4 (omega arith) i;
  })
      ∙ h.0,
  load_bytes-cong mem' mem (at + header_size) (at + header_size) s.header.data_len
        (λ j l. inner 24 j (omega arith))
      ∙ h.1,
  h.2,
)
  where
    inner :
        (k j : ℕ) → k + j < header_size + s.header.data_len → mem' (at + k + j) ≡ mem (at + k + j)
    inner k j l = ap mem' (omega arith) ∙ same (k + j) l ∙ ap mem (omega arith)

    field : (k n : ℕ) → k + n ≤ 24 → load_word mem' (at + k) n ≡ load_word mem (at + k) n
    field k n l = load_word-cong mem' mem (at + k) (at + k) n (λ j m. inner k j (omega arith))

module _ (buffer_size : ℕ) where
  -- The segments from a position on, none across the end of the buffer.
  abbrev pub Chain : Memory → ℕ → List Segment → ℕ → Type 0
  Chain mem pos [] end = pos ≡ end
  Chain mem pos (s ∷ ss) end =
      IsAt mem (pos % buffer_size) s
      × (pos % buffer_size + entry_size s.header.data_len ≤ buffer_size)
      × Chain mem (pos + entry_size s.header.data_len) ss end

  pub Chain-end :
      (mem : Memory) (pos : ℕ) (ss : List Segment) {end end' : ℕ}
      → end ≡ end'
      → Chain mem pos ss end
      → Chain mem pos ss end'
  Chain-end mem pos ss e c = subst (λ (n : ℕ). Chain mem pos ss n) e c

  pub Chain-append :
      (mem : Memory) (pos middle end : ℕ) (front back : List Segment)
      → Chain mem pos front middle
      → Chain mem middle back end
      → Chain mem pos (front ++ back) end
  Chain-append mem pos middle end [] back c d = subst (λ (p : ℕ). Chain mem p back end) (sym c) d
  Chain-append mem pos middle end (s ∷ front) back c d =
      (c.0, c.1, Chain-append mem (pos + entry_size s.header.data_len) middle end front back c.2 d)

  pub Chain-split :
      (mem : Memory) (pos end : ℕ) (front back : List Segment)
      → Chain mem pos (front ++ back) end
      → (middle : ℕ) × Chain mem pos front middle × Chain mem middle back end
  Chain-split mem pos end [] back c = (pos, refl, c)
  Chain-split mem pos end (s ∷ front) back c =
      let (middle, a, b) =
        Chain-split mem (pos + entry_size s.header.data_len) end front back c.2 in
      (middle, (c.0, c.1, a), b)

  pub Chain-le : (mem : Memory) (pos end : ℕ) (ss : List Segment) → Chain mem pos ss end → pos ≤ end
  Chain-le mem pos end [] c = omega arith
  Chain-le mem pos end (s ∷ ss) c =
      omega (arith, Chain-le mem (pos + entry_size s.header.data_len) end ss c.2)

  -- A chain depends on the bytes between its ends only.
  pub Chain-cong :
      (mem mem' : Memory) (pos end : ℕ) (ss : List Segment)
      → 0 < buffer_size
      → ((q : ℕ) → pos ≤ q → q < end → mem' (q % buffer_size) ≡ mem (q % buffer_size))
      → Chain mem pos ss end
      → Chain mem' pos ss end
  Chain-cong mem mem' pos end [] room same c = c
  Chain-cong mem mem' pos end (s ∷ ss) room same c =
      let size = entry_size s.header.data_len in
      let size_is = entry_size-eight s.header.data_len c.0.2 in
      let later = Chain-le mem (pos + size) end ss c.2 in
      (
        IsAt-cong mem mem' (pos % buffer_size) s
            (λ i l.
              let here = offset-inside buffer_size room pos i (omega (arith, c.1)) in
              ap mem' (sym here) ∙ same (pos + i) (omega arith) (omega arith) ∙ ap mem here)
            c.0,
        c.1,
        Chain-cong mem mem' (pos + size) end ss room (λ q a b. same q (omega arith) b) c.2,
      )
