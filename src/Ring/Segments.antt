-- ===== src/Ring/Segments.antt =====
-- src/zrtools/zrt_shm_ring.h: what a reader of the ring decides at a segment of the log.
use zrtools.Prelude.{
  ℕ, zero, suc, ◌+◌, ◌≡◌, ◌⊎◌, inl, inr, ◌∙◌, ap, sym, refl, arith, List, [], ◌∷◌, Bool, true,
  false, length, take, min, ◌==◌, ltb, if◌then◌else◌,
}
use zrtools.Wal.Memory.{Memory, load_bytes, take-load_bytes}
use zrtools.Wal.Entry.{header_size, entry_data, validate_crc}
use zrtools.Wal.Built.{data_crc, validate_crc_iff}
use zrtools.Ring.State.{Ring}
use zrtools.Ring.Read.{is_skipped, copied_data}
use zrtools.Ring.Chain.{Segment, IsAt, IsLive, entries}

-- An entry, which is returned.
abbrev pub IsEntry : Segment → Type 0
IsEntry s =
    (is_skipped s.header ≡ false)
    × (length s.content ≡ s.header.data_len)
    × (s.header.crc32 ≡ data_crc s.content)

pub live_cases : (s : Segment) → IsLive s → (is_skipped s.header ≡ true) ⊎ IsEntry s
live_cases s (inl h) = inl (ground arith)
live_cases s (inr (h, k, l, c)) = inr (ground arith, l, c)

pub entries-none : entries [] ≡ []
unfolding entries
entries-none = refl

pub entries-skipped :
    (s : Segment) (ss : List Segment) → is_skipped s.header ≡ true → entries (s ∷ ss) ≡ entries ss
unfolding entries
entries-skipped s ss h = rw h refl

pub entries-entry_first :
    (s : Segment) (ss : List Segment)
    → is_skipped s.header ≡ false
    → entries (s ∷ ss) ≡ (s.header, s.content) ∷ entries ss
unfolding entries
entries-entry_first s ss h = rw h refl

-- The checksum of an entry passes.
pub validate_crc-IsEntry :
    (mem : Memory) (at : ℕ) (s : Segment) → IsAt mem at s → IsEntry s → validate_crc mem at ≡ true
validate_crc-IsEntry mem at s h e =
    validate_crc_iff mem at s.header s.content h.0 h.1 e.1 ∙ same s.header.crc32 _ e.2
  where
    same : (n m : ℕ) → n ≡ m → (n == m) ≡ true
    same n m p = ground arith

pub entry_data-IsAt :
    (mem : Memory) (at : ℕ) (s : Segment) → IsAt mem at s → entry_data mem at ≡ s.content
unfolding entry_data
entry_data-IsAt mem at s h = rw h.0 h.1

-- What the caller's buffer receives.
unfoldable pub delivered : Bool → ℕ → List ℕ → List ℕ
delivered is_null max_len content = if is_null then [] else take max_len content

pub take-none : {A : Type 0} (n : ℕ) → take {A = A} n [] ≡ []
take-none zero = refl
take-none (suc n) = refl

take-min-length : {A : Type 0} (xs : List A) (n : ℕ) → take (min (length xs) n) xs ≡ take n xs
take-min-length [] n = let none_left : min 0 n ≡ 0 = omega arith in rw (none_left, take-none n) refl
take-min-length (x ∷ xs) zero =
    let none_left : min (length (x ∷ xs)) 0 ≡ 0 = omega arith in rw none_left refl
take-min-length (x ∷ xs) (suc n) =
    let one_more : min (length (x ∷ xs)) (suc n) ≡ suc (min (length xs) n) = omega arith in
    rw one_more (ap (◌∷◌ x) (take-min-length xs n))

-- The copy is limited by the length of the text and that of the buffer.
copied :
    (mem : Memory) (at len max_len : ℕ) (content : List ℕ)
    → load_bytes mem at len ≡ content
    → length content ≡ len
    → (if ltb 0 len then load_bytes mem at (min len max_len) else []) ≡ take max_len content
copied mem at zero max_len [] h e = sym (take-none max_len)
copied mem at (suc len) max_len [] h e = absurd (omega arith)
copied mem at zero max_len (b ∷ bs) h e = absurd (omega arith)
copied mem at (suc len) max_len (b ∷ bs) h e =
    let some_data : ltb 0 (suc len) ≡ true = ground arith in
    rw (some_data, take-load_bytes mem at (min (suc len) max_len) (suc len) (omega arith), h, sym e)
      (take-min-length (b ∷ bs) max_len)

pub copied_data-delivered :
    (r : Ring) (at : ℕ) (s : Segment) (is_null : Bool) (max_len : ℕ)
    → IsAt r.buffer at s
    → length s.content ≡ s.header.data_len
    → copied_data r at s.header is_null max_len ≡ delivered is_null max_len s.content
unfolding copied_data delivered
copied_data-delivered r at s true max_len h e = refl
copied_data-delivered r at s false max_len h e =
    copied r.buffer (at + header_size) s.header.data_len max_len s.content h.1 e
