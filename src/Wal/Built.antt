-- ===== src/Wal/Built.antt =====
-- src/zrtools/zrt_wal_entry.h: what an entry that was written reads back as.
use zrtools.Prelude.{
  ℕ, ◌+◌, ◌-◌, ◌*◌, ◌/◌, ◌%◌, ◌^◌, ◌≡◌, ◌≤◌, ◌<◌, ◌⊎◌, inl, inr, ◌∙◌, ap, refl, arith, Bool, true,
  false, List, [], ◌∷◌, some, if◌then◌else◌, ◌==◌, ltb, length, take-length,
}
use zrtools.Prelude.Bits.{bit_and-high_mask}
use zrtools.Wal.Memory.{Memory, store_bytes, load_bytes, store_bytes-apart, load_bytes-store_bytes}
use zrtools.Wal.Words.{
  store_word, load_word, load_word-store_word, load_word-store_apart, load_word-store_bytes,
  load_bytes-store_word, store_word-apart,
}
use zrtools.Wal.Entry.{
  header_size, Header, load_header, set_seq, set_timestamp_ns, set_type, set_data_len, set_crc32,
  entry_data, validate_crc, update_crc, copy_data, write_entry, align_up,
}
use zrtools.Crc.Calc.{calc}
use zrtools.Crc.Chunks.{calc-lt}

-- Sizes rounded up to eight bytes.
pub align_up-eight : (size : ℕ) → size < 2 ^ 63 → align_up size 8 ≡ (size + 7) / 8 * 8
unfolding align_up
align_up-eight size h =
    let inside : (size + 8 - 1) % 2 ^ 64 ≡ size + 7 = omega arith in
    rw inside (bit_and-high_mask 61 3 (size + 7) ∙ omega arith)

-- The checksum that `UpdateCrc` gives to data.
unfoldable pub data_crc : List ℕ → ℕ
data_crc content = if length content == 0 then 0 else calc content

-- The bytes of the data as `Build` and `Append` are called with.
abbrev pub written_header : ℕ → ℕ → ℕ → List ℕ → Header
written_header seq timestamp_ns type content = record {
  seq = seq;
  timestamp_ns = timestamp_ns;
  type = type;
  data_len = length content;
  crc32 = data_crc content;
}

-- The fields fit their types.
pub record IsWritable (seq timestamp_ns type : ℕ) (content : List ℕ) : Type 0 where
  pub seq_fits : seq < 2 ^ 64
  pub timestamp_fits : timestamp_ns < 2 ^ 64
  pub type_fits : type < 2 ^ 16
  pub data_fits : length content < 2 ^ 16

-- The memory after the stores of an entry.
abbrev written : Memory → ℕ → ℕ → ℕ → ℕ → List ℕ → Memory
written mem at seq timestamp_ns type content =
    let fields =
      store_word
        (store_word (store_word (store_word mem at 8 seq) (at + 8) 8 timestamp_ns) (at + 16) 2 type)
        (at + 18) 2 (length content) in
    store_bytes fields (at + header_size) content

copy_data-whole :
    (mem : Memory) (at : ℕ) (content : List ℕ)
    → copy_data mem at (some content) (length content) ≡ store_bytes mem (at + header_size) content
unfolding copy_data store_bytes
copy_data-whole mem at [] = refl
copy_data-whole mem at (b ∷ bs) =
    let some_data : ltb 0 (length (b ∷ bs)) ≡ true = ground arith in
    rw (some_data, take-length (b ∷ bs)) refl

written-data_len :
    (mem : Memory) (at seq timestamp_ns type : ℕ) (content : List ℕ)
    → length content < 2 ^ 16
    → load_word (written mem at seq timestamp_ns type content) (at + 18) 2 ≡ length content
written-data_len mem at seq timestamp_ns type content h =
    load_word-store_bytes _ (at + header_size) content (at + 18) 2 (inl (omega arith))
    ∙ load_word-store_word _ (at + 18) 2 (length content) (omega arith)

-- Where the text ends up, whatever fields are stored.
written-content :
    (mem : Memory) (at seq timestamp_ns type : ℕ) (content : List ℕ)
    → load_bytes (written mem at seq timestamp_ns type content) (at + header_size) (length content)
      ≡ content
written-content mem at seq timestamp_ns type content =
    load_bytes-store_bytes _ (at + header_size) content

write_entry-written :
    (mem : Memory) (at seq timestamp_ns type : ℕ) (content : List ℕ)
    → length content < 2 ^ 16
    → write_entry mem at seq timestamp_ns type (some content) (length content)
      ≡ store_word (written mem at seq timestamp_ns type content) (at + 20) 4 (data_crc content)
unfolding write_entry update_crc set_seq set_timestamp_ns set_type set_data_len set_crc32
    load_header entry_data data_crc
write_entry-written mem at seq timestamp_ns type content h =
    rw
      (
        copy_data-whole
            (store_word
              (store_word (store_word (store_word mem at 8 seq) (at + 8) 8 timestamp_ns) (at + 16) 2
                type)
              (at + 18) 2 (length content))
            at content,
        written-data_len mem at seq timestamp_ns type content h,
        written-content mem at seq timestamp_ns type content,
      )
      refl

pub data_crc-lt : (content : List ℕ) → data_crc content < 2 ^ 32
unfolding data_crc
data_crc-lt content = ground (arith, calc-lt content)

-- An entry that was written is read back field by field.
pub load_header-write_entry :
    (mem : Memory) (at seq timestamp_ns type : ℕ) (content : List ℕ)
    → IsWritable seq timestamp_ns type content
    → load_header (write_entry mem at seq timestamp_ns type (some content) (length content)) at
      ≡ written_header seq timestamp_ns type content
unfolding load_header
load_header-write_entry mem at seq timestamp_ns type content h =
    rw (write_entry-written mem at seq timestamp_ns type content h.data_fits) (λ i. record {
      seq = seq_read i;
      timestamp_ns = timestamp_read i;
      type = type_read i;
      data_len = data_len_read i;
      crc32 =
          load_word-store_word (written mem at seq timestamp_ns type content) (at + 20) 4
            (data_crc content) (data_crc-lt content) i;
    })
  where
    seq_read :
        load_word
          (store_word (written mem at seq timestamp_ns type content) (at + 20) 4 (data_crc content))
          at
          8
        ≡ seq
    seq_read =
        load_word-store_apart _ (at + 20) 4 (data_crc content) at 8 (inl (omega arith))
        ∙ load_word-store_bytes _ (at + header_size) content at 8 (inl (omega arith))
        ∙ load_word-store_apart _ (at + 18) 2 (length content) at 8 (inl (omega arith))
        ∙ load_word-store_apart _ (at + 16) 2 type at 8 (inl (omega arith))
        ∙ load_word-store_apart _ (at + 8) 8 timestamp_ns at 8 (inl (omega arith))
        ∙ load_word-store_word mem at 8 seq (ground (arith, h.seq_fits))

    timestamp_read :
        load_word
          (store_word (written mem at seq timestamp_ns type content) (at + 20) 4 (data_crc content))
          (at + 8)
          8
        ≡ timestamp_ns
    timestamp_read =
        load_word-store_apart _ (at + 20) 4 (data_crc content) (at + 8) 8 (inl (omega arith))
        ∙ load_word-store_bytes _ (at + header_size) content (at + 8) 8 (inl (omega arith))
        ∙ load_word-store_apart _ (at + 18) 2 (length content) (at + 8) 8 (inl (omega arith))
        ∙ load_word-store_apart _ (at + 16) 2 type (at + 8) 8 (inl (omega arith))
        ∙ load_word-store_word _ (at + 8) 8 timestamp_ns (ground (arith, h.timestamp_fits))

    type_read :
        load_word
          (store_word (written mem at seq timestamp_ns type content) (at + 20) 4 (data_crc content))
          (at + 16)
          2
        ≡ type
    type_read =
        load_word-store_apart _ (at + 20) 4 (data_crc content) (at + 16) 2 (inl (omega arith))
        ∙ load_word-store_bytes _ (at + header_size) content (at + 16) 2 (inl (omega arith))
        ∙ load_word-store_apart _ (at + 18) 2 (length content) (at + 16) 2 (inl (omega arith))
        ∙ load_word-store_word _ (at + 16) 2 type (ground (arith, h.type_fits))

    data_len_read :
        load_word
          (store_word (written mem at seq timestamp_ns type content) (at + 20) 4 (data_crc content))
          (at + 18)
          2
        ≡ length content
    data_len_read =
        load_word-store_apart _ (at + 20) 4 (data_crc content) (at + 18) 2 (inl (omega arith))
        ∙ written-data_len mem at seq timestamp_ns type content h.data_fits

pub load_bytes-write_entry :
    (mem : Memory) (at seq timestamp_ns type : ℕ) (content : List ℕ)
    → length content < 2 ^ 16
    → load_bytes
        (write_entry mem at seq timestamp_ns type (some content) (length content))
        (at + header_size)
        (length content)
      ≡ content
load_bytes-write_entry mem at seq timestamp_ns type content h =
    rw (write_entry-written mem at seq timestamp_ns type content h) (
      load_bytes-store_word _ (at + 20) 4 (data_crc content) (at + header_size) (length content)
        (inr (omega arith))
      ∙ written-content mem at seq timestamp_ns type content)

-- Bytes outside an entry stay as they are.
pub write_entry-apart :
    (mem : Memory) (at seq timestamp_ns type : ℕ) (content : List ℕ) (i : ℕ)
    → length content < 2 ^ 16
    → (i < at) ⊎ (at + header_size + length content ≤ i)
    → write_entry mem at seq timestamp_ns type (some content) (length content) i ≡ mem i
write_entry-apart mem at seq timestamp_ns type content i h apart =
    let out : (k w : ℕ) → k + w ≤ 24 → (i < at + k) ⊎ (at + k + w ≤ i) =
      λ k w l. elim apart [ inl p ↦ inl (omega arith) | inr p ↦ inr (omega arith) ] in
    ap (λ (m : Memory). m i) (write_entry-written mem at seq timestamp_ns type content h)
    ∙ store_word-apart _ (at + 20) 4 (data_crc content) i (out 20 4 (omega arith))
    ∙ store_bytes-apart _ (at + header_size) content i
        (elim apart [ inl p ↦ inl (omega arith) | inr p ↦ inr p ])
    ∙ store_word-apart _ (at + 18) 2 (length content) i (out 18 2 (omega arith))
    ∙ store_word-apart _ (at + 16) 2 type i (out 16 2 (omega arith))
    ∙ store_word-apart _ (at + 8) 8 timestamp_ns i (out 8 8 (omega arith))
    ∙ store_word-apart mem at 8 seq i (elim apart [ inl p ↦ inl p | inr p ↦ inr (omega arith) ])

if_apply {ℓ κ} :
    {A : Type ℓ} {B : Type κ} (b : Bool) (f : A → B) (x y : A)
    → (if b then f x else f y) ≡ f (if b then x else y)
if_apply true f x y = refl
if_apply false f x y = refl

-- What is valid depends on the header and the data only.
pub validate_crc_iff :
    (mem : Memory) (at : ℕ) (h : Header) (content : List ℕ)
    → load_header mem at ≡ h
    → load_bytes mem (at + header_size) h.data_len ≡ content
    → length content ≡ h.data_len
    → validate_crc mem at ≡ (h.crc32 == data_crc content)
unfolding validate_crc entry_data data_crc
validate_crc_iff mem at h content e c l =
    rw (e, c, l) (if_apply (h.data_len == 0) (λ (t : ℕ). h.crc32 == t) 0 (calc content))

pub entry_data-write_entry :
    (mem : Memory) (at seq timestamp_ns type : ℕ) (content : List ℕ)
    → IsWritable seq timestamp_ns type content
    → entry_data (write_entry mem at seq timestamp_ns type (some content) (length content)) at
      ≡ content
unfolding entry_data
entry_data-write_entry mem at seq timestamp_ns type content h =
    rw (load_header-write_entry mem at seq timestamp_ns type content h)
      (load_bytes-write_entry mem at seq timestamp_ns type content h.data_fits)

-- The checksum that is written is the one that is checked.
pub validate_crc-write_entry :
    (mem : Memory) (at seq timestamp_ns type : ℕ) (content : List ℕ)
    → IsWritable seq timestamp_ns type content
    → validate_crc (write_entry mem at seq timestamp_ns type (some content) (length content)) at
      ≡ true
validate_crc-write_entry mem at seq timestamp_ns type content h =
    validate_crc_iff _ at (written_header seq timestamp_ns type content) content
      (load_header-write_entry mem at seq timestamp_ns type content h)
      (load_bytes-write_entry mem at seq timestamp_ns type content h.data_fits) refl
    ∙ same (data_crc content)
  where
    same : (n : ℕ) → (n == n) ≡ true
    same n = ground arith
