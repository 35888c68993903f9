-- ===== src/Wal/Entry.antt =====
-- src/zrtools/zrt_wal_entry.h: `WalEntryHeader` and `WalEntry` at an offset of a memory. The compiler
-- lays the header out in 24 bytes: seq, timestamp_ns, type, data_len, crc32.
use zrtools.Prelude.{
  take, bit_and, ℕ, ◌+◌, ◌-◌, ◌%◌, ◌^◌, Bool, List, Option, none, some, if◌then◌else◌, ◌==◌, ltb,
}
use zrtools.Wal.Memory.{Memory, store_bytes, load_bytes}
use zrtools.Wal.Words.{load_word, store_word}
use zrtools.Crc.Calc.{calc}

-- `sizeof(WalEntryHeader)`.
abbrev pub header_size : ℕ
header_size = 24

pub record Header : Type 0 where
  pub seq : ℕ
  pub timestamp_ns : ℕ
  pub type : ℕ
  pub data_len : ℕ
  pub crc32 : ℕ

unfoldable pub load_header : Memory → ℕ → Header
load_header mem at = record {
  seq = load_word mem at 8;
  timestamp_ns = load_word mem (at + 8) 8;
  type = load_word mem (at + 16) 2;
  data_len = load_word mem (at + 18) 2;
  crc32 = load_word mem (at + 20) 4;
}

unfoldable pub set_seq : Memory → ℕ → ℕ → Memory
set_seq mem at v = store_word mem at 8 v

unfoldable pub set_timestamp_ns : Memory → ℕ → ℕ → Memory
set_timestamp_ns mem at v = store_word mem (at + 8) 8 v

unfoldable pub set_type : Memory → ℕ → ℕ → Memory
set_type mem at v = store_word mem (at + 16) 2 v

unfoldable pub set_data_len : Memory → ℕ → ℕ → Memory
set_data_len mem at v = store_word mem (at + 18) 2 v

unfoldable pub set_crc32 : Memory → ℕ → ℕ → Memory
set_crc32 mem at v = store_word mem (at + 20) 4 v

-- `GetData` with its length.
unfoldable pub entry_data : Memory → ℕ → List ℕ
entry_data mem at = load_bytes mem (at + header_size) (load_header mem at).data_len

-- `TotalSize`.
abbrev pub total_size : Header → ℕ
total_size h = header_size + h.data_len

-- `ValidateCrc`.
unfoldable pub validate_crc : Memory → ℕ → Bool
validate_crc mem at =
    let h = load_header mem at in
    if h.data_len == 0 then h.crc32 == 0 else h.crc32 == calc (entry_data mem at)

-- `UpdateCrc`.
unfoldable pub update_crc : Memory → ℕ → Memory
update_crc mem at =
    set_crc32 mem at (if (load_header mem at).data_len == 0 then 0 else calc (entry_data mem at))

-- `GetDataAs` for a type of `size` bytes: the bytes that the pointer gives access to.
unfoldable pub get_data_as : ℕ → Memory → ℕ → Option (List ℕ)
get_data_as size mem at =
    if ltb (load_header mem at).data_len size
    then none
    else some (load_bytes mem (at + header_size) size)

-- The copy of the data, which a null pointer or an empty text leaves out.
unfoldable pub copy_data : Memory → ℕ → Option (List ℕ) → ℕ → Memory
copy_data mem at none len = mem
copy_data mem at (some content) len =
    if ltb 0 len then store_bytes mem (at + header_size) (take len content) else mem

-- The stores that `WalEntryBuilder::Build` and `ShmRing::Append` have in common.
unfoldable pub write_entry : Memory → ℕ → ℕ → ℕ → ℕ → Option (List ℕ) → ℕ → Memory
write_entry mem at seq timestamp_ns type content len =
    let named = set_type (set_timestamp_ns (set_seq mem at seq) at timestamp_ns) at type in
    update_crc (copy_data (set_data_len named at len) at content len) at

-- `AlignUp`, whose mask clears the bits below a power of two.
unfoldable pub align_up : ℕ → ℕ → ℕ
align_up size alignment = bit_and ((size + alignment - 1) % 2 ^ 64) (2 ^ 64 - 1 - (alignment - 1))
