-- ===== src/Wal/Builder.antt =====
-- src/zrtools/zrt_wal_entry.h: `WalEntryBuilder`, an entry in a buffer of its own.
use zrtools.Prelude.{
  ℕ, ◌+◌, ◌≡◌, ◌≤◌, refl, arith, Bool, true, false, List, Option, none, some, if◌then◌else◌, ◌==◌,
  ltb, length,
}
use zrtools.Wal.Memory.{Memory}
use zrtools.Wal.Entry.{header_size, Header, load_header, write_entry, entry_data, validate_crc}
use zrtools.Wal.Built.{
  IsWritable, written_header, load_header-write_entry, entry_data-write_entry,
  validate_crc-write_entry,
}

pub record Builder : Type 0 where
  pub buffer : Memory
  pub size : ℕ

-- The constructor, and `Reset`.
abbrev pub cleared : Builder
cleared = record { buffer = λ i. 0; size = 0 }

abbrev pub reset : Builder → Builder
reset builder = cleared

-- `Build`, with the largest size of an entry.
unfoldable pub build : ℕ → Builder → ℕ → ℕ → ℕ → Option (List ℕ) → ℕ → Bool × Builder
build max_size builder seq timestamp_ns type content len =
    if ltb max_size (header_size + len) then (false, builder) else (
      true,
      record {
        buffer = write_entry builder.buffer 0 seq timestamp_ns type content len;
        size = header_size + len;
      },
    )

-- `GetEntry`: the offset of the entry in the buffer, if there is one.
unfoldable pub get_entry : Builder → Option ℕ
get_entry builder = if builder.size == 0 then none else some 0

-- What a reader finds in a builder's buffer.
abbrev pub Holds : Builder → Header → List ℕ → Type 0
Holds builder header content =
    (get_entry builder ≡ some 0)
    × (load_header builder.buffer 0 ≡ header)
    × (entry_data builder.buffer 0 ≡ content)
    × (validate_crc builder.buffer 0 ≡ true)

build-fits :
    (max_size : ℕ) (builder : Builder) (seq timestamp_ns type : ℕ) (content : List ℕ)
    → header_size + length content ≤ max_size
    → build max_size builder seq timestamp_ns type (some content) (length content) ≡ (
      true,
      record {
        buffer = write_entry builder.buffer 0 seq timestamp_ns type (some content) (length content);
        size = header_size + length content;
      },
    )
unfolding build
build-fits max_size builder seq timestamp_ns type content h =
    let room : ltb max_size (header_size + length content) ≡ false = ground arith in rw room refl

-- Whatever the builder held, an entry that fits is built, and is read back with its fields, its data
-- and a checksum that passes. The fields fit their types.
pub build-Holds :
    (max_size : ℕ) (builder : Builder) (seq timestamp_ns type : ℕ) (content : List ℕ)
    → IsWritable seq timestamp_ns type content
    → header_size + length content ≤ max_size
    → let built = build max_size builder seq timestamp_ns type (some content) (length content) in
      (built.0 ≡ true) × Holds built.1 (written_header seq timestamp_ns type content) content
unfolding get_entry
build-Holds max_size builder seq timestamp_ns type content w h =
    rw (build-fits max_size builder seq timestamp_ns type content h) (
      refl,
      (
        ground arith,
        load_header-write_entry builder.buffer 0 seq timestamp_ns type content w,
        entry_data-write_entry builder.buffer 0 seq timestamp_ns type content w,
        validate_crc-write_entry builder.buffer 0 seq timestamp_ns type content w,
      ),
    )
