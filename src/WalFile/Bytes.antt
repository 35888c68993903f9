-- ===== src/WalFile/Bytes.antt =====
-- src/zrtools/zrt_wal_file.h: the headers of files and entries as bytes, least byte first. A short read
-- into a header leaves the rest of it as it was.
use zrtools.Prelude.{ℕ, Bool, List, [], ◌∷◌, ◌++◌, ◌==◌, ◌||◌, length, take, drop, replicate}
use zrtools.Wal.Words.{encode, decode}
use zrtools.Wal.Entry.{Header}

-- `sizeof(WalFileHeader)`, and of `WalEntryHeader`.
abbrev pub file_header_size : ℕ
file_header_size = 64

abbrev pub entry_header_size : ℕ
entry_header_size = 24

abbrev pub file_magic : ℕ
file_magic = 0x5A524657

abbrev pub old_file_magic : ℕ
old_file_magic = 0x57414C46

pub record FileHeader : Type 0 where
  pub magic : ℕ
  pub version : ℕ
  pub start_seq : ℕ
  pub entry_count : ℕ
  pub create_time_ns : ℕ

-- `WalFileHeader header {}`.
abbrev pub default_file_header : FileHeader
default_file_header = record {
  magic = file_magic;
  version = 1;
  start_seq = 0;
  entry_count = 0;
  create_time_ns = 0;
}

unfoldable pub file_header_bytes : FileHeader → List ℕ
file_header_bytes h =
    encode 4 h.magic
    ++ (encode 4 h.version
        ++ (encode 8 h.start_seq
            ++ (encode 8 h.entry_count ++ (encode 8 h.create_time_ns ++ replicate 32 0))))

unfoldable pub parse_file_header : List ℕ → FileHeader
parse_file_header bs = record {
  magic = decode (take 4 bs);
  version = decode (take 4 (drop 4 bs));
  start_seq = decode (take 8 (drop 4 (drop 4 bs)));
  entry_count = decode (take 8 (drop 8 (drop 4 (drop 4 bs))));
  create_time_ns = decode (take 8 (drop 8 (drop 8 (drop 4 (drop 4 bs)))));
}

-- `in.read` of a file header.
unfoldable pub read_file_header : List ℕ → FileHeader
read_file_header bs =
    let got = take file_header_size bs in
    parse_file_header (got ++ drop (length got) (file_header_bytes default_file_header))

-- Either magic is accepted.
abbrev pub is_wal : FileHeader → Bool
is_wal h = (h.magic == file_magic) || (h.magic == old_file_magic)

unfoldable pub entry_header_bytes : Header → List ℕ
entry_header_bytes h =
    encode 8 h.seq
    ++ (encode 8 h.timestamp_ns ++ (encode 2 h.type ++ (encode 2 h.data_len ++ encode 4 h.crc32)))

unfoldable pub parse_entry_header : List ℕ → Header
parse_entry_header bs = record {
  seq = decode (take 8 bs);
  timestamp_ns = decode (take 8 (drop 8 bs));
  type = decode (take 2 (drop 8 (drop 8 bs)));
  data_len = decode (take 2 (drop 2 (drop 8 (drop 8 bs))));
  crc32 = decode (take 4 (drop 2 (drop 2 (drop 8 (drop 8 bs)))));
}

-- An entry with its data.
abbrev pub Entry : Type 0
Entry = Header × List ℕ

unfoldable pub entry_bytes : Entry → List ℕ
entry_bytes (h, content) = entry_header_bytes h ++ content

unfoldable pub log_bytes : List Entry → List ℕ
log_bytes [] = []
log_bytes (e ∷ es) = entry_bytes e ++ log_bytes es
