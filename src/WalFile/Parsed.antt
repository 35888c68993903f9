-- ===== src/WalFile/Parsed.antt =====
-- src/zrtools/zrt_wal_file.h: a header is parsed from its bytes as it was.
use zrtools.Prelude.Cuts.{take-append_le, drop-append_ge}
use zrtools.Prelude.{
  ℕ, ◌+◌, ◌^◌, ◌≡◌, ◌<◌, ◌∙◌, ap, sym, refl, arith, List, [], ◌∷◌, ◌++◌, length, take, drop,
  replicate, length-append, length-replicate, append-nil, take-length,
}
use zrtools.Wal.Words.{encode, decode, length-encode, decode-encode}
use zrtools.Wal.Entry.{Header}
use zrtools.WalFile.Bytes.{
  FileHeader, file_header_bytes, parse_file_header, entry_header_bytes, parse_entry_header,
  read_file_header, default_file_header, file_header_size, entry_header_size,
}

pub take_front : {A : Type 0} (n : ℕ) (xs rest : List A) → length xs ≡ n → take n (xs ++ rest) ≡ xs
take_front n xs rest h =
    ap (λ (k : ℕ). take k (xs ++ rest)) (sym h)
    ∙ take-append_le (length xs) xs rest (omega arith)
    ∙ take-length xs

pub drop_front :
    {A : Type 0} (n : ℕ) (xs rest : List A) → length xs ≡ n → drop n (xs ++ rest) ≡ rest
drop_front n xs rest h =
    ap (λ (k : ℕ). drop k (xs ++ rest)) {y = length xs + 0} (omega arith) ∙ drop-append_ge 0 xs rest

drop_all : {A : Type 0} (xs : List A) → drop (length xs) xs ≡ []
drop_all [] = refl
drop_all (x ∷ xs) = drop_all xs

take-encode : (n v : ℕ) (rest : List ℕ) → take n (encode n v ++ rest) ≡ encode n v
take-encode n v rest = take_front n (encode n v) rest (length-encode n v)

drop-encode : (n v : ℕ) (rest : List ℕ) → drop n (encode n v ++ rest) ≡ rest
drop-encode n v rest = drop_front n (encode n v) rest (length-encode n v)

-- The fields of an entry's header fit their types.
pub record IsHeader (h : Header) : Type 0 where
  pub seq_fits : h.seq < 2 ^ 64
  pub timestamp_fits : h.timestamp_ns < 2 ^ 64
  pub type_fits : h.type < 2 ^ 16
  pub data_len_fits : h.data_len < 2 ^ 16
  pub crc32_fits : h.crc32 < 2 ^ 32

pub length-entry_header_bytes : (h : Header) → length (entry_header_bytes h) ≡ entry_header_size
unfolding entry_header_bytes
length-entry_header_bytes h = omega (
  arith,
  length-append (encode 8 h.seq) _,
  length-append (encode 8 h.timestamp_ns) _,
  length-append (encode 2 h.type) _,
  length-append (encode 2 h.data_len) (encode 4 h.crc32),
  length-encode 8 h.seq,
  length-encode 8 h.timestamp_ns,
  length-encode 2 h.type,
  length-encode 2 h.data_len,
  length-encode 4 h.crc32,
)

field : (n v : ℕ) (rest : List ℕ) → v < 256 ^ n → decode (take n (encode n v ++ rest)) ≡ v
field n v rest h = ap decode (take-encode n v rest) ∙ decode-encode n v h

last_field : (n v : ℕ) → v < 256 ^ n → decode (take n (encode n v)) ≡ v
last_field n v h =
    ap (λ (bs : List ℕ). decode (take n bs)) (sym (append-nil (encode n v))) ∙ field n v [] h

pub parse-entry_header_bytes :
    (h : Header) → IsHeader h → parse_entry_header (entry_header_bytes h) ≡ h
unfolding parse_entry_header entry_header_bytes
parse-entry_header_bytes h w =
    let r4 = encode 4 h.crc32 in
    let r3 = encode 2 h.data_len ++ r4 in
    let r2 = encode 2 h.type ++ r3 in
    let r1 = encode 8 h.timestamp_ns ++ r2 in
    rw
      (
        drop-encode 8 h.seq r1,
        drop-encode 8 h.timestamp_ns r2,
        drop-encode 2 h.type r3,
        drop-encode 2 h.data_len r4,
        field 8 h.seq r1 (let fits = w.seq_fits in omega arith),
        field 8 h.timestamp_ns r2 (let fits = w.timestamp_fits in omega arith),
        field 2 h.type r3 (let fits = w.type_fits in omega arith),
        field 2 h.data_len r4 (let fits = w.data_len_fits in omega arith),
        last_field 4 h.crc32 (let fits = w.crc32_fits in omega arith),
      )
      refl

-- And a file's.
pub record IsFileHeader (h : FileHeader) : Type 0 where
  pub magic_fits : h.magic < 2 ^ 32
  pub version_fits : h.version < 2 ^ 32
  pub start_seq_fits : h.start_seq < 2 ^ 64
  pub entry_count_fits : h.entry_count < 2 ^ 64
  pub create_time_fits : h.create_time_ns < 2 ^ 64

pub length-file_header_bytes : (h : FileHeader) → length (file_header_bytes h) ≡ file_header_size
unfolding file_header_bytes
length-file_header_bytes h = omega (
  arith,
  length-append (encode 4 h.magic) _,
  length-append (encode 4 h.version) _,
  length-append (encode 8 h.start_seq) _,
  length-append (encode 8 h.entry_count) _,
  length-append (encode 8 h.create_time_ns) (replicate 32 0),
  length-encode 4 h.magic,
  length-encode 4 h.version,
  length-encode 8 h.start_seq,
  length-encode 8 h.entry_count,
  length-encode 8 h.create_time_ns,
  length-replicate {A = ℕ} 32 0,
)

parse-file_header_bytes :
    (h : FileHeader) → IsFileHeader h → parse_file_header (file_header_bytes h) ≡ h
unfolding parse_file_header file_header_bytes
parse-file_header_bytes h w =
    let r5 = replicate 32 0 in
    let r4 = encode 8 h.create_time_ns ++ r5 in
    let r3 = encode 8 h.entry_count ++ r4 in
    let r2 = encode 8 h.start_seq ++ r3 in
    let r1 = encode 4 h.version ++ r2 in
    rw
      (
        drop-encode 4 h.magic r1,
        drop-encode 4 h.version r2,
        drop-encode 8 h.start_seq r3,
        drop-encode 8 h.entry_count r4,
        field 4 h.magic r1 (let fits = w.magic_fits in omega arith),
        field 4 h.version r2 (let fits = w.version_fits in omega arith),
        field 8 h.start_seq r3 (let fits = w.start_seq_fits in omega arith),
        field 8 h.entry_count r4 (let fits = w.entry_count_fits in omega arith),
        field 8 h.create_time_ns r5 (let fits = w.create_time_fits in omega arith),
      )
      refl

-- The header of a file that begins with one.
pub read_file_header-append :
    (h : FileHeader) (rest : List ℕ)
    → IsFileHeader h
    → read_file_header (file_header_bytes h ++ rest) ≡ h
unfolding read_file_header
read_file_header-append h rest w =
    let own = file_header_bytes h in
    let start = file_header_bytes default_file_header in
    let got = take_front file_header_size own rest (length-file_header_bytes h) in
    let size : length own ≡ length start =
      length-file_header_bytes h ∙ sym (length-file_header_bytes default_file_header) in
    rw (got, size, drop_all start, append-nil own) (parse-file_header_bytes h w)
