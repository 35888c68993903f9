-- ===== src/WalFile/Reader.antt =====
-- src/zrtools/zrt_wal_file.h: `GetLastSeqInFile` and `ReadAfter` on the bytes of files. A stream is what
-- is left to read; a read of more than that ends the loop. The loops have a round for each byte.
use zrtools.Prelude.{
  ℕ, zero, suc, ◌+◌, ◌-◌, Bool, true, false, ◌&&◌, List, [], ◌∷◌, ◌++◌, if◌then◌else◌, ◌==◌, ltb,
  leb, length, take, drop, replicate,
}
use zrtools.WalFile.Bytes.{
  Entry, file_header_size, entry_header_size, read_file_header, is_wal, parse_entry_header,
}

-- The loop of `GetLastSeqInFile`, which passes over the data.
unfoldable pub last_seq_loop : ℕ → List ℕ → ℕ → ℕ
last_seq_loop zero rest last_seq = last_seq
last_seq_loop (suc fuel) rest last_seq =
    let h = parse_entry_header (take entry_header_size rest) in
    let next = last_seq_loop fuel (drop h.data_len (drop entry_header_size rest)) h.seq in
    if ltb (length rest) entry_header_size then last_seq else if h.seq == 0 then last_seq else next

unfoldable pub get_last_seq_in_file : List ℕ → ℕ
get_last_seq_in_file file =
    let h = read_file_header file in
    let rest = drop file_header_size file in
    if is_wal h
    then (if ltb (length file) file_header_size
        then h.start_seq
        else last_seq_loop (length rest + 1) rest h.start_seq)
    else 0

-- `in.read` of the data into a vector of zeros.
unfoldable pub read_data : ℕ → List ℕ → List ℕ
read_data len rest = take len rest ++ replicate (len - length rest) 0

-- The loop of `ReadAfter` over the entries of a file: the entries so far, and whether there are
-- `max_count` of them.
unfoldable pub read_loop : ℕ → List ℕ → ℕ → ℕ → List Entry → List Entry × Bool
read_loop zero rest after_seq max_count entries = (entries, false)
read_loop (suc fuel) rest after_seq max_count entries =
    let h = parse_entry_header (take entry_header_size rest) in
    let body = drop entry_header_size rest in
    let grown =
      if ltb after_seq h.seq then entries ++ ((h, read_data h.data_len body) ∷ []) else entries in
    let next = read_loop fuel (drop h.data_len body) after_seq max_count grown in
    if ltb (length rest) entry_header_size
    then (entries, false)
    else if h.seq == 0
    then (entries, false)
    else if ltb after_seq h.seq && (ltb 0 max_count && leb max_count (length grown))
    then (grown, true)
    else if ltb (length body) h.data_len
    then (grown, false)
    else next

unfoldable pub read_file : List ℕ → ℕ → ℕ → List Entry → List Entry × Bool
read_file file after_seq max_count entries =
    let rest = drop file_header_size file in
    if is_wal (read_file_header file)
    then (if ltb (length file) file_header_size
        then (entries, false)
        else read_loop (length rest + 1) rest after_seq max_count entries)
    else (entries, false)

-- The loop of `ReadAfter` over the files, in their order.
unfoldable pub read_files : List (List ℕ) → ℕ → ℕ → List Entry → List Entry
read_files [] after_seq max_count entries = entries
read_files (file ∷ files) after_seq max_count entries =
    let (grown, full) = read_file file after_seq max_count entries in
    let rest = read_files files after_seq max_count grown in if full then grown else rest
