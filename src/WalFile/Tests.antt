-- ===== src/WalFile/Tests.antt =====
-- Runs of src/zrtools/zrt_wal_file.h, and its theorems at a concrete log.
use zrtools.Prelude.{
  ℕ, ◌+◌, ◌≡◌, refl, arith, true, List, [], ◌∷◌, if◌then◌else◌, ◌==◌, length, take,
}
use zrtools.Wal.Words.{encode}
use zrtools.WalFile.Bytes.{Entry, file_header_bytes, default_file_header}
use zrtools.WalFile.Writer.{create, create_new_file, new_header, close}
use zrtools.WalFile.Reader.{read_file, read_data, get_last_seq_in_file}
use zrtools.WalFile.Directory.{
  Name, name_lt, file_name, to_string, parse_seq_from_filename, find_char, stoull, unsigned,
  digits_from, max_seq_in, has_wal_extension, same_name,
}
use zrtools.WalFile.Survivors.{newer, cap, is_full, survivors}
use zrtools.WalFile.Appended.{Request, AllRequests, appends, entries_from}
use zrtools.WalFile.Written.{read_file-appends, read_file-close}
use zrtools.WalFile.LastSeq.{get_last_seq_in_file-appends}

abbrev requests : List Request
requests =
    record { now = 11; type = 1; content = 1 ∷ 2 ∷ [] }
    ∷ record { now = 12; type = 2; content = 3 ∷ 4 ∷ 5 ∷ [] }
    ∷ []

requests-AllRequests : AllRequests requests
unfolding AllRequests
requests-AllRequests =
    ((omega arith, omega arith, omega arith), ((omega arith, omega arith, omega arith), tt))

-- One byte of the second entry's data is left.
read_file-appends_example :
    let after = appends requests (create_new_file 10 create) in
    let entries = newer 0 (survivors 51 (entries_from 0 requests)) in
    read_file (take 115 after.file) 0 7 [] ≡ (cap 7 entries, is_full 7 entries)
unfolding create
read_file-appends_example =
    read_file-appends requests create 10 115 0 7 requests-AllRequests (omega arith) (omega arith)
      (omega arith)

abbrev datas : List Entry → List (List ℕ)
datas [] = []
datas ((h, content) ∷ es) = content ∷ datas es

-- What is lost of an entry's data is read as zeros, and the entry is given all the same.
torn_data : datas (survivors 51 (entries_from 0 requests)) ≡ (1 ∷ 2 ∷ []) ∷ (3 ∷ 0 ∷ 0 ∷ []) ∷ []
unfolding survivors entries_from read_data new_header
torn_data = refl

read_file-close_example :
    let entries = newer 1 (entries_from 0 requests) in
    read_file (close 13 (appends requests (create_new_file 10 create))).file 1 0 []
    ≡ (cap 0 entries, is_full 0 entries)
unfolding create
read_file-close_example =
    read_file-close requests create 10 13 1 0 requests-AllRequests (omega arith) (omega arith)

get_last_seq_in_file-appends_example :
    let after = appends requests (create_new_file 10 create) in
    let kept = survivors 26 (entries_from 0 requests) in
    get_last_seq_in_file (take 90 after.file)
    ≡ (if length kept == 0 then 0 + 1 else 0 + length kept)
unfolding create
get_last_seq_in_file-appends_example =
    get_last_seq_in_file-appends requests create 10 90 requests-AllRequests (omega arith)
      (omega arith) (omega arith)

-- `wal` and `my_wal`.
abbrev wal : Name
wal = 119 ∷ 97 ∷ 108 ∷ []

abbrev my_wal : Name
my_wal = 109 ∷ 121 ∷ 95 ∷ wal

-- The order of the names is not that of the numbers.
name_lt-file_name : name_lt (file_name wal 10) (file_name wal 2) ≡ true
unfolding name_lt file_name to_string
name_lt-file_name = refl

parse-file_name : parse_seq_from_filename (file_name wal 10) ≡ 10
unfolding parse_seq_from_filename file_name to_string find_char stoull unsigned digits_from
parse-file_name = refl

-- A prefix with `_` hides the number, so `Init` begins at 1 again and empties the first file.
parse-file_name_underscore : parse_seq_from_filename (file_name my_wal 10) ≡ 0
unfolding parse_seq_from_filename file_name to_string find_char stoull unsigned digits_from
parse-file_name_underscore = refl

max_seq_in-underscore :
    max_seq_in ((file_name my_wal 10, file_header_bytes default_file_header) ∷ []) 0 ≡ 0
unfolding max_seq_in has_wal_extension same_name parse_seq_from_filename file_name to_string
    find_char stoull unsigned digits_from file_header_bytes encode
max_seq_in-underscore = refl
