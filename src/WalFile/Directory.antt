-- ===== src/WalFile/Directory.antt =====
-- src/zrtools/zrt_wal_file.h: the names of the files, `Init`, `TruncateBefore`, `GetTotalSize` and
-- `ReadAfter` on a directory. A directory is the list of its regular files in the order of the
-- iterator, a name the list of its characters; every file can be opened and removed.
use zrtools.Prelude.{
  ℕ, zero, suc, ◌+◌, ◌-◌, ◌*◌, ◌/◌, ◌%◌, ◌^◌, Bool, true, false, ◌&&◌, ◌||◌, not, List, [], ◌∷◌,
  ◌++◌, Option, none, some, if◌then◌else◌, ◌==◌, ltb, leb, length, drop, take, sub64,
}
use zrtools.WalFile.Bytes.{Entry}
use zrtools.WalFile.Reader.{get_last_seq_in_file, read_files}
use zrtools.WalFile.Writer.{Writer, create_new_file}

abbrev pub Name : Type 0
Name = List ℕ

abbrev pub Directory : Type 0
Directory = List (Name × List ℕ)

unfoldable pub same_name : Name → Name → Bool
same_name [] [] = true
same_name [] (d ∷ ds) = false
same_name (c ∷ cs) [] = false
same_name (c ∷ cs) (d ∷ ds) = (c == d) && same_name cs ds

-- `operator<` of strings.
unfoldable pub name_lt : Name → Name → Bool
name_lt [] [] = false
name_lt [] (d ∷ ds) = true
name_lt (c ∷ cs) [] = false
name_lt (c ∷ cs) (d ∷ ds) = ltb c d || ((c == d) && name_lt cs ds)

-- The characters `_`, `.`, `0` and of `.wal`.
abbrev pub underscore_char : ℕ
underscore_char = 95

abbrev pub dot_char : ℕ
dot_char = 46

abbrev pub wal_extension : Name
wal_extension = 46 ∷ 119 ∷ 97 ∷ 108 ∷ []

-- `path.extension() == ".wal"`: a name that is no more than that has no extension.
unfoldable pub has_wal_extension : Name → Bool
has_wal_extension name =
    ltb 4 (length name) && same_name (drop (length name - 4) name) wal_extension

-- `std::string::find` of a character.
unfoldable pub find_char : ℕ → Name → Option ℕ
find_char c [] = none
find_char c (d ∷ ds) =
    let later = find_char c ds in
    if d == c then some 0 else elim later [ none ↦ none | some i ↦ some (suc i) ]

abbrev is_digit : ℕ → Bool
is_digit c = leb 48 c && leb c 57

abbrev is_space : ℕ → Bool
is_space c = (c == 32) || (leb 9 c && leb c 13)

-- The digits at the front, behind a number.
unfoldable pub digits_from : ℕ → Name → ℕ
digits_from n [] = n
digits_from n (c ∷ cs) =
    let more = digits_from (10 * n + (c - 48)) cs in if is_digit c then more else n

unfoldable pub unsigned : Name → Option ℕ
unsigned [] = none
unsigned (c ∷ cs) =
    let n = digits_from 0 (c ∷ cs) in if is_digit c && ltb n (2 ^ 64) then some n else none

-- `std::stoull`, which throws for none: spaces, a sign and digits.
unfoldable pub stoull : Name → Option ℕ
stoull [] = none
stoull (c ∷ cs) =
    let later = stoull cs in
    if is_space c
    then later
    else if c == 43
    then unsigned cs
    else if c == 45
    then elim (unsigned cs) [ none ↦ none | some n ↦ some (sub64 0 n) ]
    else unsigned (c ∷ cs)

unfoldable pub parse_seq_from_filename : Name → ℕ
parse_seq_from_filename filename = elim (find_char underscore_char filename) [
  | none ↦ 0
  | some underscore ↦ elim (find_char dot_char filename) [
    | none ↦ 0
    | some dot ↦
        elim (stoull (take (sub64 dot (underscore + 1)) (drop (underscore + 1) filename))) [
          | none ↦ 0
          | some seq ↦ seq
        ]
  ]
]

-- `std::to_string`, with a round for each of the 20 digits of a word.
unfoldable pub to_string : ℕ → ℕ → Name
to_string zero n = []
to_string (suc fuel) n =
    let front = to_string fuel (n / 10) in (if ltb n 10 then [] else front) ++ ((48 + n % 10) ∷ [])

unfoldable pub file_name : Name → ℕ → Name
file_name prefix n = prefix ++ (underscore_char ∷ (to_string 20 n ++ wal_extension))

-- The loop of `Init`.
unfoldable pub max_seq_in : Directory → ℕ → ℕ
max_seq_in [] max_seq = max_seq
max_seq_in ((name, file) ∷ files) max_seq =
    let taken = has_wal_extension name && ltb max_seq (parse_seq_from_filename name) in
    max_seq_in files (if taken then get_last_seq_in_file file else max_seq)

-- `Init` on a directory that can be created, at a time: the writer and the name of its file.
unfoldable pub initialize : Directory → Name → ℕ → Writer → Writer × Name
initialize files prefix now w =
    let current_seq = max_seq_in files 0 in
    (
      create_new_file now (record w { current_seq = current_seq }),
      file_name prefix (current_seq + 1),
    )

-- The directory with the bytes of a file in place of those that a file of this name has.
unfoldable pub with_file : Name → List ℕ → Directory → Directory
with_file name file [] = (name, file) ∷ []
with_file name file ((name', file') ∷ files) =
    let rest = with_file name file files in
    if same_name name' name then (name, file) ∷ files else (name', file') ∷ rest

unfoldable pub get_total_size : Directory → ℕ
get_total_size [] = 0
get_total_size ((name, file) ∷ files) =
    (if has_wal_extension name then length file else 0) + get_total_size files

-- `TruncateBefore`: the files that are left, and how many are deleted.
unfoldable pub truncate_before : ℕ → Name → Directory → Directory × ℕ
truncate_before seq current_file [] = ([], 0)
truncate_before seq current_file ((name, file) ∷ files) =
    let (kept, deleted) = truncate_before seq current_file files in
    if has_wal_extension name
      && (ltb (get_last_seq_in_file file) seq && not (same_name name current_file))
    then (kept, deleted + 1)
    else ((name, file) ∷ kept, deleted)

-- `std::sort` of the names.
unfoldable pub insert_sorted : Name × List ℕ → Directory → Directory
insert_sorted f [] = f ∷ []
insert_sorted f (g ∷ files) =
    let rest = g ∷ insert_sorted f files in if name_lt (g.0) (f.0) then rest else f ∷ g ∷ files

unfoldable pub sorted_files : Directory → Directory
sorted_files [] = []
sorted_files ((name, file) ∷ files) =
    let rest = sorted_files files in
    if has_wal_extension name then insert_sorted (name, file) rest else rest

unfoldable pub contents_of : Directory → List (List ℕ)
contents_of [] = []
contents_of ((name, file) ∷ files) = file ∷ contents_of files

unfoldable pub read_after : ℕ → ℕ → Directory → List Entry
read_after after_seq max_count files =
    read_files (contents_of (sorted_files files)) after_seq max_count []
