-- ===== src/WalFile/Written.antt =====
-- src/zrtools/zrt_wal_file.h: what is read from the file of a writer against what it has appended.
use zrtools.Prelude.Cuts.{take-append_ge}
use zrtools.Prelude.{
  ℕ, ◌+◌, ◌-◌, ◌≡◌, ◌≤◌, ◌<◌, ◌^◌, ◌∙◌, ap, sym, refl, arith, true, false, List, [], ◌∷◌, ◌++◌, ltb,
  leb, length, take, length-append, wrap64, sub64, take-length,
}
use zrtools.WalFile.Bytes.{
  FileHeader, file_magic, Entry, default_file_header, file_header_bytes, file_header_size,
  entry_header_size, is_wal, entry_bytes, log_bytes,
}
use zrtools.WalFile.Reader.{read_file, read_loop}
use zrtools.WalFile.Writer.{Writer, create_new_file, update_file_header, close}
use zrtools.WalFile.Parsed.{
  IsFileHeader, length-file_header_bytes, read_file_header-append, drop_front,
}
use zrtools.WalFile.Survivors.{HasRoom, newer, cap, is_full, survivors}
use zrtools.WalFile.Rounds.{read_loop-survivors, length-entry_bytes}
use zrtools.WalFile.Appended.{
  Request, AllRequests, appends, entries_from, entries_from-AllEntries, IsAppended,
  appends-IsAppended,
}

-- A header and bytes behind it, of which some number is there.
read_file-header :
    (h : FileHeader) (bytes : List ℕ) (n after_seq max_count : ℕ) (acc : List Entry)
    → IsFileHeader h
    → h.magic ≡ file_magic
    → file_header_size ≤ n
    → read_file (take n (file_header_bytes h ++ bytes)) after_seq max_count acc
      ≡ read_loop
          (length (take (n - file_header_size) bytes) + 1)
          (take (n - file_header_size) bytes)
          after_seq
          max_count
          acc
unfolding read_file
read_file-header h bytes n after_seq max_count acc w magic l =
    let start = file_header_bytes h in
    let rest = take (n - file_header_size) bytes in
    let size = length-file_header_bytes h in
    let split : n ≡ length start + (n - file_header_size) = omega (arith, size) in
    let cut : take n (start ++ bytes) ≡ start ++ rest =
      ap (λ (k : ℕ). take k (start ++ bytes)) split
      ∙ take-append_ge (n - file_header_size) start bytes in
    let long : ltb (length (start ++ rest)) file_header_size ≡ false =
      ground (arith, length-append start rest, size) in
    let valid : is_wal h ≡ true = ground (arith, magic) in
    rw
      (
        cut,
        read_file_header-append h rest w,
        valid,
        long,
        drop_front file_header_size start rest size,
      )
      refl

-- The header of a new file.
abbrev pub new_file_header : ℕ → ℕ → FileHeader
new_file_header seq now = record default_file_header {
  start_seq = wrap64 (seq + 1);
  create_time_ns = now;
}

-- What `ReadAfter` adds from a file to the entries that it has.
pub read_file-behind :
    (rs : List Request) (w : Writer) (now n after_seq max_count : ℕ) (acc : List Entry)
    → AllRequests rs
    → now < 2 ^ 64
    → w.current_seq + length rs < 2 ^ 64
    → HasRoom max_count acc
    → file_header_size ≤ n
    → let after = appends rs (create_new_file now w) in
      let entries =
        newer after_seq (survivors (n - file_header_size) (entries_from w.current_seq rs)) in
      read_file (take n after.file) after_seq max_count acc
      ≡ (cap max_count (acc ++ entries), is_full max_count (acc ++ entries))
unfolding create_new_file
read_file-behind rs w now n after_seq max_count acc all time fits room l =
    let es = entries_from w.current_seq rs in
    let new : Writer = create_new_file now w in
    let r : IsAppended rs new = appends-IsAppended rs new refl fits (omega arith) in
    let header : IsFileHeader (new_file_header w.current_seq now) = record {
      magic_fits = omega arith;
      version_fits = omega arith;
      start_seq_fits = omega arith;
      entry_count_fits = omega arith;
      create_time_fits = time;
    } in
    ap (λ (file : List ℕ). read_file (take n file) after_seq max_count acc) r.written
    ∙ read_file-header (new_file_header w.current_seq now) (log_bytes es) n after_seq max_count acc
        header refl l
    ∙ read_loop-survivors (length (take (n - file_header_size) (log_bytes es)) + 1)
        (n - file_header_size) es after_seq max_count acc
        (entries_from-AllEntries w.current_seq rs all fits) room (omega arith)

-- After any appends to a new file and a crash that leaves any number of its bytes, the header's at
-- least, ReadAfter gives, of the entries that are whole and the one that is cut off in its data, those
-- above a number up to the limit, in their order, with the data that was appended, but zeros where it
-- is cut off. The fields fit their types, and the numbers do not wrap.
pub read_file-appends :
    (rs : List Request) (w : Writer) (now n after_seq max_count : ℕ)
    → AllRequests rs
    → now < 2 ^ 64
    → w.current_seq + length rs < 2 ^ 64
    → file_header_size ≤ n
    → let after = appends rs (create_new_file now w) in
      let entries =
        newer after_seq (survivors (n - file_header_size) (entries_from w.current_seq rs)) in
      read_file (take n after.file) after_seq max_count []
      ≡ (cap max_count entries, is_full max_count entries)
read_file-appends rs w now n after_seq max_count all time fits l =
    read_file-behind rs w now n after_seq max_count [] all time fits (ground arith) l

survivors_all : (n : ℕ) (es : List Entry) → length (log_bytes es) ≤ n → survivors n es ≡ es
unfolding survivors log_bytes
survivors_all n [] h = refl
survivors_all n ((h, content) ∷ es) l =
    let size = length-append (entry_bytes (h, content)) (log_bytes es) in
    let own = length-entry_bytes h content in
    let whole : leb (entry_header_size + length content) n ≡ true = ground (arith, size, own) in
    rw whole (
      ap (◌∷◌ (h, content))
        (survivors_all (n - (entry_header_size + length content)) es (omega (arith, size, own))))

-- The file that is closed: its header is written again, with the same first number.
pub close-file :
    (rs : List Request) (w : Writer) (now later : ℕ)
    → w.current_seq + length rs < 2 ^ 64
    → (close later (appends rs (create_new_file now w))).file
      ≡ file_header_bytes (record (new_file_header w.current_seq later) { entry_count = length rs })
        ++ log_bytes (entries_from w.current_seq rs)
unfolding close update_file_header create_new_file
close-file rs w now later fits =
    let es = entries_from w.current_seq rs in
    let new : Writer = create_new_file now w in
    let start = file_header_bytes (new_file_header w.current_seq now) in
    let r : IsAppended rs new = appends-IsAppended rs new refl fits (omega arith) in
    let first : wrap64 (sub64 (appends rs new).current_seq (appends rs new).entry_count + 1)
        ≡ wrap64 (w.current_seq + 1) =
      omega (arith, r.counted, r.in_file) in
    let count : (appends rs new).entry_count ≡ length rs = omega (arith, r.in_file) in
    rw
      (
        r.opened,
        first,
        count,
        r.written,
        drop_front file_header_size start (log_bytes es)
            (length-file_header_bytes (new_file_header w.current_seq now)),
      )
      refl

-- After any appends to a new file and Close, ReadAfter gives the entries that were appended, in their
-- order and with their data: those above a number, up to the limit. The fields fit their types, and the
-- numbers do not wrap.
pub read_file-close :
    (rs : List Request) (w : Writer) (now later after_seq max_count : ℕ)
    → AllRequests rs
    → later < 2 ^ 64
    → w.current_seq + length rs < 2 ^ 64
    → let entries = newer after_seq (entries_from w.current_seq rs) in
      read_file (close later (appends rs (create_new_file now w))).file after_seq max_count []
      ≡ (cap max_count entries, is_full max_count entries)
read_file-close rs w now later after_seq max_count all time fits =
    let es = entries_from w.current_seq rs in
    let h : FileHeader = record (new_file_header w.current_seq later) { entry_count = length rs } in
    let header : IsFileHeader h = record {
      magic_fits = omega arith;
      version_fits = omega arith;
      start_seq_fits = omega arith;
      entry_count_fits = omega arith;
      create_time_fits = time;
    } in
    let bytes = file_header_bytes h ++ log_bytes es in
    let n = length bytes in
    let size = size_of h (log_bytes es) in
    ap (λ (file : List ℕ). read_file file after_seq max_count [])
      (close-file rs w now later fits ∙ sym (take-length bytes))
    ∙ read_file-header h (log_bytes es) n after_seq max_count [] header refl (omega (arith, size))
    ∙ read_loop-survivors (length (take (n - file_header_size) (log_bytes es)) + 1)
        (n - file_header_size) es after_seq max_count []
        (entries_from-AllEntries w.current_seq rs all fits) (ground arith) (omega arith)
    ∙ ap
        (λ (xs : List Entry).
          (cap max_count (newer after_seq xs), is_full max_count (newer after_seq xs)))
        (survivors_all (n - file_header_size) es (omega (arith, size)))
  where
    size_of :
        (h : FileHeader) (bytes : List ℕ)
        → length (file_header_bytes h ++ bytes) ≡ file_header_size + length bytes
    size_of h bytes =
        omega (arith, length-append (file_header_bytes h) bytes, length-file_header_bytes h)
