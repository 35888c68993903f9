-- ===== src/WalFile/LastSeq.antt =====
-- src/zrtools/zrt_wal_file.h: the number that `GetLastSeqInFile` finds, from which `Init` goes on.
use zrtools.Prelude.Cuts.{take-append_le, take-append_ge}
use zrtools.Prelude.{
  ℕ, zero, suc, ◌+◌, ◌-◌, ◌≡◌, ◌≤◌, ◌<◌, ◌^◌, ◌≢◌, ◌∙◌, ap, refl, arith, true, false, List, [], ◌∷◌,
  ◌++◌, if◌then◌else◌, ◌==◌, ltb, leb, length, take, drop, length-append, length-take, length-drop,
  Bool-cases, inl, inr, wrap64,
}
use zrtools.Wal.Entry.{Header}
use zrtools.WalFile.Bytes.{
  Entry, file_header_bytes, file_header_size, entry_header_size, entry_header_bytes,
  parse_entry_header, entry_bytes, log_bytes,
}
use zrtools.WalFile.Reader.{last_seq_loop, get_last_seq_in_file}
use zrtools.WalFile.Writer.{Writer, create_new_file, new_header}
use zrtools.WalFile.Appended.{
  Request, AllRequests, appends, entries_from, entries_from-AllEntries, IsAppended,
  appends-IsAppended,
}
use zrtools.WalFile.Written.{new_file_header}
use zrtools.WalFile.Parsed.{
  IsHeader, IsFileHeader, take_front, drop_front, length-entry_header_bytes,
  parse-entry_header_bytes, length-file_header_bytes, read_file_header-append,
}
use zrtools.WalFile.Survivors.{AllEntries, survivors}
use zrtools.WalFile.Rounds.{
  survivors_whole, survivors_torn, survivors_short, survivors_none, body_of, whole_body, fewer,
}

-- The number of the last entry.
unfoldable pub last_number : ℕ → List Entry → ℕ
last_number seq [] = seq
last_number seq ((h, content) ∷ es) = last_number h.seq es

last_seq_loop-short :
    (fuel : ℕ) (rest : List ℕ) (seq : ℕ)
    → length rest < entry_header_size
    → last_seq_loop fuel rest seq ≡ seq
unfolding last_seq_loop
last_seq_loop-short zero rest seq h = refl
last_seq_loop-short (suc fuel) rest seq h =
    let short : ltb (length rest) entry_header_size ≡ true = ground arith in rw short refl

last_seq_loop-header :
    (fuel : ℕ) (h : Header) (body : List ℕ) (seq : ℕ)
    → IsHeader h
    → h.seq ≢ 0
    → last_seq_loop (suc fuel) (entry_header_bytes h ++ body) seq
      ≡ last_seq_loop fuel (drop h.data_len body) h.seq
unfolding last_seq_loop
last_seq_loop-header fuel h body seq w positive =
    let bytes = entry_header_bytes h in
    let size = length-entry_header_bytes h in
    let long : ltb (length (bytes ++ body)) entry_header_size ≡ false =
      ground (arith, length-append bytes body, size) in
    let front : parse_entry_header (take entry_header_size (bytes ++ body)) ≡ h =
      ap parse_entry_header (take_front entry_header_size bytes body size)
      ∙ parse-entry_header_bytes h w in
    let used : (h.seq == 0) ≡ false = ground arith in
    rw (long, front, drop_front entry_header_size bytes body size, used) refl

last_seq_loop-survivors :
    (fuel n : ℕ) (es : List Entry) (seq : ℕ)
    → AllEntries es
    → length (take n (log_bytes es)) < fuel
    → last_seq_loop fuel (take n (log_bytes es)) seq ≡ last_number seq (survivors n es)
unfolding log_bytes AllEntries last_number
last_seq_loop-survivors zero n es seq all l = absurd (omega arith)
last_seq_loop-survivors (suc fuel) n [] seq all l =
    rw (survivors_none n)
      (last_seq_loop-short (suc fuel) (take n []) seq (omega (arith, length-take {A = ℕ} n [])))
last_seq_loop-survivors (suc fuel) n ((h, content) ∷ es) seq ((w, positive, size), all) l =
    elim (Bool-cases (leb (entry_header_size + length content) n)) [
      | inl whole ↦
          let fits : entry_header_size + length content ≤ n = ground arith in
          let n' = n - (entry_header_size + length content) in
          let left = take n' (log_bytes es) in
          rw
            (
              survivors_whole n h content es fits,
              body_of n h content (log_bytes es) (omega arith),
              whole_body n content (log_bytes es) fits,
              last_seq_loop-header fuel h (content ++ left) seq w positive,
              drop_front h.data_len content left size,
            )
            (last_seq_loop-survivors fuel n' es h.seq all
              (fewer n h content (log_bytes es) fuel l fits))
      | inr cut ↦ elim (Bool-cases (leb entry_header_size n)) [
        | inl torn ↦
            let less : n < entry_header_size + length content = ground arith in
            let fits : entry_header_size ≤ n = ground arith in
            let body = take (n - entry_header_size) content in
            rw
              (
                survivors_torn n h content es fits less,
                body_of n h content (log_bytes es) fits,
                take-append_le (n - entry_header_size) content (log_bytes es) (omega arith),
                last_seq_loop-header fuel h body seq w positive,
              )
              (last_seq_loop-short fuel (drop h.data_len body) h.seq (
                omega (
                  arith,
                  length-drop h.data_len body,
                  length-take (n - entry_header_size) content,
                  size,
                )))
        | inr short ↦
            let few : n < entry_header_size = ground arith in
            rw (survivors_short n h content es few) (
              last_seq_loop-short (suc fuel) (take n (entry_bytes (h, content) ++ log_bytes es)) seq
                (omega (arith, length-take n (entry_bytes (h, content) ++ log_bytes es))))
      ]
    ]

-- The numbers of the survivors count on.
last_number-entries_from :
    (n seq first : ℕ) (rs : List Request)
    → let kept = survivors n (entries_from seq rs) in
      last_number first kept ≡ (if length kept == 0 then first else seq + length kept)
unfolding entries_from last_number new_header
last_number-entries_from n seq first [] = rw (survivors_none n) refl
last_number-entries_from n seq first (r ∷ rs) =
    let h = new_header (seq + 1) r.now r.type r.content in
    let es = entries_from (seq + 1) rs in
    elim (Bool-cases (leb (entry_header_size + length r.content) n)) [
      | inl whole ↦ rw (survivors_whole n h r.content es (ground arith)) (
          ground (
            arith,
            last_number-entries_from (n - (entry_header_size + length r.content)) (seq + 1)
                (seq + 1) rs,
          ))
      | inr cut ↦ elim (Bool-cases (leb entry_header_size n)) [
        | inl torn ↦
            rw (survivors_torn n h r.content es (ground arith) (ground arith)) (ground arith)
        | inr short ↦ rw (survivors_short n h r.content es (ground arith)) refl
      ]
    ]

-- After any appends to a new file and a crash that leaves any number of its bytes, the header's at
-- least, GetLastSeqInFile gives the number of the last entry whose header is left, which is as far from
-- the number before the file as there are such entries; without one it gives the first number, which
-- no entry has. The fields fit their types, and the numbers do not wrap.
pub get_last_seq_in_file-appends :
    (rs : List Request) (w : Writer) (now n : ℕ)
    → AllRequests rs
    → now < 2 ^ 64
    → w.current_seq + length rs + 1 < 2 ^ 64
    → file_header_size ≤ n
    → let after = appends rs (create_new_file now w) in
      let kept = survivors (n - file_header_size) (entries_from w.current_seq rs) in
      get_last_seq_in_file (take n after.file)
      ≡ (if length kept == 0 then w.current_seq + 1 else w.current_seq + length kept)
unfolding create_new_file get_last_seq_in_file
get_last_seq_in_file-appends rs w now n all time fits l =
    let es = entries_from w.current_seq rs in
    let new : Writer = create_new_file now w in
    let r : IsAppended rs new = appends-IsAppended rs new refl (omega arith) (omega arith) in
    let h = new_file_header w.current_seq now in
    let header : IsFileHeader h = record {
      magic_fits = omega arith;
      version_fits = omega arith;
      start_seq_fits = omega arith;
      entry_count_fits = omega arith;
      create_time_fits = time;
    } in
    let start = file_header_bytes h in
    let m = n - file_header_size in
    let rest = take m (log_bytes es) in
    let size = length-file_header_bytes h in
    let split : n ≡ length start + m = omega (arith, size) in
    let cut : take n (start ++ log_bytes es) ≡ start ++ rest =
      ap (λ (k : ℕ). take k (start ++ log_bytes es)) split
      ∙ take-append_ge m start (log_bytes es) in
    let long : ltb (length (start ++ rest)) file_header_size ≡ false =
      ground (arith, length-append start rest, size) in
    let first : wrap64 (w.current_seq + 1) ≡ w.current_seq + 1 = omega arith in
    ap (λ (file : List ℕ). get_last_seq_in_file (take n file)) r.written
    ∙ rw
        (
          cut,
          read_file_header-append h rest header,
          long,
          drop_front file_header_size start rest size,
        )
        (last_seq_loop-survivors (length rest + 1) m es (wrap64 (w.current_seq + 1))
          (entries_from-AllEntries w.current_seq rs all (omega arith)) (omega arith))
    ∙ last_number-entries_from m w.current_seq (wrap64 (w.current_seq + 1)) rs
    ∙ ap
        (λ (k : ℕ).
          if length (survivors m es) == 0 then k else w.current_seq + length (survivors m es))
        first
