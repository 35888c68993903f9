-- ===== src/WalFile/Rounds.antt =====
-- src/zrtools/zrt_wal_file.h: `ReadAfter` on the bytes of a file of entries that ends anywhere.
use zrtools.Prelude.Cuts.{take-append_le, take-append_ge}
use zrtools.Prelude.{
  ℕ, zero, suc, ◌+◌, ◌-◌, ◌≡◌, ◌≤◌, ◌<◌, inl, inr, ◌∙◌, ap, ap₂, sym, refl, arith, Bool, true,
  false, List, [], ◌∷◌, ◌++◌, if◌then◌else◌, ltb, leb, length, take, length-append, length-take,
  append-nil, append_assoc, Bool-cases,
}
use zrtools.Wal.Entry.{Header}
use zrtools.WalFile.Bytes.{Entry, entry_header_size, entry_header_bytes, entry_bytes, log_bytes}
use zrtools.WalFile.Reader.{read_data, read_loop}
use zrtools.WalFile.Parsed.{take_front, drop_front, length-entry_header_bytes}
use zrtools.WalFile.Survivors.{
  IsEntry, AllEntries, newer, is_full, survivors, HasRoom, grown, grown-newer, grown-length,
  open-room, outcome, outcome-room, outcome-full, read_loop-header, read_loop-short,
}

-- An entry, and what the loop makes of the others.
with_entry :
    (after_seq n : ℕ) (e : Entry) (acc more : List Entry) (tail : List Entry × Bool)
    → HasRoom n acc
    → let added = grown after_seq e acc in
      (HasRoom n added → tail ≡ outcome n (added ++ newer after_seq more))
      → (if is_full n added then (added, true) else tail)
        ≡ outcome n (acc ++ newer after_seq (e ∷ more))
with_entry after_seq n e acc more tail room next =
    let added = grown after_seq e acc in
    let same = sym (ap (λ (es : List Entry). outcome n es) (grown-newer after_seq e acc more)) in
    elim (Bool-cases (is_full n added)) [
      | inl full ↦ rw full (
          sym (
            outcome-full n acc added (newer after_seq more) room (grown-length after_seq e acc)
              full)
          ∙ same)
      | inr open_ ↦ rw open_ (next (open-room n acc added room open_) ∙ same)
    ]

-- The bytes behind the header of the first entry.
pub body_of :
    (n : ℕ) (h : Header) (content rest : List ℕ)
    → entry_header_size ≤ n
    → take n (entry_bytes (h, content) ++ rest)
      ≡ entry_header_bytes h ++ take (n - entry_header_size) (content ++ rest)
unfolding entry_bytes
body_of n h content rest l =
    let size = length-entry_header_bytes h in
    let split : n ≡ length (entry_header_bytes h) + (n - entry_header_size) = omega (arith, size) in
    ap₂ take split (append_assoc (entry_header_bytes h) content rest)
    ∙ take-append_ge (n - entry_header_size) (entry_header_bytes h) (content ++ rest)

pub whole_body :
    (n : ℕ) (content rest : List ℕ)
    → entry_header_size + length content ≤ n
    → take (n - entry_header_size) (content ++ rest)
      ≡ content ++ take (n - (entry_header_size + length content)) rest
whole_body n content rest l =
    let split : n - entry_header_size
        ≡ length content + (n - (entry_header_size + length content)) =
      omega arith in
    ap (λ (k : ℕ). take k (content ++ rest)) split
    ∙ take-append_ge (n - (entry_header_size + length content)) content rest

read_data-whole :
    (len : ℕ) (content rest : List ℕ)
    → length content ≡ len
    → read_data len (content ++ rest) ≡ content
unfolding read_data
read_data-whole len content rest e =
    let full : len - length (content ++ rest) ≡ 0 = omega (arith, length-append content rest) in
    rw (full, take_front len content rest e) (append-nil content)

nothing_newer :
    (after_seq n : ℕ) (acc : List Entry)
    → HasRoom n acc
    → (acc, false) ≡ outcome n (acc ++ newer after_seq [])
unfolding newer
nothing_newer after_seq n acc room =
    sym (outcome-room n acc room) ∙ ap (λ (xs : List Entry). outcome n xs) (sym (append-nil acc))

pub survivors_none : (n : ℕ) → survivors n [] ≡ []
unfolding survivors
survivors_none n = refl

pub survivors_whole :
    (n : ℕ) (h : Header) (content : List ℕ) (es : List Entry)
    → entry_header_size + length content ≤ n
    → survivors n ((h, content) ∷ es)
      ≡ (h, content) ∷ survivors (n - (entry_header_size + length content)) es
unfolding survivors
survivors_whole n h content es l = ground arith

pub survivors_torn :
    (n : ℕ) (h : Header) (content : List ℕ) (es : List Entry)
    → entry_header_size ≤ n
    → n < entry_header_size + length content
    → survivors n ((h, content) ∷ es)
      ≡ (h, read_data h.data_len (take (n - entry_header_size) content)) ∷ []
unfolding survivors
survivors_torn n h content es l k = ground arith

pub survivors_short :
    (n : ℕ) (h : Header) (content : List ℕ) (es : List Entry)
    → n < entry_header_size
    → survivors n ((h, content) ∷ es) ≡ []
unfolding survivors
survivors_short n h content es l = ground arith

-- A round on an entry that is whole, with the rounds behind it.
whole_round :
    (fuel n : ℕ) (h : Header) (content rest : List ℕ) (more : List Entry) (after_seq max_count : ℕ)
    (acc : List Entry)
    → IsEntry (h, content)
    → HasRoom max_count acc
    → entry_header_size + length content ≤ n
    → let left = take (n - (entry_header_size + length content)) rest in
      let added = grown after_seq (h, content) acc in
      (HasRoom max_count added
        → read_loop fuel left after_seq max_count added
          ≡ outcome max_count (added ++ newer after_seq more))
      → read_loop (suc fuel) (take n (entry_bytes (h, content) ++ rest)) after_seq max_count acc
        ≡ outcome max_count (acc ++ newer after_seq ((h, content) ∷ more))
whole_round fuel n h content rest more after_seq max_count acc (w, positive, size) room l next =
    let left = take (n - (entry_header_size + length content)) rest in
    let enough : ltb (length (content ++ left)) h.data_len ≡ false =
      ground (arith, length-append content left, size) in
    rw
      (
        body_of n h content rest (omega arith),
        whole_body n content rest l,
        read_loop-header fuel h (content ++ left) after_seq max_count acc w positive room,
        read_data-whole h.data_len content left size,
        enough,
        drop_front h.data_len content left size,
      )
      (with_entry after_seq max_count (h, content) acc more
        (read_loop fuel left after_seq max_count (grown after_seq (h, content) acc)) room next)

-- A round on an entry whose data is cut off.
torn_round :
    (fuel n : ℕ) (h : Header) (content rest : List ℕ) (after_seq max_count : ℕ) (acc : List Entry)
    → IsEntry (h, content)
    → HasRoom max_count acc
    → entry_header_size ≤ n
    → n < entry_header_size + length content
    → read_loop (suc fuel) (take n (entry_bytes (h, content) ++ rest)) after_seq max_count acc
      ≡ outcome max_count (
          acc
          ++ newer after_seq
              ((h, read_data h.data_len (take (n - entry_header_size) content)) ∷ []))
torn_round fuel n h content rest after_seq max_count acc (w, positive, size) room l k =
    let body = take (n - entry_header_size) content in
    let torn : Entry = (h, read_data h.data_len body) in
    let added = grown after_seq torn acc in
    let cut : take (n - entry_header_size) (content ++ rest) ≡ body =
      take-append_le (n - entry_header_size) content rest (omega arith) in
    let missing : ltb (length body) h.data_len ≡ true =
      ground (arith, length-take (n - entry_header_size) content, size) in
    rw
      (
        body_of n h content rest l,
        cut,
        read_loop-header fuel h body after_seq max_count acc w positive room,
        missing,
      )
      (with_entry after_seq max_count torn acc [] (added, false) room
        (λ r. nothing_newer after_seq max_count added r))

pub length-entry_bytes :
    (h : Header) (content : List ℕ)
    → length (entry_bytes (h, content)) ≡ entry_header_size + length content
unfolding entry_bytes
length-entry_bytes h content =
    omega (arith, length-append (entry_header_bytes h) content, length-entry_header_bytes h)

pub fewer :
    (n : ℕ) (h : Header) (content rest : List ℕ) (fuel : ℕ)
    → length (take n (entry_bytes (h, content) ++ rest)) < suc fuel
    → entry_header_size + length content ≤ n
    → length (take (n - (entry_header_size + length content)) rest) < fuel
fewer n h content rest fuel l k = omega (
  arith,
  length-take n (entry_bytes (h, content) ++ rest),
  length-append (entry_bytes (h, content)) rest,
  length-entry_bytes h content,
  length-take (n - (entry_header_size + length content)) rest,
)

-- ReadAfter on the bytes of entries, of which the file holds some number, gives those of the survivors
-- that are newer, behind those it has, up to the limit.
pub read_loop-survivors :
    (fuel n : ℕ) (es : List Entry) (after_seq max_count : ℕ) (acc : List Entry)
    → AllEntries es
    → HasRoom max_count acc
    → length (take n (log_bytes es)) < fuel
    → read_loop fuel (take n (log_bytes es)) after_seq max_count acc
      ≡ outcome max_count (acc ++ newer after_seq (survivors n es))
unfolding log_bytes AllEntries
read_loop-survivors zero n es after_seq max_count acc all room l = absurd (omega arith)
read_loop-survivors (suc fuel) n [] after_seq max_count acc all room l = rw (survivors_none n) (
    read_loop-short (suc fuel) (take n []) after_seq max_count acc
      (omega (arith, length-take {A = ℕ} n []))
    ∙ nothing_newer after_seq max_count acc room)
read_loop-survivors (suc fuel) n ((h, content) ∷ es) after_seq max_count acc
      ((w, positive, size), all) room l =
    elim (Bool-cases (leb (entry_header_size + length content) n)) [
      | inl whole ↦
          let fits : entry_header_size + length content ≤ n = ground arith in
          rw (survivors_whole n h content es fits) (
            whole_round fuel n h content (log_bytes es)
              (survivors (n - (entry_header_size + length content)) es) after_seq max_count acc
              (w, positive, size) room fits
              (λ open_.
                read_loop-survivors fuel (n - (entry_header_size + length content)) es after_seq
                  max_count (grown after_seq (h, content) acc) all open_
                  (fewer n h content (log_bytes es) fuel l fits)))
      | inr cut ↦ elim (Bool-cases (leb entry_header_size n)) [
        | inl torn ↦
            let less : n < entry_header_size + length content = ground arith in
            let fits : entry_header_size ≤ n = ground arith in
            rw (survivors_torn n h content es fits less) (
              torn_round fuel n h content (log_bytes es) after_seq max_count acc (w, positive, size)
                room fits less)
        | inr short ↦
            let few : n < entry_header_size = ground arith in
            rw (survivors_short n h content es few) (
              read_loop-short (suc fuel) (take n (entry_bytes (h, content) ++ log_bytes es))
                after_seq max_count acc
                (omega (arith, length-take n (entry_bytes (h, content) ++ log_bytes es)))
              ∙ nothing_newer after_seq max_count acc room)
      ]
    ]
