-- ===== src/WalFile/Survivors.antt =====
-- src/zrtools/zrt_wal_file.h: the entries that are left of a file, and a round of `ReadAfter` on them.
use zrtools.Prelude.{
  ℕ, zero, suc, ◌+◌, ◌-◌, ◌≡◌, ◌≤◌, ◌<◌, ◌≢◌, ◌⊎◌, inl, inr, ◌∙◌, ap, ap₂, sym, refl, arith, Bool,
  true, false, ◌&&◌, List, [], ◌∷◌, ◌++◌, if◌then◌else◌, ◌==◌, ltb, leb, length, take, drop,
  length-append, append_assoc, Bool-cases,
}
use zrtools.Wal.Entry.{Header}
use zrtools.WalFile.Bytes.{Entry, entry_header_size, entry_header_bytes, parse_entry_header}
use zrtools.WalFile.Reader.{read_data, read_loop}
use zrtools.WalFile.Parsed.{
  IsHeader, take_front, drop_front, length-entry_header_bytes, parse-entry_header_bytes,
}

-- Entries as the writer makes them.
abbrev pub IsEntry : Entry → Type 0
IsEntry (h, content) = IsHeader h × (h.seq ≢ 0) × (length content ≡ h.data_len)

unfoldable pub AllEntries : List Entry → Type 0
AllEntries [] = Unit {0}
AllEntries (e ∷ es) = IsEntry e × AllEntries es

-- The entries with a number above another.
unfoldable pub newer : ℕ → List Entry → List Entry
newer after_seq [] = []
newer after_seq ((h, content) ∷ es) =
    let rest = newer after_seq es in if ltb after_seq h.seq then (h, content) ∷ rest else rest

-- A number of them, where 0 is no limit.
unfoldable pub cap : ℕ → List Entry → List Entry
cap max_count es = if max_count == 0 then es else take max_count es

unfoldable pub is_full : ℕ → List Entry → Bool
is_full max_count es = ltb 0 max_count && leb max_count (length es)

-- What is left of entries of which so many bytes are there: those that are whole, and one whose header
-- is whole, with zeros for the data that is missing.
unfoldable pub survivors : ℕ → List Entry → List Entry
survivors n [] = []
survivors n ((h, content) ∷ es) =
    let rest = survivors (n - (entry_header_size + length content)) es in
    if leb (entry_header_size + length content) n
    then (h, content) ∷ rest
    else if leb entry_header_size n
    then (h, read_data h.data_len (take (n - entry_header_size) content)) ∷ []
    else []

abbrev pub HasRoom : ℕ → List Entry → Type 0
HasRoom max_count es = (max_count ≡ 0) ⊎ (length es < max_count)

take_short : (n : ℕ) (xs : List Entry) → length xs ≤ n → take n xs ≡ xs
take_short zero [] h = refl
take_short zero (x ∷ xs) h = absurd (omega arith)
take_short (suc n) [] h = refl
take_short (suc n) (x ∷ xs) h = ap (◌∷◌ x) (take_short n xs (omega arith))

room-outcome : (n : ℕ) (xs : List Entry) → HasRoom n xs → (cap n xs ≡ xs) × (is_full n xs ≡ false)
unfolding cap is_full
room-outcome n xs h = ground (arith, take_short n xs, h)

full-outcome :
    (n : ℕ) (acc xs ys : List Entry)
    → HasRoom n acc
    → length xs ≤ length acc + 1
    → is_full n xs ≡ true
    → (cap n (xs ++ ys) ≡ xs) × (is_full n (xs ++ ys) ≡ true)
unfolding cap is_full
full-outcome n acc xs ys h l f =
    let size = length-append xs ys in
    let exact : length xs ≡ n = ground arith in
    (ground (arith, take_front n xs ys exact), ground (arith, size))

pub open-room : (n : ℕ) (acc xs : List Entry) → HasRoom n acc → is_full n xs ≡ false → HasRoom n xs
unfolding is_full
open-room n acc xs h f = ground arith

-- What the loop adds for an entry.
abbrev pub grown : ℕ → Entry → List Entry → List Entry
grown after_seq (h, content) acc = if ltb after_seq h.seq then acc ++ ((h, content) ∷ []) else acc

pub grown-newer :
    (after_seq : ℕ) (e : Entry) (acc es : List Entry)
    → acc ++ newer after_seq (e ∷ es) ≡ grown after_seq e acc ++ newer after_seq es
unfolding newer
grown-newer after_seq (h, content) acc es = elim (Bool-cases (ltb after_seq h.seq)) [
  | inl later ↦ rw later (sym (append_assoc acc ((h, content) ∷ []) (newer after_seq es)))
  | inr seen ↦ rw seen refl
]

pub grown-length :
    (after_seq : ℕ) (e : Entry) (acc : List Entry) → length (grown after_seq e acc) ≤ length acc + 1
grown-length after_seq (h, content) acc = ground (arith, length-append acc ((h, content) ∷ []))

grown-full :
    (after_seq n : ℕ) (e : Entry) (acc : List Entry)
    → HasRoom n acc
    → ltb after_seq (e.0).seq && is_full n (grown after_seq e acc)
      ≡ is_full n (grown after_seq e acc)
grown-full after_seq n (h, content) acc room = elim (Bool-cases (ltb after_seq h.seq)) [
  | inl later ↦ rw later refl
  | inr seen ↦ rw seen (sym (room-outcome n acc room).1)
]

-- A round of the loop on the bytes of an entry's header and those behind them.
pub read_loop-header :
    (fuel : ℕ) (h : Header) (body : List ℕ) (after_seq n : ℕ) (acc : List Entry)
    → IsHeader h
    → h.seq ≢ 0
    → HasRoom n acc
    → let added = grown after_seq (h, read_data h.data_len body) acc in
      read_loop (suc fuel) (entry_header_bytes h ++ body) after_seq n acc ≡ (
        if is_full n added
        then (added, true)
        else if ltb (length body) h.data_len
        then (added, false)
        else read_loop fuel (drop h.data_len body) after_seq n added)
unfolding read_loop is_full
read_loop-header fuel h body after_seq n acc w positive room =
    let bytes = entry_header_bytes h in
    let size = length-entry_header_bytes h in
    let long : ltb (length (bytes ++ body)) entry_header_size ≡ false =
      ground (arith, length-append bytes body, size) in
    let front : parse_entry_header (take entry_header_size (bytes ++ body)) ≡ h =
      ap parse_entry_header (take_front entry_header_size bytes body size)
      ∙ parse-entry_header_bytes h w in
    let used : (h.seq == 0) ≡ false = ground arith in
    let added = grown after_seq (h, read_data h.data_len body) acc in
    let full = grown-full after_seq n (h, read_data h.data_len body) acc room in
    rw (long, front, drop_front entry_header_size bytes body size, used)
      (ap
        (λ (b : Bool).
          if b
          then (added, true)
          else if ltb (length body) h.data_len
          then (added, false)
          else read_loop fuel (drop h.data_len body) after_seq n added)
        full)

pub read_loop-short :
    (fuel : ℕ) (rest : List ℕ) (after_seq n : ℕ) (acc : List Entry)
    → length rest < entry_header_size
    → read_loop fuel rest after_seq n acc ≡ (acc, false)
unfolding read_loop
read_loop-short zero rest after_seq n acc h = refl
read_loop-short (suc fuel) rest after_seq n acc h =
    let short : ltb (length rest) entry_header_size ≡ true = ground arith in rw short refl

-- What the loop gives: the entries up to the limit, and whether it is reached.
abbrev pub outcome : ℕ → List Entry → List Entry × Bool
outcome n es = (cap n es, is_full n es)

pub outcome-room : (n : ℕ) (xs : List Entry) → HasRoom n xs → outcome n xs ≡ (xs, false)
outcome-room n xs h = let (a, b) = room-outcome n xs h in ap₂ (λ x y. (x, y)) a b

pub outcome-full :
    (n : ℕ) (acc xs ys : List Entry)
    → HasRoom n acc
    → length xs ≤ length acc + 1
    → is_full n xs ≡ true
    → outcome n (xs ++ ys) ≡ (xs, true)
outcome-full n acc xs ys h l f =
    let (a, b) = full-outcome n acc xs ys h l f in ap₂ (λ x y. (x, y)) a b
