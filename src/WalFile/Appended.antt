-- ===== src/WalFile/Appended.antt =====
-- src/zrtools/zrt_wal_file.h: what a writer has appended to a file.
use zrtools.Prelude.{
  ℕ, ◌+◌, ◌≡◌, ◌<◌, ◌^◌, ◌∙◌, ap₂, sym, refl, arith, true, List, [], ◌∷◌, ◌++◌, length, append-nil,
  append_assoc, wrap64,
}
use zrtools.Crc.Chunks.{calc-lt}
use zrtools.WalFile.Bytes.{Entry, entry_bytes, log_bytes}
use zrtools.WalFile.Writer.{Writer, new_header, append}
use zrtools.WalFile.Survivors.{AllEntries}

-- A call of `Append`: the time, the type and the data.
pub record Request : Type 0 where
  pub now : ℕ
  pub type : ℕ
  pub content : List ℕ

abbrev pub IsRequest : Request → Type 0
IsRequest r = (r.now < 2 ^ 64) × (r.type < 2 ^ 16) × (length r.content < 2 ^ 16)

unfoldable pub AllRequests : List Request → Type 0
AllRequests [] = Unit {0}
AllRequests (r ∷ rs) = IsRequest r × AllRequests rs

unfoldable pub appends : List Request → Writer → Writer
appends [] w = w
appends (r ∷ rs) w = appends rs (append r.now r.type r.content w).0

-- The entries of the calls, counted on from a number.
unfoldable pub entries_from : ℕ → List Request → List Entry
entries_from seq [] = []
entries_from seq (r ∷ rs) =
    (new_header (seq + 1) r.now r.type r.content, r.content) ∷ entries_from (seq + 1) rs

pub entries_from-AllEntries :
    (seq : ℕ) (rs : List Request)
    → AllRequests rs
    → seq + length rs < 2 ^ 64
    → AllEntries (entries_from seq rs)
unfolding AllEntries entries_from AllRequests new_header
entries_from-AllEntries seq [] all fits = tt
entries_from-AllEntries seq (r ∷ rs) ((t, y, l), all) fits = (
  (
    record {
      seq_fits = omega arith;
      timestamp_fits = t;
      type_fits = y;
      data_len_fits = l;
      crc32_fits = calc-lt r.content;
    },
    (λ e. absurd (omega (arith, e))),
    refl,
  ),
  entries_from-AllEntries (seq + 1) rs all (omega arith),
)

-- A call on an open file.
record IsStep (r : Request) (w next : Writer) (seq : ℕ) : Type 0 where
  pub opened : next.is_open ≡ true
  pub written : next.file ≡ w.file ++ entry_bytes (new_header seq r.now r.type r.content, r.content)
  pub counted : next.current_seq ≡ seq
  pub in_file : next.entry_count ≡ w.entry_count + 1

append-IsStep :
    (r : Request) (w : Writer)
    → w.is_open ≡ true
    → w.current_seq + 1 < 2 ^ 64
    → w.entry_count + 1 < 2 ^ 64
    → IsStep r w (append r.now r.type r.content w).0 (w.current_seq + 1)
unfolding append
append-IsStep r w h f g =
    let seq : wrap64 (w.current_seq + 1) ≡ w.current_seq + 1 = omega arith in
    let count : wrap64 (w.entry_count + 1) ≡ w.entry_count + 1 = omega arith in
    record {
      opened = rw h refl;
      written = rw (h, seq) refl;
      counted = rw (h, seq) refl;
      in_file = rw (h, count) refl;
    }

-- The writer after the calls.
pub record IsAppended (rs : List Request) (w : Writer) : Type 0 where
  pub opened : (appends rs w).is_open ≡ true
  pub written : (appends rs w).file ≡ w.file ++ log_bytes (entries_from w.current_seq rs)
  pub counted : (appends rs w).current_seq ≡ w.current_seq + length rs
  pub in_file : (appends rs w).entry_count ≡ w.entry_count + length rs

pub appends-IsAppended :
    (rs : List Request) (w : Writer)
    → w.is_open ≡ true
    → w.current_seq + length rs < 2 ^ 64
    → w.entry_count + length rs < 2 ^ 64
    → IsAppended rs w
unfolding appends entries_from log_bytes
appends-IsAppended [] w h f g = record {
  opened = h;
  written = sym (append-nil w.file);
  counted = omega arith;
  in_file = omega arith;
}
appends-IsAppended (r ∷ rs) w h f g =
    let next = (append r.now r.type r.content w).0 in
    let step = append-IsStep r w h (omega arith) (omega arith) in
    let later =
      appends-IsAppended rs next step.opened (omega (arith, step.counted))
        (omega (arith, step.in_file)) in
    record {
      opened = later.opened;
      written =
          later.written
          ∙ ap₂ (λ (file : List ℕ) (n : ℕ). file ++ log_bytes (entries_from n rs)) step.written
              step.counted
          ∙ append_assoc w.file
              (entry_bytes (new_header (w.current_seq + 1) r.now r.type r.content, r.content))
              (log_bytes (entries_from (w.current_seq + 1) rs));
      counted = omega (arith, later.counted, step.counted);
      in_file = omega (arith, later.in_file, step.in_file);
    }
