-- ===== src/Ring/Confirmed.antt =====
-- src/zrtools/zrt_shm_ring.h: `Confirm` and `ConfirmBatch` drop entries from the front of the log.
use zrtools.Prelude.{
  wrap64, ℕ, zero, suc, ◌+◌, ◌-◌, ◌%◌, ◌^◌, ◌<◌, ◌≡◌, ◌∙◌, ap, refl, arith, List, [], ◌∷◌, ◌++◌,
  true, false, All, some, ltb, ◌==◌,
}
use zrtools.Wal.Entry.{load_header}
use zrtools.Ring.State.{Ring}
use zrtools.Ring.Append.{entry_size}
use zrtools.Ring.Confirm.{find_seq, confirm}
use zrtools.Ring.Chain.{Segment, IsLive, Chain, Chain-le}
use zrtools.Ring.Offsets.{entry_size-eight}
use zrtools.Ring.Appended.{IsLog}

abbrev pub at_confirmed : Ring → ℕ → Ring
at_confirmed r pos = record r { confirmed_pos = pos }

module _ (buffer_size : ℕ) where
  module _ (r : Ring) (seq : ℕ) where
    find_seq-here :
        (fuel pos : ℕ) (s : Segment)
        → pos < r.write_pos
        → load_header r.buffer (pos % buffer_size) ≡ s.header
        → s.header.seq ≡ seq
        → find_seq buffer_size (suc fuel) r seq pos
          ≡ some (some (wrap64 (pos + entry_size s.header.data_len)))
    unfolding find_seq
    find_seq-here fuel pos s h e k =
        let before : ltb pos r.write_pos ≡ true = ground arith in
        let found : (s.header.seq == seq) ≡ true = ground arith in rw (e, found, before) refl

    find_seq-later :
        (fuel pos : ℕ) (s : Segment)
        → pos < r.write_pos
        → load_header r.buffer (pos % buffer_size) ≡ s.header
        → s.header.seq < seq
        → find_seq buffer_size (suc fuel) r seq pos
          ≡ find_seq buffer_size fuel r seq (wrap64 (pos + entry_size s.header.data_len))
    unfolding find_seq
    find_seq-later fuel pos s h e k =
        let before : ltb pos r.write_pos ≡ true = ground arith in
        let other : (s.header.seq == seq) ≡ false = ground arith in
        let below : ltb seq s.header.seq ≡ false = ground arith in rw (e, other, below, before) refl

    -- The position behind the entry.
    find_seq-Chain :
        (fuel pos : ℕ) (front : List Segment) (s : Segment) (back : List Segment)
        → Chain buffer_size r.buffer pos (front ++ (s ∷ back)) r.write_pos
        → All (λ t. t.header.seq < seq) front
        → s.header.seq ≡ seq
        → r.write_pos < 2 ^ 64
        → r.write_pos - pos < fuel
        → (end : ℕ) × (find_seq buffer_size fuel r seq pos ≡ some (some end))
          × Chain buffer_size r.buffer end back r.write_pos
    find_seq-Chain zero pos front s back c l e small enough = absurd (omega arith)
    find_seq-Chain (suc fuel) pos [] s back c l e small enough =
        let size = entry_size-eight s.header.data_len c.0.2 in
        let behind = pos + entry_size s.header.data_len in
        let later = Chain-le buffer_size r.buffer behind r.write_pos back c.2 in
        let next : wrap64 behind ≡ behind = omega arith in
        (
          behind,
          find_seq-here fuel pos s (omega arith) c.0.0 e ∙ ap (λ (p : ℕ). some (some p)) next,
          c.2,
        )
    find_seq-Chain (suc fuel) pos (t ∷ front) s back c l e small enough =
        let size = entry_size-eight t.header.data_len c.0.2 in
        let behind = pos + entry_size t.header.data_len in
        let later = Chain-le buffer_size r.buffer behind r.write_pos (front ++ (s ∷ back)) c.2 in
        let next : wrap64 behind ≡ behind = omega arith in
        let (end, found, chain) =
          find_seq-Chain fuel behind front s back c.2 l.1 e small (omega arith) in
        (
          end,
          find_seq-later fuel pos t (omega arith) c.0.0 l.0
              ∙ ap (λ (p : ℕ). find_seq buffer_size fuel r seq p) next
              ∙ found,
          chain,
        )

  All-drop : (front back : List Segment) → All IsLive (front ++ back) → All IsLive back
  All-drop [] back l = l
  All-drop (s ∷ front) back l = All-drop front back l.1

  -- `Confirm` of a number ends. Where the log has an entry with it, and smaller numbers before, the log
  -- begins behind that entry afterwards; nothing else of the ring changes.
  pub confirm-IsLog :
      (r : Ring) (seq : ℕ) (front : List Segment) (s : Segment) (back : List Segment)
      → IsLog buffer_size r r.confirmed_pos (front ++ (s ∷ back))
      → All (λ t. t.header.seq < seq) front
      → s.header.seq ≡ seq
      → r.write_pos < 2 ^ 64
      → (end : ℕ) × (confirm buffer_size (some r) seq ≡ some (some (at_confirmed r end)))
        × IsLog buffer_size (at_confirmed r end) end back
  unfolding confirm
  confirm-IsLog r seq front s back log l e small =
      let (end, found, chain) =
        find_seq-Chain r seq (suc (r.write_pos - r.confirmed_pos)) r.confirmed_pos front s back
          log.chain l e small (omega arith) in
      (
        end,
        rw (confirm, found) refl,
        record {
          chain = chain;
          live = (All-drop front (s ∷ back) log.live).1;
          unconfirmed = omega arith;
          even = log.even;
        },
      )
