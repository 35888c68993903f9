-- ===== src/Ring/Unconfirmed.antt =====
-- src/zrtools/zrt_shm_ring.h: `ReadUnconfirmed` returns the first entries of the log.
use zrtools.Prelude.{
  wrap64, ℕ, zero, suc, ◌+◌, ◌-◌, ◌%◌, ◌^◌, ◌≤◌, ◌<◌, ◌≡◌, ◌⊎◌, inl, inr, ◌∙◌, ap, sym, refl, arith,
  List, [], ◌∷◌, ◌++◌, append-nil, append_assoc, true, false, length, length-append, take, All,
  some, ltb,
}
use zrtools.Wal.Entry.{Header, load_header, entry_data, validate_crc}
use zrtools.Ring.State.{Ring}
use zrtools.Ring.Append.{entry_size}
use zrtools.Ring.Read.{is_skipped, collect, read_unconfirmed}
use zrtools.Ring.Chain.{Segment, IsLive, entries, Chain, Chain-le}
use zrtools.Ring.Offsets.{entry_size-eight}
use zrtools.Ring.Appended.{IsLog}
use zrtools.Ring.Segments.{
  live_cases, entries-none, entries-skipped, entries-entry_first, validate_crc-IsEntry,
  entry_data-IsAt, take-none,
}

module _ (buffer_size : ℕ) where
  module _ (r : Ring) (max_count : ℕ) where
    -- A full vector, or no more positions.
    collect-full :
        (fuel pos : ℕ) (found : List (Header × List ℕ))
        → (r.write_pos ≤ pos) ⊎ (max_count ≤ length found)
        → collect buffer_size (suc fuel) r pos max_count found ≡ some found
    unfolding collect
    collect-full fuel pos found (inl h) = ground arith
    collect-full fuel pos found (inr h) = ground arith

    collect-skipped :
        (fuel pos : ℕ) (found : List (Header × List ℕ)) (s : Segment)
        → pos < r.write_pos
        → length found < max_count
        → load_header r.buffer (pos % buffer_size) ≡ s.header
        → is_skipped s.header ≡ true
        → collect buffer_size (suc fuel) r pos max_count found
          ≡ collect buffer_size fuel r (wrap64 (pos + entry_size s.header.data_len)) max_count found
    unfolding collect
    collect-skipped fuel pos found s h l e k =
        let before : ltb pos r.write_pos ≡ true = ground arith in
        let room : ltb (length found) max_count ≡ true = ground arith in
        rw (e, k, before, room) refl

    collect-entry :
        (fuel pos : ℕ) (found : List (Header × List ℕ)) (s : Segment)
        → pos < r.write_pos
        → length found < max_count
        → load_header r.buffer (pos % buffer_size) ≡ s.header
        → entry_data r.buffer (pos % buffer_size) ≡ s.content
        → is_skipped s.header ≡ false
        → validate_crc r.buffer (pos % buffer_size) ≡ true
        → collect buffer_size (suc fuel) r pos max_count found
          ≡ collect buffer_size fuel r
              (wrap64 (pos + entry_size s.header.data_len))
              max_count
              (found ++ ((s.header, s.content) ∷ []))
    unfolding collect
    collect-entry fuel pos found s h l e d k v =
        let before : ltb pos r.write_pos ≡ true = ground arith in
        let room : ltb (length found) max_count ≡ true = ground arith in
        rw (e, k, v, d, before, room) refl

    -- Where the vector is full, or the log is empty, nothing is taken.
    take-full :
        (found ss : List (Header × List ℕ))
        → (max_count ≤ length found) ⊎ (ss ≡ [])
        → found ++ take (max_count - length found) ss ≡ found
    take-full found ss (inl h) =
        let none_left : max_count - length found ≡ 0 = omega arith in
        rw none_left (append-nil found)
    take-full found ss (inr e) = rw (e, take-none (max_count - length found)) (append-nil found)

    take-next :
        (found rest : List (Header × List ℕ)) (e : Header × List ℕ)
        → length found < max_count
        → (found ++ (e ∷ [])) ++ take (max_count - length (found ++ (e ∷ []))) rest
          ≡ found ++ take (max_count - length found) (e ∷ rest)
    take-next found rest e h =
        let longer : length (found ++ (e ∷ [])) ≡ suc (length found) =
          omega (arith, length-append found (e ∷ [])) in
        let split : max_count - length found ≡ suc (max_count - suc (length found)) = omega arith in
        rw (longer, split)
          (append_assoc found (e ∷ []) (take (max_count - suc (length found)) rest))

    collect-Chain :
        (fuel pos : ℕ) (found : List (Header × List ℕ)) (ss : List Segment)
        → Chain buffer_size r.buffer pos ss r.write_pos
        → All IsLive ss
        → r.write_pos < 2 ^ 64
        → r.write_pos - pos < fuel
        → collect buffer_size fuel r pos max_count found
          ≡ some (found ++ take (max_count - length found) (entries ss))
    collect-Chain zero pos found ss c l small enough = absurd (omega arith)
    collect-Chain (suc fuel) pos found [] c l small enough =
        collect-full fuel pos found (inl (omega arith))
        ∙ ap some (sym (take-full found (entries []) (inr entries-none)))
    collect-Chain (suc fuel) pos found (s ∷ ss) c l small enough =
        let size = entry_size-eight s.header.data_len c.0.2 in
        let later =
          Chain-le buffer_size r.buffer (pos + entry_size s.header.data_len) r.write_pos ss c.2 in
        let next : wrap64 (pos + entry_size s.header.data_len)
            ≡ pos + entry_size s.header.data_len =
          omega arith in
        elim (full (length found)) [
          | inl full_up ↦
              collect-full fuel pos found (inr full_up)
              ∙ ap some (sym (take-full found (entries (s ∷ ss)) (inl full_up)))
          | inr room ↦ elim (live_cases s l.0) [
            | inl skip ↦
                collect-skipped fuel pos found s (omega arith) room c.0.0 skip
                ∙ ap (λ (p : ℕ). collect buffer_size fuel r p max_count found) next
                ∙ collect-Chain fuel (pos + entry_size s.header.data_len) found ss c.2 l.1 small
                    (omega arith)
                ∙ ap
                    (λ (t : List (Header × List ℕ)).
                      some (found ++ take (max_count - length found) t))
                    (sym (entries-skipped s ss skip))
            | inr entry ↦
                collect-entry fuel pos found s (omega arith) room c.0.0
                  (entry_data-IsAt r.buffer (pos % buffer_size) s c.0) entry.0
                  (validate_crc-IsEntry r.buffer (pos % buffer_size) s c.0 entry)
                ∙ ap
                    (λ (p : ℕ).
                      collect buffer_size fuel r p max_count
                        (found ++ ((s.header, s.content) ∷ [])))
                    next
                ∙ collect-Chain fuel (pos + entry_size s.header.data_len)
                    (found ++ ((s.header, s.content) ∷ [])) ss c.2 l.1 small (omega arith)
                ∙ ap some (take-next found (entries ss) (s.header, s.content) room)
                ∙ ap
                    (λ (t : List (Header × List ℕ)).
                      some (found ++ take (max_count - length found) t))
                    (sym (entries-entry_first s ss entry.0))
          ]
        ]
      where
        full : (n : ℕ) → (max_count ≤ n) ⊎ (n < max_count)
        full n = grind arith

  -- On a ring whose log begins at the confirmed position, `ReadUnconfirmed` ends, and gives the first
  -- `max_count` entries of the log and their number, whatever the vector held.
  pub read_unconfirmed-IsLog :
      (r : Ring) (before : List (Header × List ℕ)) (max_count : ℕ) (ss : List Segment)
      → IsLog buffer_size r r.confirmed_pos ss
      → r.write_pos < 2 ^ 64
      → read_unconfirmed buffer_size (some r) before max_count
        ≡ some (length (take max_count (entries ss)), take max_count (entries ss))
  unfolding read_unconfirmed
  read_unconfirmed-IsLog r before max_count ss log small =
      let whole : max_count - length {A = Header × List ℕ} [] ≡ max_count = omega arith in
      let collected =
        collect-Chain r max_count (suc (r.write_pos - r.confirmed_pos)) r.confirmed_pos [] ss
          log.chain log.live small (omega arith)
        ∙ ap (λ (n : ℕ). some (take n (entries ss))) whole in
      rw (read_unconfirmed, collected) refl
