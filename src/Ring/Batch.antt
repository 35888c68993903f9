-- ===== src/Ring/Batch.antt =====
-- src/zrtools/zrt_shm_ring.h: `ConfirmBatch` drops a number of entries.
use zrtools.Prelude.{
  wrap64, ℕ, zero, suc, ◌+◌, ◌-◌, ◌%◌, ◌^◌, ◌≤◌, ◌<◌, ◌≡◌, ◌⊎◌, inl, inr, ◌∙◌, ap, ap₂, sym, refl,
  arith, List, [], ◌∷◌, Bool, true, false, drop, All, Option, some, ltb, ◌==◌, if◌then◌else◌,
}
use zrtools.Wal.Entry.{load_header}
use zrtools.Ring.State.{Ring}
use zrtools.Ring.Append.{entry_size}
use zrtools.Ring.Read.{is_skipped}
use zrtools.Ring.Confirm.{pass_entries, confirm_batch}
use zrtools.Ring.Confirmed.{at_confirmed}
use zrtools.Ring.Chain.{Segment, IsLive, entries, Chain, Chain-le}
use zrtools.Ring.Offsets.{entry_size-eight}
use zrtools.Ring.Appended.{IsLog}
use zrtools.Ring.Segments.{live_cases, entries-none, entries-skipped, entries-entry_first}

module _ (buffer_size : ℕ) where
  module _ (r : Ring) (count : ℕ) where
    pass_entries-end :
        (fuel confirmed pos : ℕ)
        → (r.write_pos ≤ pos) ⊎ (count ≤ confirmed)
        → pass_entries buffer_size (suc fuel) r count confirmed pos ≡ some pos
    unfolding pass_entries
    pass_entries-end fuel confirmed pos (inl h) = ground arith
    pass_entries-end fuel confirmed pos (inr h) = ground arith

    pass_entries-segment :
        (fuel confirmed pos : ℕ) (s : Segment)
        → pos < r.write_pos
        → confirmed < count
        → load_header r.buffer (pos % buffer_size) ≡ s.header
        → pass_entries buffer_size (suc fuel) r count confirmed pos
          ≡ pass_entries buffer_size fuel r count
              (if is_skipped s.header then confirmed else suc confirmed)
              (wrap64 (pos + entry_size s.header.data_len))
    unfolding pass_entries
    pass_entries-segment fuel confirmed pos s h l e =
        let before : ltb pos r.write_pos ≡ true = ground arith in
        let more : ltb confirmed count ≡ true = ground arith in rw (e, before, more) refl

    drop-none : (n : ℕ) → drop n (entries []) ≡ entries []
    drop-none zero = refl
    drop-none (suc n) = rw entries-none refl

    -- The rest of the log behind the confirmed entries.
    abbrev IsPassed : ℕ → List Segment → Option ℕ → Type 0
    IsPassed confirmed ss result =
        (end : ℕ) × (back : List Segment) × (result ≡ some end)
        × Chain buffer_size r.buffer end back r.write_pos
        × All IsLive back
        × (entries back ≡ drop (count - confirmed) (entries ss))

    pass_entries-Chain :
        (fuel confirmed pos : ℕ) (ss : List Segment)
        → Chain buffer_size r.buffer pos ss r.write_pos
        → All IsLive ss
        → r.write_pos < 2 ^ 64
        → r.write_pos - pos < fuel
        → IsPassed confirmed ss (pass_entries buffer_size fuel r count confirmed pos)
    pass_entries-Chain zero confirmed pos ss c l small enough = absurd (omega arith)
    pass_entries-Chain (suc fuel) confirmed pos [] c l small enough = (
      pos,
      [],
      pass_entries-end fuel confirmed pos (inl (omega arith)),
      c,
      l,
      sym (drop-none (count - confirmed)),
    )
    pass_entries-Chain (suc fuel) confirmed pos (s ∷ ss) c l small enough =
        let size = entry_size-eight s.header.data_len c.0.2 in
        let behind = pos + entry_size s.header.data_len in
        let later = Chain-le buffer_size r.buffer behind r.write_pos ss c.2 in
        let next : wrap64 behind ≡ behind = omega arith in
        elim (full confirmed) [
          | inl h ↦ (
            pos,
            s ∷ ss,
            pass_entries-end fuel confirmed pos (inr h),
            c,
            l,
            ap (λ (n : ℕ). drop n (entries (s ∷ ss))) (none_left confirmed h),
          )
          | inr h ↦ elim (live_cases s l.0) [
            | inl skip ↦
                let (end, back, passed, chain, live, rest) =
                  pass_entries-Chain fuel confirmed behind ss c.2 l.1 small (omega arith) in
                (
                  end,
                  back,
                  pass_entries-segment fuel confirmed pos s (omega arith) h c.0.0
                      ∙ ap₂
                          (λ (b : Bool) (p : ℕ).
                            pass_entries buffer_size fuel r count
                              (if b then confirmed else suc confirmed) p)
                          skip next
                      ∙ passed,
                  chain,
                  live,
                  rest ∙ ap (drop (count - confirmed)) (sym (entries-skipped s ss skip)),
                )
            | inr entry ↦
                let (end, back, passed, chain, live, rest) =
                  pass_entries-Chain fuel (suc confirmed) behind ss c.2 l.1 small (omega arith) in
                (
                  end,
                  back,
                  pass_entries-segment fuel confirmed pos s (omega arith) h c.0.0
                      ∙ ap₂
                          (λ (b : Bool) (p : ℕ).
                            pass_entries buffer_size fuel r count
                              (if b then confirmed else suc confirmed) p)
                          entry.0 next
                      ∙ passed,
                  chain,
                  live,
                  rest
                      ∙ ap₂ drop (one_less confirmed h) refl
                      ∙ sym (drop_one (count - confirmed) (one_left confirmed h) s ss entry.0),
                )
          ]
        ]
      where
        full : (n : ℕ) → (count ≤ n) ⊎ (n < count)
        full n = grind arith

        none_left : (n : ℕ) → count ≤ n → 0 ≡ count - n
        none_left n h = omega arith

        one_less : (n : ℕ) → n < count → count - suc n ≡ (count - n) - 1
        one_less n h = omega arith

        one_left : (n : ℕ) → n < count → 0 < count - n
        one_left n h = omega arith

        drop_one :
            (n : ℕ)
            → 0 < n
            → (t : Segment) (ts : List Segment) → is_skipped t.header ≡ false
            → drop n (entries (t ∷ ts)) ≡ drop (n - 1) (entries ts)
        drop_one zero h t ts e = absurd (omega arith)
        drop_one (suc n) h t ts e =
            let one_down : suc n - 1 ≡ n = omega arith in
            rw (entries-entry_first t ts e, one_down) refl

  -- On a ring whose log begins at the confirmed position, `ConfirmBatch` ends, and the log loses its
  -- first `count` entries.
  pub confirm_batch-IsLog :
      (r : Ring) (count : ℕ) (ss : List Segment)
      → IsLog buffer_size r r.confirmed_pos ss
      → r.write_pos < 2 ^ 64
      → (end : ℕ) × (back : List Segment) × (confirm_batch buffer_size (some r) count
          ≡ some (some (at_confirmed r end)))
        × IsLog buffer_size (at_confirmed r end) end back
        × (entries back ≡ drop count (entries ss))
  unfolding confirm_batch
  confirm_batch-IsLog r zero ss log small = (r.confirmed_pos, ss, refl, log, refl)
  confirm_batch-IsLog r (suc count) ss log small =
      let (end, back, passed, chain, live, rest) =
        pass_entries-Chain r (suc count) (suc (r.write_pos - r.confirmed_pos)) 0 r.confirmed_pos ss
          log.chain log.live small (omega arith) in
      let whole : suc count - 0 ≡ suc count = omega arith in
      let asked : (suc count == 0) ≡ false = ground arith in
      (
        end,
        back,
        rw (confirm_batch, asked, passed) refl,
        record { chain = chain; live = live; unconfirmed = omega arith; even = log.even },
        rest ∙ ap (λ (n : ℕ). drop n (entries ss)) whole,
      )
