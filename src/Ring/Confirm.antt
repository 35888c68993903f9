-- ===== src/Ring/Confirm.antt =====
-- src/zrtools/zrt_shm_ring.h: `ShmRing::Confirm` and `ShmRing::ConfirmBatch`.
use zrtools.Prelude.{
  wrap64, ℕ, zero, suc, ◌+◌, ◌-◌, ◌%◌, ◌&&◌, Option, none, some, if◌then◌else◌, ◌==◌, ltb,
}
use zrtools.Wal.Entry.{load_header}
use zrtools.Ring.State.{Ring, Handle}
use zrtools.Ring.Append.{entry_size}
use zrtools.Ring.Read.{is_skipped}

module _ (buffer_size : ℕ) where
  -- The loop of `Confirm` from a position on: the position to store, if one is.
  unfoldable pub find_seq : ℕ → Ring → ℕ → ℕ → Option (Option ℕ)
  find_seq zero r seq pos = none
  find_seq (suc fuel) r seq pos =
      let h = load_header r.buffer (pos % buffer_size) in
      let next = wrap64 (pos + entry_size h.data_len) in
      let rest = find_seq fuel r seq next in
      if ltb pos r.write_pos
      then (if h.seq == seq then some (some next) else if ltb seq h.seq then some none else rest)
      else some none

  unfoldable pub confirm : Handle → ℕ → Option Handle
  confirm none seq = some none
  confirm (some r) seq =
      elim (find_seq (suc (r.write_pos - r.confirmed_pos)) r seq r.confirmed_pos) [
        | none ↦ none
        | some none ↦ some (some r)
        | some (some pos) ↦ some (some (record r { confirmed_pos = pos }))
      ]

  -- The loop of `ConfirmBatch`: the position after `count` entries.
  unfoldable pub pass_entries : ℕ → Ring → ℕ → ℕ → ℕ → Option ℕ
  pass_entries zero r count confirmed pos = none
  pass_entries (suc fuel) r count confirmed pos =
      let h = load_header r.buffer (pos % buffer_size) in
      let next = wrap64 (pos + entry_size h.data_len) in
      let rest =
        pass_entries fuel r count (if is_skipped h then confirmed else suc confirmed) next in
      if ltb pos r.write_pos && ltb confirmed count then rest else some pos

  unfoldable pub confirm_batch : Handle → ℕ → Option Handle
  confirm_batch none count = some none
  confirm_batch (some r) count =
      if count == 0
      then some (some r)
      else elim (pass_entries (suc (r.write_pos - r.confirmed_pos)) r count 0 r.confirmed_pos) [
        | none ↦ none
        | some pos ↦ some (some (record r { confirmed_pos = pos }))
      ]
