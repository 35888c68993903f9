-- ===== src/Ring/Append.antt =====
-- src/zrtools/zrt_shm_ring.h: `ShmRing::Append`. The clock gives a reading for each number that the call
-- takes from `next_seq`.
use zrtools.Prelude.{
  wrap64, sub64, ℕ, zero, suc, ◌+◌, ◌-◌, ◌%◌, ◌^◌, List, Option, none, some, if◌then◌else◌, ltb,
  leb,
}
use zrtools.Wal.Memory.{Memory}
use zrtools.Wal.Entry.{
  header_size, set_seq, set_timestamp_ns, set_type, set_data_len, set_crc32, write_entry, align_up,
}
use zrtools.Ring.State.{Ring, Handle}

-- `AlignUp(sizeof(WalEntryHeader) + len, 8)`.
abbrev pub entry_size : ℕ → ℕ
entry_size len = align_up (header_size + len) 8

-- `next_seq.fetch_add(1)`.
abbrev pub take_seq : Ring → Ring
take_seq r = record r { next_seq = wrap64 (r.next_seq + 1) }

-- The header of a skipped area of `remaining` bytes, where it has room for one.
unfoldable pub write_skip : Memory → ℕ → ℕ → Memory
write_skip mem at remaining =
    let named = set_type (set_timestamp_ns (set_seq mem at 0) at 0) at 0 in
    if leb header_size remaining
    then set_crc32 (set_data_len named at ((remaining - header_size) % 2 ^ 16)) at 0
    else mem

-- To the start of the buffer, over the bytes that are left.
unfoldable pub wrap_around : ℕ → Ring → Ring
wrap_around buffer_size r =
    let at = r.write_pos % buffer_size in
    let remaining = buffer_size - at in
    record r {
      buffer = write_skip r.buffer at remaining;
      write_pos = wrap64 (r.write_pos + remaining);
      wrap_count = wrap64 (r.wrap_count + 1);
    }

-- The stores of an entry that does not cross the end.
unfoldable pub put_entry : ℕ → Ring → ℕ → ℕ → ℕ → Option (List ℕ) → ℕ → Ring
put_entry buffer_size r seq timestamp_ns type content len =
    let size = entry_size len in
    record r {
      buffer = write_entry r.buffer (r.write_pos % buffer_size) seq timestamp_ns type content len;
      write_pos = wrap64 (r.write_pos + size);
      total_entries = wrap64 (r.total_entries + 1);
      total_bytes = wrap64 (r.total_bytes + size);
    }

module _ (buffer_size max_entry_size : ℕ) (now : ℕ → ℕ) where
  -- One call on a valid ring; the fuel counts the calls of itself.
  unfoldable pub append_from : ℕ → Ring → ℕ → Option (List ℕ) → ℕ → Option (ℕ × Ring)
  append_from zero r type content len = none
  append_from (suc fuel) r type content len =
      let size = entry_size len in
      let seq = r.next_seq in
      let again = append_from fuel (wrap_around buffer_size (take_seq r)) type content len in
      if ltb max_entry_size size
      then some (0, r)
      else if ltb buffer_size (wrap64 (sub64 r.write_pos r.confirmed_pos + size))
      then some (0, r)
      else if ltb buffer_size (r.write_pos % buffer_size + size)
      then again
      else some (seq, put_entry buffer_size (take_seq r) seq (now seq) type content len)

  -- `Append`: 2 calls are enough.
  unfoldable pub append : Handle → ℕ → Option (List ℕ) → ℕ → Option (ℕ × Handle)
  append none type content len = some (0, none)
  append (some r) type content len = elim (append_from 2 r type content len) [
    | none ↦ none
    | some (seq, r') ↦ some (seq, some r')
  ]
