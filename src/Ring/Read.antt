-- ===== src/Ring/Read.antt =====
-- src/zrtools/zrt_shm_ring.h: `ShmRing::ReadNext` and `ShmRing::ReadUnconfirmed`.
use zrtools.Prelude.{
  wrap64, ℕ, zero, suc, ◌+◌, ◌-◌, ◌%◌, Bool, ◌||◌, ◌&&◌, not, List, [], ◌∷◌, ◌++◌, Option, none,
  some, if◌then◌else◌, ◌==◌, ltb, leb, min, length,
}
use zrtools.Wal.Memory.{load_bytes}
use zrtools.Wal.Entry.{header_size, Header, load_header, validate_crc, entry_data}
use zrtools.Ring.State.{Ring, Handle}
use zrtools.Ring.Append.{entry_size}

-- A number or a type that is zero marks bytes that hold no entry.
abbrev pub is_skipped : Header → Bool
is_skipped h = (h.seq == 0) || (h.type == 0)

-- The bytes copied to the caller's buffer of `max_len` bytes, which may be null.
unfoldable pub copied_data : Ring → ℕ → Header → Bool → ℕ → List ℕ
copied_data r at h is_null max_len =
    if not is_null && ltb 0 h.data_len
    then load_bytes r.buffer (at + header_size) (min h.data_len max_len)
    else []

module _ (buffer_size : ℕ) where
  abbrev pub advance_read : Ring → ℕ → Ring
  advance_read r size = record r { read_pos = wrap64 (r.read_pos + size) }

  -- On a valid ring; the fuel counts the calls of itself. The inner `none` is false.
  unfoldable pub read_from : ℕ → Ring → Bool → ℕ → Option (Option (Header × List ℕ) × Ring)
  read_from zero r is_null max_len = none
  read_from (suc fuel) r is_null max_len =
      let at = r.read_pos % buffer_size in
      let h = load_header r.buffer at in
      let next = advance_read r (entry_size h.data_len) in
      let again = read_from fuel next is_null max_len in
      if leb r.write_pos r.read_pos
      then some (none, r)
      else if is_skipped h
      then again
      else if not (validate_crc r.buffer at)
      then again
      else some (some (h, copied_data r at h is_null max_len), next)

  -- `ReadNext`: each call of itself passes a header at least.
  unfoldable pub read_next : Handle → Bool → ℕ → Option (Option (Header × List ℕ) × Handle)
  read_next none is_null max_len = some (none, none)
  read_next (some r) is_null max_len =
      elim (read_from (suc (r.write_pos - r.read_pos)) r is_null max_len) [
        | none ↦ none
        | some (found, r') ↦ some (found, some r')
      ]

  -- The loop of `ReadUnconfirmed` from a position on, with the entries so far.
  unfoldable pub collect :
      ℕ → Ring → ℕ → ℕ → List (Header × List ℕ) → Option (List (Header × List ℕ))
  collect zero r pos max_count entries = none
  collect (suc fuel) r pos max_count entries =
      let at = pos % buffer_size in
      let h = load_header r.buffer at in
      let next = wrap64 (pos + entry_size h.data_len) in
      let kept = entries ++ ((h, entry_data r.buffer at) ∷ []) in
      let entries' =
        if is_skipped h
        then entries
        else if not (validate_crc r.buffer at)
        then entries
        else kept in
      let rest = collect fuel r next max_count entries' in
      if ltb pos r.write_pos && ltb (length entries) max_count then rest else some entries

  -- `ReadUnconfirmed`: the vector afterwards, and its size. A ring that is not valid leaves the vector.
  unfoldable pub read_unconfirmed :
      Handle → List (Header × List ℕ) → ℕ → Option (ℕ × List (Header × List ℕ))
  read_unconfirmed none entries max_count = some (0, entries)
  read_unconfirmed (some r) entries max_count =
      elim (collect (suc (r.write_pos - r.confirmed_pos)) r r.confirmed_pos max_count []) [
        | none ↦ none
        | some found ↦ some (length found, found)
      ]
