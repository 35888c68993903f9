-- ===== src/Checkpoint/Undisturbed.antt =====
-- src/zrtools/zrt_shm_checkpoint.h: on a memory that nobody changes the steps of `Read` come to the
-- call as a whole.
use zrtools.Prelude.{ℕ, ◌-◌, ◌≤◌, ◌≡◌, Bool, length, take, true, false, none, some, Option}
use zrtools.Checkpoint.Layout.{State, SlotId, other, Shm, slot_at}
use zrtools.Checkpoint.Calls.{read_shm, try_read_slot, try_read, or_else}
use zrtools.Checkpoint.Steps.{Reader, start, loading, fetching, done}

module _ (size : ℕ) (m : Shm) (sized : (s : SlotId) → length (slot_at m s).data' ≡ size) where
  abbrev fallback : Bool → SlotId → Option State
  fallback true s = none
  fallback false s = try_read_slot (slot_at m (other s))

  -- What the reader is going to return.
  abbrev expected : Reader → Option State
  expected start = read_shm m
  expected (loading last s retry) = or_else (try_read (3 - retry) (slot_at m s)) (fallback last s)
  expected (fetching last s retry seq1 out) = some (slot_at m s).data'
  expected (done o) = o

  abbrev Agrees : Reader → Type 0
  Agrees start = Unit
  Agrees (loading last s retry) = retry ≤ 3
  Agrees (fetching last s retry seq1 out) =
      (seq1 ≡ (slot_at m s).seq)
      × (length out ≤ size)
      × (out ≡ take (length out) (slot_at m s).data')
  Agrees (done o) = Unit
