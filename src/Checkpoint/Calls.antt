-- ===== src/Checkpoint/Calls.antt =====
-- src/zrtools/zrt_shm_checkpoint.h: the public calls of `ShmCheckpoint` and `ShmCheckpointReader`.
use zrtools.Prelude.{wrap64, ℕ, zero, suc, ◌+◌, Option, none, some, if◌then◌else◌, ◌==◌}
use zrtools.Checkpoint.Layout.{
  State, Slot, SlotId, slot_zero, other, Shm, slot_at, set_slot, set_active, is_odd, magic_number,
  version_number,
}

-- The object: `none` where `header_` and `slots_` are null.
abbrev pub Checkpoint : Type 0
Checkpoint = Option Shm

-- `Write` on a mapped region.
unfoldable pub write_shm : State → Shm → Shm
write_shm state m = set_active written write_slot
  where
    write_slot : SlotId
    write_slot = other m.header.active

    old_seq : ℕ
    old_seq = (slot_at m write_slot).seq

    started : Shm
    started = set_slot m write_slot (record (slot_at m write_slot) { seq = wrap64 (old_seq + 1) })

    copied : Shm
    copied = set_slot started write_slot (record (slot_at started write_slot) { data' = state })

    written : Shm
    written =
        set_slot copied write_slot
          (record (slot_at copied write_slot) { seq = wrap64 (old_seq + 2) })

-- `Write`
unfoldable pub write : State → Checkpoint → Checkpoint
unfolding write_shm
write state none = none
write state (some m) = some (write_shm state m)

-- The loop of `TryReadSlot`, with the rounds that are left. Both loads of `seq` see the same value.
unfoldable pub try_read : ℕ → Slot → Option State
try_read zero slot = none
try_read (suc rounds) slot =
    let next = try_read rounds slot in
    if is_odd slot.seq
    then next
    else (if slot.seq == 0 then none else (if slot.seq == slot.seq then some slot.data' else next))

-- `TryReadSlot`
unfoldable pub try_read_slot : Slot → Option State
unfolding try_read
try_read_slot slot = try_read 3 slot

abbrev pub or_else : Option State → Option State → Option State
or_else (some s) _ = some s
or_else none r = r

-- `Read` on a mapped region.
unfoldable pub read_shm : Shm → Option State
unfolding try_read_slot
read_shm m =
    or_else (try_read_slot (slot_at m m.header.active))
      (try_read_slot (slot_at m (other m.header.active)))

-- `Read`: `none` for a result of false.
unfoldable pub read : Checkpoint → Option State
unfolding read_shm
read none = none
read (some m) = read_shm m

-- `GetVersion`
unfoldable pub get_version : Checkpoint → ℕ
get_version none = 0
get_version (some m) = (slot_at m m.header.active).seq

-- `Reset`, where `blank` is `State{}`.
unfoldable pub reset_shm : State → Shm → Shm
reset_shm blank m = record {
  header = record { magic = magic_number; version = version_number; active = slot_zero };
  slot0 = record { seq = 0; data' = blank };
  slot1 = record { seq = 0; data' = blank };
}

unfoldable pub reset : State → Checkpoint → Checkpoint
unfolding reset_shm
reset blank none = none
reset blank (some m) = some (reset_shm blank m)

-- What the calls of boost::interprocess in `Initialize` come to: an exception, a region that was
-- created with whatever it holds, or one that was there.
pub data Mapping : Type 0 where
  failed : Mapping
  created : Shm → Mapping
  opened : Shm → Mapping

-- `ShmCheckpoint::Initialize`
unfoldable pub initialize : State → Mapping → Checkpoint
unfolding reset_shm
initialize blank failed = none
initialize blank (created m) = some (reset_shm blank m)
initialize blank (opened m) =
    if m.header.magic == magic_number then some m else some (reset_shm blank m)

-- `ShmCheckpointReader::Initialize`, which creates nothing.
unfoldable pub initialize_reader : Mapping → Checkpoint
initialize_reader failed = none
initialize_reader (created m) = none
initialize_reader (opened m) = if m.header.magic == magic_number then some m else none
