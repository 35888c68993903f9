-- ===== src/Checkpoint/Layout.antt =====
-- src/zrtools/zrt_shm_checkpoint.h: the layout of the shared memory. A `State` is its bytes.
use zrtools.Prelude.{ℕ, Bool, List, bit_and, not, ◌==◌}

abbrev pub State : Type 0
State = List ℕ

abbrev pub magic_number : ℕ
magic_number = 0x43484B50

abbrev pub version_number : ℕ
version_number = 1

-- `std::atomic<uint64_t> seq` and `State data`.
pub record Slot : Type 0 where
  pub seq : ℕ
  pub data' : State

-- `active` is 0 or 1, the index of a slot.
pub data SlotId : Type 0 where
  slot_zero slot_one : SlotId

-- `1 - active`
abbrev pub other : SlotId → SlotId
other slot_zero = slot_one
other slot_one = slot_zero

pub record Header : Type 0 where
  pub magic : ℕ
  pub version : ℕ
  pub active : SlotId

-- What the mapped region holds: the header, then two slots.
pub record Shm : Type 0 where
  pub header : Header
  pub slot0 : Slot
  pub slot1 : Slot

abbrev pub slot_at : Shm → SlotId → Slot
slot_at m slot_zero = m.slot0
slot_at m slot_one = m.slot1

abbrev pub set_slot : Shm → SlotId → Slot → Shm
set_slot m slot_zero s = record m { slot0 = s }
set_slot m slot_one s = record m { slot1 = s }

abbrev pub set_active : Shm → SlotId → Shm
set_active m i = record m { header = record (m.header) { active = i } }

-- `if (seq & 1)`
abbrev pub is_odd : ℕ → Bool
is_odd seq = not (bit_and seq 1 == 0)
