-- ===== src/Ring/State.antt =====
-- src/zrtools/zrt_shm_ring.h: `ShmRing`, the header in shared memory and the bytes behind it. Offsets
-- count from `buffer_`; a byte outside the mapping reads as an unknown number.
use zrtools.Prelude.{sub64, ℕ, Bool, true, false, Option, none, some, if◌then◌else◌, ◌==◌, ltb}
use zrtools.Wal.Memory.{Memory}

abbrev pub magic_number : ℕ
magic_number = 0x5A525752

abbrev pub version_number : ℕ
version_number = 1

-- `ShmRingHeader`, and the buffer.
pub record Ring : Type 0 where
  pub magic : ℕ
  pub version : ℕ
  pub size : ℕ
  pub write_pos : ℕ
  pub read_pos : ℕ
  pub confirmed_pos : ℕ
  pub next_seq : ℕ
  pub total_entries : ℕ
  pub total_bytes : ℕ
  pub wrap_count : ℕ
  pub buffer : Memory

-- `Reset` of a ring whose template argument is `buffer_size`.
unfoldable pub reset_ring : ℕ → Ring → Ring
reset_ring buffer_size r = record {
  magic = magic_number;
  version = version_number;
  size = buffer_size;
  write_pos = 0;
  read_pos = 0;
  confirmed_pos = 0;
  next_seq = 1;
  total_entries = 0;
  total_bytes = 0;
  wrap_count = 0;
  buffer = λ i. if ltb i buffer_size then 0 else r.buffer i;
}

-- `Initialize` on a mapped region, with `is_new`: a region of another kind is reset.
unfoldable pub initialize : ℕ → Bool → Ring → Ring
initialize buffer_size is_new r =
    if is_new
    then reset_ring buffer_size r
    else if r.magic == magic_number
    then r
    else reset_ring buffer_size r

-- A `ShmRing` whose mapping failed has null pointers, and `IsValid` is false.
abbrev pub Handle : Type 0
Handle = Option Ring

unfoldable pub is_valid : Handle → Bool
is_valid none = false
is_valid (some r) = true

unfoldable pub reset : ℕ → Handle → Handle
reset buffer_size none = none
reset buffer_size (some r) = some (reset_ring buffer_size r)

-- `GetWritePos` and the other getters.
unfoldable pub get_or_zero : (Ring → ℕ) → Handle → ℕ
get_or_zero field none = 0
get_or_zero field (some r) = field r

unfoldable pub get_unconfirmed_bytes : Handle → ℕ
get_unconfirmed_bytes none = 0
get_unconfirmed_bytes (some r) = sub64 r.write_pos r.confirmed_pos
