-- ===== src/Checkpoint/Writer.antt =====
-- src/zrtools/zrt_shm_checkpoint.h: what holds between any two stores of `Write`.
use zrtools.Prelude.{
  wrap64, ℕ, ◌+◌, ◌%◌, ◌^◌, ◌≤◌, ◌<◌, ◌≡◌, ◌≢◌, arith, length, take, get_or, set, length-set,
  take_copied, eq_of_take,
}
use zrtools.Checkpoint.Layout.{State, Slot, SlotId, slot_zero, slot_one, other, Shm, slot_at}
use zrtools.Checkpoint.Steps.{Writer, idle, begun, copying, finished, writer_step}

module _ (size : ℕ) (P : State → Type 0) where
  -- A slot that nobody is writing.
  pub record IsSettled (s : Slot) : Type 0 where
    pub even : s.seq % 2 ≡ 0
    pub small : s.seq < 2 ^ 64
    pub sized : length s.data' ≡ size
    pub whole : s.seq ≢ 0 → P s.data'

  -- What `Write(state)` may count on before it begins on slot `s`.
  pub record IsReady (m : Shm) (s : SlotId) (old : ℕ) (state : State) : Type 0 where
    pub target : s ≡ other m.header.active
    pub number : (slot_at m s).seq ≡ old
    pub room : old + 2 < 2 ^ 64
    pub written : P state
    pub fits : length state ≡ size

  -- Slot `s` while `i` bytes of `state` are in it.
  pub record IsPartial (m : Shm) (s : SlotId) (old : ℕ) (state : State) (i : ℕ) : Type 0 where
    pub target : s ≡ other m.header.active
    pub number : (slot_at m s).seq ≡ old + 1
    pub even : old % 2 ≡ 0
    pub room : old + 2 < 2 ^ 64
    pub written : P state
    pub fits : length state ≡ size
    pub sized : length (slot_at m s).data' ≡ size
    pub within : i ≤ size
    pub prefix : take i (slot_at m s).data' ≡ take i state

  abbrev pub IsConsistent : Writer → Shm → Type 0
  IsConsistent idle m = IsSettled m.slot0 × IsSettled m.slot1
  IsConsistent (begun s old state) m = IsSettled m.slot0 × IsSettled m.slot1 × IsReady m s old state
  IsConsistent (copying s old state i) m =
      IsSettled (slot_at m (other s)) × IsPartial m s old state i
  IsConsistent (finished s state) m =
      IsSettled m.slot0
      × IsSettled m.slot1
      × (s ≡ other m.header.active)
      × ((slot_at m s).data' ≡ state)
      × ((slot_at m s).seq ≢ 0)

  -- The last byte is in: storing the even number settles the slot.
  pub IsPartial-full :
      (m : Shm) (s : SlotId) (old : ℕ) (state : State) (i : ℕ)
      → IsPartial m s old state i
      → i ≡ size
      → (slot_at m s).data' ≡ state
  IsPartial-full m s old state i p e =
      eq_of_take (slot_at m s).data' state i (omega arith) (omega arith) p.prefix

  full-IsSettled :
      (m : Shm) (s : SlotId) (old : ℕ) (state : State) (i : ℕ)
      → IsPartial m s old state i
      → i ≡ size
      → IsSettled (record (slot_at m s) { seq = wrap64 (old + 2) })
  full-IsSettled m s old state i p e = record {
    even = omega arith;
    small = omega arith;
    sized = p.sized;
    whole = λ _. rw (IsPartial-full m s old state i p e) p.written;
  }

  copied_prefix :
      (m : Shm) (s : SlotId) (old : ℕ) (state : State) (i : ℕ)
      → IsPartial m s old state i
      → i ≢ size
      → take (i + 1) (set (slot_at m s).data' i (get_or state i 0)) ≡ take (i + 1) state
  copied_prefix m s old state i p ne =
      take_copied (slot_at m s).data' state i 0 (omega arith) (omega arith) p.prefix

  pub writer_step-IsConsistent :
      (w : Writer) (m : Shm)
      → IsConsistent w m
      → IsConsistent (writer_step size w m).0 (writer_step size w m).1
  unfolding writer_step
  writer_step-IsConsistent idle m v = v
  writer_step-IsConsistent (begun slot_zero old state) m v = ground arith
  writer_step-IsConsistent (begun slot_one old state) m v = ground arith
  writer_step-IsConsistent (copying slot_zero old state i) m v = ground (
    arith,
    full-IsSettled m slot_zero old state i v.1,
    IsPartial-full m slot_zero old state i v.1,
    copied_prefix m slot_zero old state i v.1,
    length-set m.slot0.data' i (get_or state i 0),
  )
  writer_step-IsConsistent (copying slot_one old state i) m v = ground (
    arith,
    full-IsSettled m slot_one old state i v.1,
    IsPartial-full m slot_one old state i v.1,
    copied_prefix m slot_one old state i v.1,
    length-set m.slot1.data' i (get_or state i 0),
  )
  writer_step-IsConsistent (finished s state) m v = ground arith
