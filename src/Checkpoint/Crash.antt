-- ===== src/Checkpoint/Crash.antt =====
-- src/zrtools/zrt_shm_checkpoint.h: a writer that dies between two stores of `Write`.
use zrtools.Prelude.{
  ℕ, zero, suc, ◌+◌, ◌-◌, ◌%◌, ◌^◌, ◌<◌, ◌≡◌, refl, ◌≢◌, arith, if◌then◌else◌, ltb, length, some,
}
use zrtools.Prelude.Bits.{bit_and-low_mask}
use zrtools.Checkpoint.Layout.{State, Slot, slot_zero, slot_one, other, Shm, slot_at}
use zrtools.Checkpoint.Calls.{read_shm, try_read_slot}
use zrtools.Checkpoint.Steps.{
  Writer, idle, begun, copying, finished, begin, writer_step, run_writer,
}
use zrtools.Checkpoint.Writer.{IsSettled, IsConsistent, writer_step-IsConsistent}

module _ (size : ℕ) where
  abbrev pub Anything : State → Type 0
  Anything s = Unit

  -- The atomic steps that a write has left.
  abbrev pub remaining : Writer → ℕ
  remaining idle = 0
  remaining (begun s old state) = size + 3
  remaining (copying s old state i) = size - i + 2
  remaining (finished s state) = 1

  -- What a reader gets after the last of them.
  abbrev pub outcome : Writer → Shm → State
  outcome idle m = (slot_at m m.header.active).data'
  outcome (begun s old state) m = state
  outcome (copying s old state i) m = state
  outcome (finished s state) m = state

  -- A reader finds the active slot readable.
  abbrev pub IsReadable : Slot → Type 0
  IsReadable s = (s.seq % 2 ≡ 0) × (s.seq ≢ 0)

  pub try_read_slot-IsReadable : (s : Slot) → IsReadable s → try_read_slot s ≡ some s.data'
  unfolding try_read_slot
  try_read_slot-IsReadable s r = ground (arith, bit_and-low_mask 1 s.seq)

  pub read_shm-active :
      (m : Shm)
      → IsReadable (slot_at m m.header.active)
      → read_shm m ≡ some (slot_at m m.header.active).data'
  unfolding read_shm
  read_shm-active m r = rw (try_read_slot-IsReadable (slot_at m m.header.active) r)

  -- Until the last store the active slot stays the active slot, untouched.
  pub active_untouched :
      (w : Writer) (m : Shm)
      → IsConsistent size Anything w m
      → 1 < remaining w
      → ((writer_step size w m).1.header.active ≡ m.header.active)
        × (slot_at (writer_step size w m).1 m.header.active ≡ slot_at m m.header.active)
  unfolding writer_step
  active_untouched idle m v h = absurd (omega arith)
  active_untouched (begun slot_zero old state) m v h = ground arith
  active_untouched (begun slot_one old state) m v h = ground arith
  active_untouched (copying slot_zero old state i) m v h = ground arith
  active_untouched (copying slot_one old state i) m v h = ground arith
  active_untouched (finished s state) m v h = absurd (omega arith)

  -- Each step uses up one, and the outcome stays.
  step_uses_one :
      (w : Writer) (m : Shm)
      → IsConsistent size Anything w m
      → let (w', m') = writer_step size w m in
        (remaining w' ≡ remaining w - 1) × (outcome w' m' ≡ outcome w m)
  unfolding writer_step
  step_uses_one idle m v = (refl, refl)
  step_uses_one (begun s old state) m v = ground arith
  step_uses_one (copying s old state i) m v = ground arith
  step_uses_one (finished slot_zero state) m v = ground arith
  step_uses_one (finished slot_one state) m v = ground arith

  -- After a step the active slot is readable, with what it held or with the outcome.
  step-IsReadable :
      (w : Writer) (m : Shm)
      → IsConsistent size Anything w m
      → IsReadable (slot_at m m.header.active)
      → let m' = (writer_step size w m).1 in
        IsReadable (slot_at m' m'.header.active)
        × ((slot_at m' m'.header.active).data'
            ≡ (if ltb 1 (remaining w) then (slot_at m m.header.active).data' else outcome w m))
  unfolding writer_step
  step-IsReadable idle m v r = (r, refl)
  step-IsReadable (begun slot_zero old state) m v r = ground arith
  step-IsReadable (begun slot_one old state) m v r = ground arith
  step-IsReadable (copying slot_zero old state i) m v r = ground arith
  step-IsReadable (copying slot_one old state i) m v r = ground arith
  step-IsReadable (finished slot_zero state) m v r = ((v.0.even, v.4), v.3)
  step-IsReadable (finished slot_one state) m v r = ((v.1.even, v.4), v.3)

  pub read-run_writer :
      (n : ℕ) (w : Writer) (m : Shm)
      → IsConsistent size Anything w m
      → IsReadable (slot_at m m.header.active)
      → read_shm (run_writer size n w m).1 ≡ (
          if ltb n (remaining w)
          then some (slot_at m m.header.active).data'
          else some (outcome w m))
  unfolding run_writer
  read-run_writer zero idle m v r = read_shm-active m r
  read-run_writer zero w m v r = ground (arith, read_shm-active m r)
  read-run_writer (suc n) w m v r =
      let (w', m') = writer_step size w m in
      ground (
        arith,
        step_uses_one w m v,
        step-IsReadable w m v r,
        read-run_writer n w' m' (writer_step-IsConsistent size Anything w m v)
            (step-IsReadable w m v r).0,
      )

  -- What a write counts on: both slots are whole, and the active one has been written.
  pub record IsCalm (m : Shm) : Type 0 where
    pub settled0 : IsSettled size Anything m.slot0
    pub settled1 : IsSettled size Anything m.slot1
    pub readable : IsReadable (slot_at m m.header.active)
    pub room : (slot_at m (other m.header.active)).seq + 2 < 2 ^ 64

  pub begin-IsConsistent :
      (state : State) (m : Shm)
      → IsCalm m
      → length state ≡ size
      → IsConsistent size Anything (begin state m) m
  begin-IsConsistent state m c h = (
    c.settled0,
    c.settled1,
    record { target = refl; number = refl; room = c.room; written = tt; fits = h },
  )

  -- A writer that stops for good after any number of the stores of `Write(state)` leaves a memory
  -- in which `Read` succeeds: with the checkpoint before, as long as the last store is missing,
  -- and with `state` from there on. Both slots are whole before, the active one has been written,
  -- and the number of the other does not wrap.
  pub read_after_crash :
      (n : ℕ) (state : State) (m : Shm)
      → IsCalm m
      → length state ≡ size
      → read_shm (run_writer size n (begin state m) m).1
        ≡ (if ltb n (size + 3) then some (slot_at m m.header.active).data' else some state)
  read_after_crash n state m c h =
      read-run_writer n (begin state m) m (begin-IsConsistent state m c h) c.readable
