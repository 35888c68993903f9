-- ===== src/Checkpoint/Restart.antt =====
-- src/zrtools/zrt_shm_checkpoint.h: `Write` as the composition of its stores, and what it does after a
-- crash.
use zrtools.Prelude.{
  wrap64, ℕ, zero, suc, ◌+◌, ◌%◌, ◌^◌, ◌≤◌, ◌<◌, ◌≡◌, refl, ap, ◌∙◌, arith, length, set, get_or,
  none, some,
}
use zrtools.Prelude.Bits.{bit_and-low_mask}
use zrtools.Checkpoint.Layout.{
  State, Slot, SlotId, slot_zero, slot_one, other, Shm, slot_at, set_slot, set_active,
}
use zrtools.Checkpoint.Calls.{write_shm, read_shm, try_read_slot}
use zrtools.Checkpoint.Steps.{
  Writer, idle, begun, copying, finished, begin, writer_step, run_writer,
}
use zrtools.Checkpoint.Writer.{IsConsistent, writer_step-IsConsistent, IsPartial-full}
use zrtools.Checkpoint.Crash.{
  Anything, IsReadable, try_read_slot-IsReadable, IsCalm, read_after_crash, begin-IsConsistent,
}

module _ (size : ℕ) where
  -- The memory after the last store, from one with part of the state copied.
  abbrev stored : Shm → SlotId → ℕ → State → Shm
  stored m s old state =
      set_active (set_slot m s (record { seq = wrap64 (old + 2); data' = state })) s

  step_copying :
      (s : SlotId) (old : ℕ) (state : State) (i : ℕ) (m : Shm)
      → i < size
      → writer_step size (copying s old state i) m ≡ (
        copying s old state (i + 1),
        set_slot m s
            (record (slot_at m s) { data' = set (slot_at m s).data' i (get_or state i 0) }),
      )
  unfolding writer_step
  step_copying s old state i m h = ground arith

  step_last :
      (s : SlotId) (old : ℕ) (state : State) (m : Shm)
      → writer_step size (copying s old state size) m
        ≡ (finished s state, set_slot m s (record (slot_at m s) { seq = wrap64 (old + 2) }))
  unfolding writer_step
  step_last s old state m = ground arith

  step_finished :
      (s : SlotId) (state : State) (m : Shm)
      → writer_step size (finished s state) m ≡ (idle, set_active m s)
  unfolding writer_step
  step_finished s state m = refl

  set_slot-set_slot :
      (m : Shm) (s : SlotId) (a b : Slot) → set_slot (set_slot m s a) s b ≡ set_slot m s b
  set_slot-set_slot m slot_zero a b = refl
  set_slot-set_slot m slot_one a b = refl

  -- The memory after one more byte.
  abbrev copied_byte : Shm → SlotId → State → ℕ → Shm
  copied_byte m s state i =
      set_slot m s (record (slot_at m s) { data' = set (slot_at m s).data' i (get_or state i 0) })

  copied_byte-IsConsistent :
      (s : SlotId) (old : ℕ) (state : State) (i : ℕ) (m : Shm)
      → i < size
      → IsConsistent size (Anything size) (copying s old state i) m
      → IsConsistent size (Anything size) (copying s old state (i + 1)) (copied_byte m s state i)
  copied_byte-IsConsistent s old state i m h v =
      let kept = writer_step-IsConsistent size (Anything size) (copying s old state i) m v in
      rw (step_copying s old state i m h) at kept

  copy_loop :
      (k i : ℕ) (s : SlotId) (old : ℕ) (state : State) (m : Shm)
      → i + k ≡ size
      → IsConsistent size (Anything size) (copying s old state i) m
      → run_writer size (suc (suc k)) (copying s old state i) m ≡ (idle, stored m s old state)
  unfolding run_writer
  copy_loop zero i s old state m e v =
      let e' : i ≡ size = omega arith in
      let full = IsPartial-full size (Anything size) m s old state i v.1 e' in
      rw (e', step_last s old state m, step_finished) (rw full refl)
  copy_loop (suc k) i s old state m e v =
      let h : i < size = omega arith in
      rw (step_copying s old state i m h) (
        copy_loop k (i + 1) s old state (copied_byte m s state i) (omega arith)
          (copied_byte-IsConsistent s old state i m h v)
        ∙ ap (λ m'. (idle, set_active m' s)) (set_slot-set_slot m s _ _))

  write_shm-stored :
      (state : State) (m : Shm)
      → let s = other m.header.active in write_shm state m ≡ stored m s (slot_at m s).seq state
  unfolding write_shm
  write_shm-stored state m = ground arith

  step_begun :
      (s : SlotId) (old : ℕ) (state : State) (m : Shm)
      → writer_step size (begun s old state) m
        ≡ (copying s old state 0, set_slot m s (record (slot_at m s) { seq = wrap64 (old + 1) }))
  unfolding writer_step
  step_begun s old state m = refl

  run_writer-suc :
      (n : ℕ) (w : Writer) (m : Shm)
      → run_writer size (suc n) w m
        ≡ run_writer size n (writer_step size w m).0 (writer_step size w m).1
  unfolding run_writer
  run_writer-suc n w m = refl

  pub run_writer-write_shm :
      (state : State) (m : Shm)
      → IsCalm size m
      → length state ≡ size
      → run_writer size (size + 3) (begin state m) m ≡ (idle, write_shm state m)
  run_writer-write_shm state m c h =
      let s = other m.header.active in
      let old = (slot_at m s).seq in
      let kept =
        writer_step-IsConsistent size (Anything size) (begin state m) m
          (begin-IsConsistent size state m c h) in
      let count : size + 3 ≡ suc (suc (suc size)) = omega arith in
      rw (count, run_writer-suc, step_begun s old state m, write_shm-stored state m)
        (copy_loop size 0 s old state _ (omega arith) (rw (step_begun s old state m) at kept)
          ∙ ap (λ m'. (idle, set_active m' s)) (set_slot-set_slot m s _ _))

  -- `Read` returns what `Write` has just stored.
  pub read_shm-write_shm :
      (state : State) (m : Shm)
      → IsCalm size m
      → length state ≡ size
      → read_shm (write_shm state m) ≡ some state
  read_shm-write_shm state m c h =
      ground (arith, read_after_crash size (size + 3) state m c h, run_writer-write_shm state m c h)

  -- `k` more bytes copied.
  copying_on :
      (k i : ℕ) (s : SlotId) (old : ℕ) (state : State) (m : Shm)
      → IsConsistent size (Anything size) (copying s old state i) m
      → i + k ≤ size
      → let m' = (run_writer size k (copying s old state i) m).1 in
        (m'.header.active ≡ m.header.active)
        × (slot_at m' (other s) ≡ slot_at m (other s))
        × ((slot_at m' s).seq ≡ (slot_at m s).seq)
  unfolding run_writer
  copying_on zero i s old state m v h = (refl, refl, refl)
  copying_on (suc k) i slot_zero old state m v h =
      rw (run_writer, step_copying slot_zero old state i m (omega arith))
        (copying_on k (i + 1) slot_zero old state (copied_byte m slot_zero state i)
          (copied_byte-IsConsistent slot_zero old state i m (omega arith) v) (omega arith))
  copying_on (suc k) i slot_one old state m v h =
      rw (run_writer, step_copying slot_one old state i m (omega arith))
        (copying_on k (i + 1) slot_one old state (copied_byte m slot_one state i)
          (copied_byte-IsConsistent slot_one old state i m (omega arith) v) (omega arith))

  try_read_slot-odd : (slot : Slot) → slot.seq % 2 ≡ 1 → try_read_slot slot ≡ none
  unfolding try_read_slot
  try_read_slot-odd slot h = ground (arith, bit_and-low_mask 1 slot.seq)

  -- A slot whose number is odd is passed over, whatever else is written.
  read_shm-odd :
      (m : Shm) (state : State)
      → (slot_at m (other m.header.active)).seq % 2 ≡ 1
      → (slot_at m (other m.header.active)).seq + 2 < 2 ^ 64
      → IsReadable size (slot_at m m.header.active)
      → read_shm (write_shm state m) ≡ some (slot_at m m.header.active).data'
  unfolding read_shm
  read_shm-odd m state odd room r =
      let s = other m.header.active in
      let slot : Slot = record { seq = wrap64 ((slot_at m s).seq + 2); data' = state } in
      ground (
        arith,
        write_shm-stored state m,
        try_read_slot-odd slot,
        try_read_slot-IsReadable size (slot_at m m.header.active) r,
      )

  leftover-unseen :
      (m left : Shm) (state : State)
      → IsCalm size m
      → left.header.active ≡ m.header.active
      → slot_at left m.header.active ≡ slot_at m m.header.active
      → (slot_at left (other m.header.active)).seq ≡ (slot_at m (other m.header.active)).seq + 1
      → read_shm (write_shm state left) ≡ some (slot_at m m.header.active).data'
  leftover-unseen m left state c a e o = ground (arith, read_shm-odd left state, even)
    where
      even : (slot_at m (other m.header.active)).seq % 2 ≡ 0
      even = ground (arith, c.settled0.even, c.settled1.even)

  set_slot-frame :
      (m : Shm) (a : SlotId) (slot : Slot)
      → let m' = set_slot m (other a) slot in
        (m'.header.active ≡ m.header.active)
        × (slot_at m' (other (other a)) ≡ slot_at m a)
        × (slot_at m' (other a) ≡ slot)
  set_slot-frame m slot_zero slot = (refl, refl, refl)
  set_slot-frame m slot_one slot = (refl, refl, refl)

  other-other : (a : SlotId) → other (other a) ≡ a
  other-other slot_zero = refl
  other-other slot_one = refl

  -- A writer that dies while it copies `lost` leaves an odd number in the slot. The next `Write`
  -- on that memory makes it even while it copies, and odd when it is done: `Read` does not see
  -- the state that was written, and returns the checkpoint before the crash.
  pub write_after_crash_unseen :
      (n : ℕ) (lost state : State) (m : Shm)
      → IsCalm size m
      → length lost ≡ size
      → 0 < n
      → n < size + 2
      → read_shm (write_shm state (run_writer size n (begin lost m) m).1)
        ≡ some (slot_at m m.header.active).data'
  write_after_crash_unseen zero lost state m c h pos lt = absurd (omega arith)
  write_after_crash_unseen (suc k) lost state m c h pos lt =
      let s = other m.header.active in
      let old = (slot_at m s).seq in
      let kept =
        writer_step-IsConsistent size (Anything size) (begin lost m) m
          (begin-IsConsistent size lost m c h) in
      let m1 = set_slot m s (record (slot_at m s) { seq = wrap64 (old + 1) }) in
      let left =
        copying_on k 0 s old lost m1 (rw (step_begun s old lost m) at kept) (omega arith) in
      rw (run_writer-suc, step_begun s old lost m)
        (ground (
          arith,
          left,
          other-other m.header.active,
          set_slot-frame m m.header.active (record (slot_at m s) { seq = wrap64 (old + 1) }),
          leftover-unseen m (run_writer size k (copying s old lost 0) m1).1 state c,
        ))
