-- ===== src/Checkpoint/Steps.antt =====
-- src/zrtools/zrt_shm_checkpoint.h: `Write` and `Read` as sequences of atomic loads and stores, where
-- memcpy moves one byte at a time, and the interleavings of one writer with a reader. Memory is
-- sequentially consistent. A reader writes nothing, so several readers are this reader each.
use zrtools.Prelude.{
  wrap64, ℕ, zero, suc, ◌+◌, ◌^◌, ◌<◌, ◌≡◌, Bool, true, false, List, [], ◌∷◌, ◌++◌, Option, none,
  some, if◌then◌else◌, ◌==◌, length, get_or, set,
}
use zrtools.Checkpoint.Layout.{State, SlotId, other, Shm, slot_at, set_slot, set_active, is_odd}

-- Where the writer stands in `Write(state)`, with what its variables hold.
pub data Writer : Type 0 where
  idle : Writer
  -- `old_seq` is loaded.
  begun : SlotId → ℕ → State → Writer
  -- The odd number is stored, and this many bytes are copied.
  copying : SlotId → ℕ → State → ℕ → Writer
  -- The even number is stored.
  finished : SlotId → State → Writer

-- Where the reader stands in `Read`: the flag tells the second call of `TryReadSlot`, the number
-- is `retry`.
pub data Reader : Type 0 where
  start : Reader
  loading : Bool → SlotId → ℕ → Reader
  -- `seq1` is loaded, and these bytes are in `out`.
  fetching : Bool → SlotId → ℕ → ℕ → State → Reader
  done : Option State → Reader

-- The loads before the first store. Only the writer stores, so they count as one step.
abbrev pub begin : State → Shm → Writer
begin state m = begun (other m.header.active) (slot_at m (other m.header.active)).seq state

-- `TryReadSlot` returned false.
abbrev pub give_up : Bool → SlotId → Reader
give_up false s = loading true (other s) 0
give_up true s = done none

pub record Config : Type 0 where
  pub shm : Shm
  pub writer : Writer
  pub reader : Reader

module _ (size : ℕ) where
  unfoldable pub writer_step : Writer → Shm → Writer × Shm
  writer_step idle m = (idle, m)
  writer_step (begun s old state) m =
      (copying s old state 0, set_slot m s (record (slot_at m s) { seq = wrap64 (old + 1) }))
  writer_step (copying s old state i) m =
      if i == size
      then (finished s state, set_slot m s (record (slot_at m s) { seq = wrap64 (old + 2) }))
      else (
        copying s old state (i + 1),
        set_slot m s
            (record (slot_at m s) { data' = set (slot_at m s).data' i (get_or state i 0) }),
      )
  writer_step (finished s state) m = (idle, set_active m s)

  unfoldable pub run_writer : ℕ → Writer → Shm → Writer × Shm
  run_writer zero w m = (w, m)
  run_writer (suc n) w m = let (w', m') = writer_step w m in run_writer n w' m'

  unfoldable pub reader_step : Reader → Shm → Reader
  reader_step start m = loading false m.header.active 0
  reader_step (loading last s retry) m =
      if retry == 3
      then give_up last s
      else (if is_odd (slot_at m s).seq
          then loading last s (retry + 1)
          else (if (slot_at m s).seq == 0
              then give_up last s
              else fetching last s retry (slot_at m s).seq []))
  reader_step (fetching last s retry seq1 out) m =
      if length out == size
      then (if seq1 == (slot_at m s).seq then done (some out) else loading last s (retry + 1))
      else fetching last s retry seq1 (out ++ (get_or (slot_at m s).data' (length out) 0 ∷ []))
  reader_step (done r) m = done r

  -- The reader's steps, each on the memory that it finds.
  unfoldable pub run_reader : List Shm → Reader → Reader
  unfolding reader_step
  run_reader [] r = r
  run_reader (m ∷ ms) r = run_reader ms (reader_step r m)

  -- One step of either side. A write begins with a state that has the property `P`, and while the
  -- slot's number is below the last two of 64 bits.
  pub data Step (P : State → Type 0) : Config → Config → Type 0 where
    starts :
        (c : Config) (state : State)
        → c.writer ≡ idle
        → P state
        → length state ≡ size
        → (slot_at c.shm (other c.shm.header.active)).seq + 2 < 2 ^ 64
        → Step P c (record c { writer = begin state c.shm })
    writes :
        (c : Config)
        → Step P c (record c {
          writer = (writer_step c.writer c.shm).0;
          shm = (writer_step c.writer c.shm).1;
        })
    reads : (c : Config) → Step P c (record c { reader = reader_step c.reader c.shm })
    reads_again :
        (c : Config) (r : Option State) → c.reader ≡ done r → Step P c (record c { reader = start })

  pub data Reach (P : State → Type 0) (c : Config) : Config → Type 0 where
    here : Reach P c c
    next : {d e : Config} → Reach P c d → Step P d e → Reach P c e
