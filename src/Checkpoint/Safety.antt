-- ===== src/Checkpoint/Safety.antt =====
-- src/zrtools/zrt_shm_checkpoint.h: `Read` while `Write` runs. No read mixes two states.
use zrtools.Prelude.{
  ℕ, ◌+◌, ◌%◌, ◌^◌, ◌≤◌, ◌<◌, ◌≡◌, refl, ap, ◌≢◌, ◌∙◌, arith, ◌==◌, sym, subst, Bool-cases, inl,
  inr, length, length-append, take, get_or, take-suc, take-length, none, some, [], ◌∷◌, ◌++◌,
}
use native.Mathlib.Numerals.{towards_suc}
use zrtools.Prelude.Bits.{bit_and-low_mask}
use zrtools.Checkpoint.Layout.{State, Slot, SlotId, slot_zero, slot_one, other, Shm, slot_at}
use zrtools.Checkpoint.Steps.{
  Writer, idle, begun, copying, finished, begin, writer_step, Reader, start, loading, fetching,
  done, reader_step, Config, Step, starts, writes, reads, reads_again, Reach, here, next,
}
use zrtools.Checkpoint.Writer.{IsSettled, IsConsistent, writer_step-IsConsistent}

module _ (size : ℕ) (P : State → Type 0) where
  -- What a reader knows of the memory while it fetches: the number that it loaded is even, and
  -- until the slot has another its bytes are those that were fetched.
  pub record IsFetched (slot : Slot) (seq1 : ℕ) (out : State) : Type 0 where
    pub even : seq1 % 2 ≡ 0
    pub nonzero : seq1 ≢ 0
    pub passed : seq1 ≤ slot.seq
    pub short : length out ≤ size
    pub same : slot.seq ≡ seq1 → out ≡ take (length out) slot.data'

  abbrev pub IsSound : Reader → Shm → Type 0
  IsSound start m = Unit
  IsSound (loading last s retry) m = Unit
  IsSound (fetching last s retry seq1 out) m = IsFetched (slot_at m s) seq1 out
  IsSound (done none) m = Unit
  IsSound (done (some state)) m = P state

  -- A store of the writer raises a slot's number, or leaves its bytes alone if that is even.
  writer_step-slot :
      (w : Writer) (m : Shm) (s : SlotId)
      → IsConsistent size P w m
      → let slot = slot_at m s in
        let slot' = slot_at (writer_step size w m).1 s in
        (slot.seq ≤ slot'.seq)
        × (slot'.seq ≡ slot.seq → slot.seq % 2 ≡ 0 → slot'.data' ≡ slot.data')
  unfolding writer_step
  writer_step-slot idle m s v = ground arith
  writer_step-slot (begun slot_zero old state) m slot_zero v = ground arith
  writer_step-slot (begun slot_zero old state) m slot_one v = ground arith
  writer_step-slot (begun slot_one old state) m slot_zero v = ground arith
  writer_step-slot (begun slot_one old state) m slot_one v = ground arith
  writer_step-slot (copying slot_zero old state i) m slot_zero v = ground arith
  writer_step-slot (copying slot_zero old state i) m slot_one v = ground arith
  writer_step-slot (copying slot_one old state i) m slot_zero v = ground arith
  writer_step-slot (copying slot_one old state i) m slot_one v = ground arith
  writer_step-slot (finished slot_zero state) m slot_zero v = ground arith
  writer_step-slot (finished slot_zero state) m slot_one v = ground arith
  writer_step-slot (finished slot_one state) m slot_zero v = ground arith
  writer_step-slot (finished slot_one state) m slot_one v = ground arith

  even-IsSettled :
      (w : Writer) (m : Shm) (s : SlotId)
      → IsConsistent size P w m
      → (slot_at m s).seq % 2 ≡ 0
      → IsSettled size P (slot_at m s)
  even-IsSettled idle m slot_zero v e = v.0
  even-IsSettled idle m slot_one v e = v.1
  even-IsSettled (begun t old state) m slot_zero v e = v.0
  even-IsSettled (begun t old state) m slot_one v e = v.1
  even-IsSettled (copying slot_zero old state i) m slot_zero v e = absurd (omega arith)
  even-IsSettled (copying slot_zero old state i) m slot_one v e = v.0
  even-IsSettled (copying slot_one old state i) m slot_zero v e = v.0
  even-IsSettled (copying slot_one old state i) m slot_one v e = absurd (omega arith)
  even-IsSettled (finished t state) m slot_zero v e = v.0
  even-IsSettled (finished t state) m slot_one v e = v.1

  -- Every byte is fetched, and the number is the same: the bytes are the slot's.
  fetched-whole :
      (slot : Slot) (seq1 : ℕ) (out : State)
      → IsFetched slot seq1 out
      → IsSettled size P slot
      → length out ≡ size
      → seq1 ≡ slot.seq
      → P out
  fetched-whole slot seq1 out h settled full e =
      let whole : out ≡ take (length slot.data') slot.data' =
        rw (settled.sized, ← full) (h.same (sym e)) in
      rw (whole ∙ take-length slot.data') (settled.whole (omega (arith, h.nonzero)))

  more-IsFetched :
      (slot : Slot) (seq1 : ℕ) (out : State)
      → IsFetched slot seq1 out
      → (slot.seq ≡ seq1 → length slot.data' ≡ size)
      → length out < size
      → IsFetched slot seq1 (out ++ (get_or slot.data' (length out) 0 ∷ []))
  more-IsFetched slot seq1 out h sized more = record {
    even = h.even;
    nonzero = h.nonzero;
    passed = h.passed;
    short = omega (arith, length-append out (get_or slot.data' (length out) 0 ∷ []));
    same = λ e. rw (length-append out (get_or slot.data' (length out) 0 ∷ [])) (
        simp towards_suc (
          rw (take-suc slot.data' (length out) 0 (omega (arith, sized e)))
            (ap (λ o. o ++ (get_or slot.data' (length out) 0 ∷ [])) (h.same e))));
  }

  writes-IsSound :
      (r : Reader) (w : Writer) (m : Shm)
      → IsConsistent size P w m
      → IsSound r m
      → IsSound r (writer_step size w m).1
  writes-IsSound start w m v h = h
  writes-IsSound (loading last s retry) w m v h = h
  writes-IsSound (fetching last s retry seq1 out) w m v h = record {
    even = h.even;
    nonzero = h.nonzero;
    passed = omega (arith, (writer_step-slot w m s v).0);
    short = h.short;
    same = λ e. ground (arith, writer_step-slot w m s v, h.same);
  }
  writes-IsSound (done none) w m v h = h
  writes-IsSound (done (some state)) w m v h = h

  reads-IsSound :
      (r : Reader) (w : Writer) (m : Shm)
      → IsConsistent size P w m
      → IsSound r m
      → IsSound (reader_step size r m) m
  unfolding reader_step
  reads-IsSound start w m v h = tt
  reads-IsSound (loading last s retry) w m v h =
      ground (arith, bit_and-low_mask 1 (slot_at m s).seq)
  reads-IsSound (fetching last s retry seq1 out) w m v h =
      let slot = slot_at m s in
      let settled = λ (e : slot.seq ≡ seq1). even-IsSettled w m s v (rw e h.even) in
      elim (Bool-cases (length out == size)) [
        | inl full ↦ rw full (elim (Bool-cases (seq1 == slot.seq)) [
          | inl same ↦
              rw same (
                fetched-whole slot seq1 out h (settled (ground arith)) (ground arith)
                  (ground arith))
          | inr moved ↦ rw moved tt
        ])
        | inr more ↦
            rw more
              (more-IsFetched slot seq1 out h (λ e. (settled e).sized) (ground (arith, h.short)))
      ]
  reads-IsSound (done none) w m v h = h
  reads-IsSound (done (some state)) w m v h = h

  abbrev IsGood : Config → Type 0
  IsGood c = IsConsistent size P c.writer c.shm × IsSound c.reader c.shm

  begin-IsConsistent :
      (state : State) (m : Shm)
      → IsConsistent size P idle m
      → P state
      → length state ≡ size
      → (slot_at m (other m.header.active)).seq + 2 < 2 ^ 64
      → IsConsistent size P (begin state m) m
  begin-IsConsistent state m v p h room =
      (v.0, v.1, record { target = refl; number = refl; room = room; written = p; fits = h })

  Step-IsGood : {c d : Config} → Step size P c d → IsGood c → IsGood d
  Step-IsGood (starts c state e p h room) g = (
    begin-IsConsistent state c.shm (subst (λ w. IsConsistent size P w c.shm) e g.0) p h room,
    g.1,
  )
  Step-IsGood (writes c) g = (
    writer_step-IsConsistent size P c.writer c.shm g.0,
    writes-IsSound c.reader c.writer c.shm g.0 g.1,
  )
  Step-IsGood (reads c) g = (g.0, reads-IsSound c.reader c.writer c.shm g.0 g.1)
  Step-IsGood (reads_again c r e) g = (g.0, tt)

  Reach-IsGood : {c d : Config} → Reach size P c d → IsGood c → IsGood d
  Reach-IsGood here g = g
  Reach-IsGood (next r st) g = Step-IsGood st (Reach-IsGood r g)

  -- However the stores of any number of writes and the loads of any number of reads are
  -- interleaved, what `Read` returns has each property `P` that all the states passed to `Write`
  -- have, and the two slots where they hold a state before; so it is one of these states, whole.
  -- The writer begins idle on two settled slots, and the reader before its first load.
  pub read_whole :
      (c d : Config) (state : State)
      → c.writer ≡ idle
      → c.reader ≡ start
      → IsSettled size P c.shm.slot0
      → IsSettled size P c.shm.slot1
      → Reach size P c d
      → d.reader ≡ done (some state)
      → P state
  read_whole c d state ew er s0 s1 r e =
      subst (λ q. IsSound q d.shm) e
        (Reach-IsGood r (
          subst (λ w. IsConsistent size P w c.shm) (sym ew) (s0, s1),
          subst (λ q. IsSound q c.shm) (sym er) tt,
        )).1
