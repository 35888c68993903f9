-- ===== src/Checkpoint/Reader.antt =====
-- src/zrtools/zrt_shm_checkpoint.h: the reader's loop ends, and on a memory that nobody changes it
-- comes to `Read` as a whole.
use zrtools.Prelude.{
  ℕ, zero, suc, ◌+◌, ◌-◌, ◌*◌, ◌≤◌, ◌<◌, ◌≡◌, refl, ap, arith, Bool, length, length-append, get_or,
  true, false, Option, List, [], ◌∷◌,
}
use zrtools.Checkpoint.Layout.{State, Shm, slot_at}
use zrtools.Checkpoint.Steps.{Reader, start, loading, fetching, done, reader_step, run_reader}

module _ (size : ℕ) where
  -- The steps of `TryReadSlot` with so many rounds left, at most.
  pub attempts : ℕ → ℕ
  attempts zero = 1
  attempts (suc k) = size + 2 + attempts k

  -- The steps of the second call of `TryReadSlot`.
  abbrev pub then_other : Bool → ℕ
  then_other true = 0
  then_other false = attempts 3

  abbrev pub steps_left : Reader → ℕ
  steps_left start = attempts 3 + attempts 3 + 1
  steps_left (loading last s retry) = attempts (3 - retry) + then_other last
  steps_left (fetching last s retry seq1 out) =
      (size - length out) + 1 + attempts (2 - retry) + then_other last
  steps_left (done r) = 0

  abbrev pub InBounds : Reader → Type 0
  InBounds start = Unit
  InBounds (loading last s retry) = retry ≤ 3
  InBounds (fetching last s retry seq1 out) = (retry < 3) × (length out ≤ size)
  InBounds (done r) = Unit

  attempts-next : (retry : ℕ) → attempts (3 - (retry + 1)) ≡ attempts (2 - retry)
  attempts-next retry = let e : 3 - (retry + 1) ≡ 2 - retry = omega arith in ap attempts e

  attempts-round : (retry : ℕ) → retry < 3 → attempts (3 - retry) ≡ size + 2 + attempts (2 - retry)
  unfolding attempts
  attempts-round retry h = let e : 3 - retry ≡ suc (2 - retry) = omega arith in ap attempts e

  attempts-pos : (k : ℕ) → 0 < attempts k
  unfolding attempts
  attempts-pos zero = omega arith
  attempts-pos (suc k) = omega arith

  reader_step-progress :
      (r : Reader) (m : Shm)
      → InBounds r
      → InBounds (reader_step size r m) × (steps_left (reader_step size r m) ≤ steps_left r - 1)
  unfolding reader_step
  reader_step-progress start m h = (omega arith, omega arith)
  reader_step-progress (loading last s retry) m h =
      ground (arith, attempts-next retry, attempts-round retry, attempts-pos (3 - retry))
  reader_step-progress (fetching last s retry seq1 out) m h = ground (
    arith,
    attempts-next retry,
    length-append out (get_or (slot_at m s).data' (length out) 0 ∷ []),
  )
  reader_step-progress (done r) m h = (tt, omega arith)

  pub run_reader-ends :
      (ms : List Shm) (r : Reader)
      → InBounds r
      → steps_left r ≤ length ms
      → (o : Option State) × (run_reader size ms r ≡ done o)
  unfolding run_reader
  run_reader-ends [] start h le = absurd (omega arith)
  run_reader-ends [] (loading last s retry) h le = absurd (omega (arith, attempts-pos (3 - retry)))
  run_reader-ends [] (fetching last s retry seq1 out) h le = absurd (omega arith)
  run_reader-ends [] (done o) h le = (o, refl)
  run_reader-ends (m ∷ ms) r h le =
      let p = reader_step-progress r m h in
      run_reader-ends ms (reader_step size r m) p.0 (omega (arith, p.1))

  -- `Read` ends after `6 * sizeof(State) + 15` of its steps at most, whatever is stored between them.
  pub read_terminates :
      (ms : List Shm)
      → 6 * size + 15 ≤ length ms
      → (o : Option State) × (run_reader size ms start ≡ done o)
  unfolding attempts
  read_terminates ms h = run_reader-ends ms start tt (omega arith)
