-- ===== src/Checkpoint/Tests.antt =====
-- The checkpoint at concrete memories, with states of two bytes.
use zrtools.Prelude.{◌≡◌, refl, arith, [], ◌∷◌, Option, none, some, replicate}
use zrtools.Checkpoint.Layout.{State, slot_zero, Shm, magic_number}
use zrtools.Checkpoint.Calls.{
  write_shm, write, read_shm, read, get_version, initialize, initialize_reader, created, opened,
  try_read_slot,
}
use zrtools.Checkpoint.Steps.{
  idle, begin, writer_step, run_writer, start, done, reader_step, run_reader, Config, Reach, here,
  next, starts, writes, reads,
}
use zrtools.Checkpoint.Writer.{IsSettled}
use zrtools.Checkpoint.Crash.{IsCalm, read_after_crash}
use zrtools.Checkpoint.Restart.{read_shm-write_shm, write_after_crash_unseen}
use zrtools.Checkpoint.Safety.{read_whole}
use zrtools.Checkpoint.Reader.{read_terminates}

abbrev blank : State
blank = 0 ∷ 0 ∷ []

-- One checkpoint, in slot 0.
abbrev first_written : Shm
first_written = record {
  header = record { magic = magic_number; version = 1; active = slot_zero };
  slot0 = record { seq = 2; data' = 1 ∷ 2 ∷ [] };
  slot1 = record { seq = 0; data' = blank };
}

-- Nothing written.
abbrev fresh : Shm
fresh = record first_written { slot0 = record { seq = 0; data' = blank } }

abbrev newer : State
newer = 7 ∷ 8 ∷ []

two_writes :
    read (write newer (write (1 ∷ 2 ∷ []) (initialize blank (created first_written)))) ≡ some newer
unfolding read write initialize try_read_slot
two_writes = refl

nothing_written : read (initialize blank (opened fresh)) ≡ none
unfolding read write initialize try_read_slot
nothing_written = refl

wrong_magic :
    initialize_reader
      (opened (record fresh { header = record { magic = 0; version = 1; active = slot_zero } }))
    ≡ none
unfolding initialize_reader
wrong_magic = refl

versions : get_version (write newer (some first_written)) ≡ 2
unfolding get_version write
versions = refl

first_written-IsCalm : IsCalm 2 first_written
first_written-IsCalm = omega arith

read_after_crash_example :
    read_shm (run_writer 2 3 (begin newer first_written) first_written).1 ≡ some (1 ∷ 2 ∷ [])
read_after_crash_example = read_after_crash 2 3 newer first_written first_written-IsCalm refl

read_shm-write_shm_example : read_shm (write_shm newer first_written) ≡ some newer
read_shm-write_shm_example = read_shm-write_shm 2 newer first_written first_written-IsCalm refl

write_after_crash_unseen_example :
    read_shm (write_shm newer (run_writer 2 2 (begin (5 ∷ 6 ∷ []) first_written) first_written).1)
    ≡ some (1 ∷ 2 ∷ [])
write_after_crash_unseen_example =
    write_after_crash_unseen 2 2 (5 ∷ 6 ∷ []) newer first_written first_written-IsCalm refl
      (omega arith) (omega arith)

abbrev config : Config
config = record { shm = fresh; writer = idle; reader = start }

abbrev IsNewer : State → Type 0
IsNewer s = s ≡ newer

fresh-IsSettled : IsSettled 2 IsNewer fresh.slot0
fresh-IsSettled = record {
  even = refl;
  small = omega arith;
  sized = refl;
  whole = λ h. absurd (h refl);
}

-- The write from its first store to its last, then the read.
written_and_read : (d : Config) × Reach 2 IsNewer config d × (d.reader ≡ done (some newer))
unfolding writer_step reader_step
written_and_read = (
  _,
  next
      (next
        (next
          (next
            (next
              (next
                (next
                  (next
                    (next
                      (next (next here (starts config newer refl refl refl (omega arith)))
                        (writes _))
                      (writes _))
                    (writes _))
                  (writes _))
                (writes _))
              (reads _))
            (reads _))
          (reads _))
        (reads _))
      (reads _),
  refl,
)

read_whole_example : newer ≡ newer
read_whole_example =
    read_whole 2 IsNewer config written_and_read.0 newer refl refl fresh-IsSettled fresh-IsSettled
      written_and_read.1 written_and_read.2

read_terminates_example :
    (o : Option State) × (run_reader 2 (replicate 27 first_written) start ≡ done o)
read_terminates_example = read_terminates 2 (replicate 27 first_written) (omega arith)
