-- ===== src/Ring/Tests.antt =====
-- Runs of src/zrtools/zrt_shm_ring.h, and its theorems at concrete rings.
use zrtools.Prelude.{
  ℕ, suc, ◌-◌, ◌^◌, ◌<◌, ◌≡◌, inl, refl, arith, List, [], ◌∷◌, false, Option, some, none, length,
  take, drop,
}
use zrtools.Wal.Memory.{store_bytes, load_bytes}
use zrtools.Wal.Words.{store_word, load_word, encode, decode}
use zrtools.Wal.Entry.{
  set_seq, set_timestamp_ns, set_type, set_data_len, set_crc32, update_crc, copy_data, write_entry,
  load_header, align_up,
}
use zrtools.Ring.State.{Ring, magic_number}
use zrtools.Ring.Append.{wrap_around, write_skip, append_from, put_entry, take_seq, entry_size}
use zrtools.Ring.Read.{read_from, read_unconfirmed}
use zrtools.Ring.Confirm.{confirm, confirm_batch}
use zrtools.Ring.Offsets.{IsGeometry, entry_size-eight}
use zrtools.Ring.Chain.{Segment, entries}
use zrtools.Ring.Appended.{IsLog, IsAppended, entry_segment}
use zrtools.Ring.Outcome.{put_entry-IsLog}
use zrtools.Ring.Log.{append_from-IsAppended}
use zrtools.Ring.Unconfirmed.{read_unconfirmed-IsLog}
use zrtools.Ring.Next.{IsRead, read_from-IsRead}
use zrtools.Ring.Confirmed.{at_confirmed, confirm-IsLog}
use zrtools.Ring.Batch.{confirm_batch-IsLog}

abbrev blank : Ring
blank = record {
  magic = 0;
  version = 0;
  size = 0;
  write_pos = 7;
  read_pos = 3;
  confirmed_pos = 1;
  next_seq = 0;
  total_entries = 0;
  total_bytes = 0;
  wrap_count = 0;
  buffer = λ i. 5;
}

-- A ring of 128 bytes for entries of at most 64.
abbrev fresh : Ring
fresh = record {
  magic = magic_number;
  version = 1;
  size = 128;
  write_pos = 0;
  read_pos = 0;
  confirmed_pos = 0;
  next_seq = 1;
  total_entries = 0;
  total_bytes = 0;
  wrap_count = 0;
  buffer = λ i. 0;
}

geometry : IsGeometry 128 64
geometry = record {
  some_room = omega arith;
  aligned = refl;
  bounded = omega arith;
  entry_fits = omega arith;
  skip_fits = omega arith;
}

abbrev clock : ℕ → ℕ
clock n = 1000

abbrev text : List ℕ
text = 1 ∷ 2 ∷ 3 ∷ []

fresh-IsLog : IsLog 128 fresh 0 []
fresh-IsLog = record { chain = refl; live = tt; unconfirmed = omega arith; even = refl }

entry_size-text : entry_size (length text) ≡ 32
entry_size-text = entry_size-eight (length text) (omega arith)

append_from-IsAppended_example :
    IsAppended 128 64 geometry clock 0 [] 1 text
      (append_from 128 64 clock 2 fresh 1 (some text) (length text))
append_from-IsAppended_example =
    append_from-IsAppended 128 64 geometry clock fresh 0 1 text [] fresh-IsLog (record {
      type_some = λ e. omega arith;
      type_fits = omega arith;
      data_fits = omega arith;
      clock_fits = λ n. omega arith;
      seq_some = omega arith;
      seq_fits = omega arith;
      positions_fit = omega arith;
      tail = inl (omega (arith, entry_size-text));
    })

-- The ring with one entry.
abbrev filled : Ring
filled = put_entry 128 (take_seq fresh) 1 1000 1 (some text) (length text)

abbrev only : Segment
only = entry_segment 1 1000 1 text

filled-IsLog : IsLog 128 filled 0 (only ∷ [])
filled-IsLog =
    put_entry-IsLog 128 64 geometry fresh 0 1 1000 1 text [] fresh-IsLog
      (record {
        seq_fits = omega arith;
        timestamp_fits = omega arith;
        type_fits = omega arith;
        data_fits = omega arith;
      })
      (λ e. omega arith) (λ e. omega arith) (omega (arith, entry_size-text))
      (omega (arith, entry_size-text)) (omega arith)

-- The numbers of the ring with one entry.
filled_pos : filled.write_pos ≡ 32
unfolding put_entry
filled_pos = omega (arith, entry_size-text)

filled_confirmed : filled.confirmed_pos ≡ 0
unfolding put_entry
filled_confirmed = refl

confirmed-IsLog : IsLog 128 filled filled.confirmed_pos (only ∷ [])
unfolding put_entry
confirmed-IsLog = filled-IsLog

small : filled.write_pos < 2 ^ 64
small = omega (arith, filled_pos)

read_unconfirmed-IsLog_example :
    read_unconfirmed 128 (some filled) [] 5
    ≡ some (length (take 5 (entries (only ∷ []))), take 5 (entries (only ∷ [])))
read_unconfirmed-IsLog_example =
    read_unconfirmed-IsLog 128 filled [] 5 (only ∷ []) confirmed-IsLog small

read_from-IsRead_example :
    IsRead 128 filled false 2
      (only ∷ [])
      (read_from 128 (suc (filled.write_pos - filled.read_pos)) filled false 2)
unfolding put_entry
read_from-IsRead_example =
    read_from-IsRead 128 filled false 2 (only ∷ []) filled-IsLog.chain filled-IsLog.live small

confirm-IsLog_example :
    (end : ℕ) × (confirm 128 (some filled) 1 ≡ some (some (at_confirmed filled end)))
    × IsLog 128 (at_confirmed filled end) end []
confirm-IsLog_example = confirm-IsLog 128 filled 1 [] only [] confirmed-IsLog tt refl small

confirm_batch-IsLog_example :
    (end : ℕ) × (back : List Segment) × (confirm_batch 128 (some filled) 1
      ≡ some (some (at_confirmed filled end)))
    × IsLog 128 (at_confirmed filled end) end back
    × (entries back ≡ drop 1 (entries (only ∷ [])))
confirm_batch-IsLog_example = confirm_batch-IsLog 128 filled 1 (only ∷ []) confirmed-IsLog small

-- 48 bytes, of which the 16 behind the first entry are shorter than a header.
abbrev short_tail : Ring
short_tail = record fresh {
  write_pos = 48;
  confirmed_pos = 48;
  read_pos = 48;
  next_seq = 2;
  size = 64;
}

-- The call succeeds, with the second of the two numbers that it takes.
abbrev short_tail_append : Option ℕ
short_tail_append = elim (append_from 64 64 clock 2 short_tail 1 (some []) 0) [
  | none ↦ none
  | some (n, r) ↦ some n
]

-- What `ReadNext` finds next.
abbrev short_tail_read : Option (Option ℕ)
short_tail_read = elim (append_from 64 64 clock 2 short_tail 1 (some []) 0) [
  | none ↦ none
  | some (n, r) ↦ elim (read_from 64 9 r false 0) [
    | none ↦ none
    | some (none, r') ↦ some none
    | some (some (h, content), r') ↦ some (some h.seq)
  ]
]

short_tail_appended : short_tail_append ≡ some 3
unfolding append_from wrap_around write_skip put_entry write_entry set_seq set_timestamp_ns set_type
    set_data_len update_crc set_crc32 copy_data store_word store_bytes encode align_up load_header
    load_word load_bytes decode
short_tail_appended = refl

short_tail_lost : short_tail_read ≡ some none
unfolding append_from read_from wrap_around write_skip put_entry write_entry set_seq
    set_timestamp_ns set_type set_data_len update_crc set_crc32 copy_data store_word store_bytes
    encode align_up load_header load_word load_bytes decode
short_tail_lost = refl
