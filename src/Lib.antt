-- ===== src/Lib.antt =====
-- zrtools is a C++ library of components that hardly depend on each other. This development models
-- the ones that keep state across threads, processes and crashes, and what they stand on.
--
-- Parts and files (paths from the repository's root):
-- * src/zrtools/zrt_shm_checkpoint.h, a state in shared memory in two slots under sequence numbers.
--   Checkpoint/Layout is the memory; Checkpoint/Calls is `Write`, `Read`, `TryReadSlot`, `Initialize`,
--   `Reset` as whole calls; Checkpoint/Steps is `Write` and `Read` as their single loads and stores,
--   one step each, with every retry, and schedules of one writer and one reader. Proofs:
--   Checkpoint/Safety for schedules, Checkpoint/Writer, Crash and Restart for a writer that dies,
--   Checkpoint/Reader for the retries, Checkpoint/Undisturbed for steps against calls.
-- * src/zrtools/zrt_snowflake.h, the generator of ids on one atomic word. Snowflake/Params holds the
--   template's parameters and presets, Snowflake/Generator the whole of `nextId` and `parseId`: the
--   clock's readings and the word that each round of the exchange meets are lists. Proofs:
--   Snowflake/Ids, Order, Unique, Loop, Returned.
-- * src/zrtools/zrt_crc32.h, the checksum. Crc/Table is `kCrcTable` as it stands, Crc/Calc is `Calc`,
--   `Update` and `Verify`; Crc/Reference is the division by the polynomial that it is measured
--   against. Proofs: Crc/Linear, Division, Standard (against the division), Crc/Chunks (parts of a
--   text), Crc/Damage (one wrong byte), with the laws of exclusive or in Crc/Xor.
-- * src/zrtools/zrt_wal_entry.h, entries of a log. Wal/Memory is a memory of bytes, Wal/Words its
--   fields, Wal/Entry the header and the entry with its checksum, Wal/Builder `WalEntryBuilder`. The
--   checksum is Crc/Calc. Proofs: Wal/Built.
-- * src/zrtools/zrt_shm_ring.h, the ring of entries in shared memory. Ring/State is the header and the
--   buffer with `Initialize` and `Reset`, Ring/Append is `Append`, Ring/Read is `ReadNext` and
--   `ReadUnconfirmed`, Ring/Confirm is `Confirm` and `ConfirmBatch`, all on the bytes of Wal/Memory and
--   the entries of Wal/Entry. Its abstract view is a list of entries between two positions
--   (Ring/Chain). Proofs: Ring/Offsets, Skip, Appended, Outcome and Log (`Append`), Ring/Segments,
--   Unconfirmed and Next (readers), Ring/Confirmed and Batch, Ring/Started.
-- * src/zrtools/ultraq.h, a queue of messages in blocks. UltraQ/Queue is the blocks, the counters and
--   every operation, on the bytes of Wal/Memory; its abstract view is the list of messages
--   (UltraQ/Messages). Proofs: UltraQ/Pushed and Pulled.
-- * src/zrtools/ultrabuf.h and ultrabuf.cpp, a buffer of bytes in blocks. UltraBuf/Buffer is the blocks,
--   the counters and every operation, on the bytes of Wal/Memory; its abstract view is the list of bytes
--   (UltraBuf/Contents). Proofs: UltraBuf/Pushed, Taken, Pulled and
--   Copied.
-- * src/zrtools/zrt_wal_file.h, the log in files, of entries as in zrt_wal_entry.h. WalFile/Bytes is the
--   headers as bytes, WalFile/Writer is `WalFileWriter`, WalFile/Reader the loops of `GetLastSeqInFile`
--   and `ReadAfter` over the bytes of a file, WalFile/Directory the names, `Init`, `TruncateBefore` and
--   `ReadAfter` over a directory. A crash leaves the first bytes of a file; WalFile/Survivors is the
--   entries that are left. Proofs: WalFile/Parsed, Rounds, Appended, Written, LastSeq and Restart.
-- * src/zrtools/zrt_locked_hash_map.h, a hash map under a lock for readers and writers.
--   LockedHashMap/Map is every operation on the list of pairs, LockedHashMap/Threads is threads that
--   call them, one step for each of taking the lock, loading, storing and giving the lock back. Proofs:
--   LockedHashMap/Lookup against a map from keys to values, LockedHashMap/Sequential for the threads.
-- * src/zrtools/zrt_time.h and zrt_time-inl.h, the calendar and points in time. Time/Civil is
--   `civil_from_epoch_utc` and `fast_timegm`, Time/DateTime the class `DateTime` over a time zone, which
--   is a record of the two conversions with the law that the fields do not depend on those that they
--   overwrite; `utc` fills it by Time/Civil, and libc's local zone is any other. Proofs: Time/Calendar
--   (years and months, from every day of an era), Time/Eras, Epoch, Cached, Shifted and Clock.
-- * Prelude is what these share: lists indexed by native numbers, tests, masks, words of 32 and 64
--   bits, and integers with the division of C++.
--
-- Numbers are natural numbers; an unsigned word wraps where the code computes in one (`wrap64`,
-- `wrap32`). Signed numbers, in Time only, are integers without bounds: an overflow is undefined there.
-- A pointer that may be null is an Option. Memory outside a mapping reads as an unknown number.
--
-- Loops: a recursion of `Append` has fuel 2, since after the wrap the entry starts at offset 0 and an
-- entry is no larger than the buffer. The loops of the readers have one round more than there are
-- bytes to read, and each round passes 24 at least. `nextId` has fuel for its
-- passes, and the number of the clock's readings is enough; the busy wait recurses on the readings.
-- The walk of `pull` over blocks recurses on the chain. The loop of UltraBuf's `push` has a round for
-- each byte and one more, since a round fills a block that has room for a byte at least. The loops over
-- a log file have a round for each byte, and each passes a header of 24. A loop that ends by the code's own count
-- recurses on that count.
--
-- Not modelled: opening and mapping shared memory (boost and the system), logging, memory orders weaker
-- than sequential consistency, text of dates and times (std and boost), the buffering of file streams
-- but for what a crash leaves, and the other components of the repository: the maps with several keys
-- (over boost::multi_index), strings, floating-point math, comparison, the pools of threads, and file
-- access.
pub mod Prelude
pub mod Checkpoint
pub mod Snowflake
pub mod Crc
pub mod Wal
pub mod Ring
pub mod UltraQ
pub mod Time
pub mod UltraBuf
pub mod LockedHashMap
pub mod WalFile
