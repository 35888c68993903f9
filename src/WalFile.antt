-- ===== src/WalFile.antt =====
-- src/zrtools/zrt_wal_file.h: the log of entries in files, its writer and its reader.
pub mod Bytes
pub mod Writer
pub mod Reader
pub mod Directory
pub mod Parsed
pub mod Survivors
pub mod Rounds
pub mod Appended
pub mod Written
pub mod LastSeq
pub mod Restart
mod Tests
