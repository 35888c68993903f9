-- ===== src/Wal.antt =====
-- src/zrtools/zrt_wal_entry.h: entries of a write-ahead log in memory, and their builder.
pub mod Memory
pub mod Words
pub mod Entry
pub mod Built
pub mod Builder
mod Tests
