-- ===== src/LockedHashMap.antt =====
-- src/zrtools/zrt_locked_hash_map.h: a hash map behind a lock for readers and writers.
pub mod Map
pub mod Lookup
pub mod Threads
pub mod Sequential
mod Tests
