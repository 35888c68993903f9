-- ===== src/Ring.antt =====
-- src/zrtools/zrt_shm_ring.h: the ring buffer of log entries in shared memory.
pub mod State
pub mod Append
pub mod Read
pub mod Confirm
pub mod Offsets
pub mod Chain
pub mod Skip
pub mod Appended
pub mod Outcome
pub mod Log
pub mod Segments
pub mod Unconfirmed
pub mod Next
pub mod Confirmed
pub mod Batch
pub mod Started
mod Tests
