-- ===== src/Checkpoint.antt =====
-- src/zrtools/zrt_shm_checkpoint.h: the double-buffered checkpoint in shared memory, as the calls see
-- it when nothing runs between their loads and stores. `Steps` has the atomic steps.
pub mod Layout
pub mod Calls
pub mod Steps
pub mod Writer
pub mod Crash
pub mod Restart
pub mod Safety
pub mod Reader
pub mod Undisturbed
mod Tests
