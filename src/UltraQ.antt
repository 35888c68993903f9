-- ===== src/UltraQ.antt =====
-- src/zrtools/ultraq.h: a queue of messages in a chain of blocks.
pub mod Queue
pub mod Messages
pub mod Pushed
pub mod Pulled
mod Tests
