-- ===== src/UltraBuf.antt =====
-- src/zrtools/ultrabuf.h and ultrabuf.cpp: a buffer of bytes in a chain of blocks.
pub mod Buffer
pub mod Contents
pub mod Pushed
pub mod Taken
pub mod Pulled
pub mod Copied
mod Tests
