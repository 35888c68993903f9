-- ===== src/Crc.antt =====
-- src/zrtools/zrt_crc32.h: the checksum over a table of 256 words.
pub mod Table
pub mod Calc
pub mod Xor
pub mod Reference
pub mod Chunks
pub mod Linear
pub mod Division
pub mod Standard
pub mod Damage
mod Tests
