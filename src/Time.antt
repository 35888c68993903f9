-- ===== src/Time.antt =====
-- src/zrtools/zrt_time.h: the calendar, and points in time with cached calendar fields.
pub mod Civil
pub mod Calendar
pub mod Eras
pub mod Epoch
pub mod DateTime
pub mod Cached
pub mod Shifted
pub mod Clock
mod Tests
