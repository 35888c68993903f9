-- ===== src/Snowflake.antt =====
-- src/zrtools/zrt_snowflake.h: identifiers from a clock, a server number and a sequence number.
pub mod Params
pub mod Generator
pub mod Ids
pub mod Order
pub mod Unique
pub mod Loop
pub mod Returned
mod Tests
