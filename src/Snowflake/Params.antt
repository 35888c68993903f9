-- ===== src/Snowflake/Params.antt =====
-- src/zrtools/zrt_snowflake.h: the template's parameters, its constants and the assertions on them.
use zrtools.Prelude.{ℕ, ◌+◌, ◌-◌, ◌*◌, ◌/◌, ◌%◌, ◌^◌, ◌≤◌, ◌<◌, ◌≡◌}

pub record Params : Type 0 where
  pub server_id_bits : ℕ
  pub sequence_bits : ℕ
  pub timestamp_bits : ℕ
  pub tolerance_ms : ℕ
  pub wait_threshold_ms : ℕ
  pub error_threshold_ms : ℕ

-- The `static_assert`s of the class.
pub record IsParams (p : Params) : Type 0 where
  pub total : p.server_id_bits + p.sequence_bits + p.timestamp_bits ≡ 63
  pub server_some : 0 < p.server_id_bits
  pub server_most : p.server_id_bits ≤ 16
  pub sequence_some : 0 < p.sequence_bits
  pub sequence_most : p.sequence_bits ≤ 22
  pub timestamp_some : 0 < p.timestamp_bits
  pub timestamp_most : p.timestamp_bits ≤ 50
  pub tolerance_wait : p.tolerance_ms ≤ p.wait_threshold_ms
  pub wait_error : p.wait_threshold_ms ≤ p.error_threshold_ms

abbrev pub server_id_shift : Params → ℕ
server_id_shift p = p.sequence_bits

abbrev pub timestamp_shift : Params → ℕ
timestamp_shift p = p.sequence_bits + p.server_id_bits

abbrev pub max_server_id : Params → ℕ
max_server_id p = 2 ^ p.server_id_bits - 1

abbrev pub max_sequence : Params → ℕ
max_sequence p = 2 ^ p.sequence_bits - 1

abbrev pub max_timestamp : Params → ℕ
max_timestamp p = 2 ^ p.timestamp_bits - 1

abbrev pub default_epoch : ℕ
default_epoch = 1704067200000

-- `SnowflakeStandardV2`
abbrev pub standard : Params
standard = record {
  server_id_bits = 8;
  sequence_bits = 14;
  timestamp_bits = 41;
  tolerance_ms = 5;
  wait_threshold_ms = 10000;
  error_threshold_ms = 10000;
}

-- `SnowflakeStrictV2`
abbrev pub strict : Params
strict = record standard { tolerance_ms = 0; wait_threshold_ms = 100; error_threshold_ms = 100 }

-- `SnowflakeTolerantV2`
abbrev pub tolerant : Params
tolerant = record standard {
  tolerance_ms = 10;
  wait_threshold_ms = 60000;
  error_threshold_ms = 60000;
}

-- `SnowflakeHighAvailability`
abbrev pub high_availability : Params
high_availability = record standard { wait_threshold_ms = 30000; error_threshold_ms = 2 ^ 64 - 1 }

-- `SnowflakeLargeV2`
abbrev pub large : Params
large = record standard { server_id_bits = 10; sequence_bits = 12 }

-- `SnowflakeHighThroughputV2`
abbrev pub high_throughput : Params
high_throughput = record standard { sequence_bits = 16; timestamp_bits = 39; tolerance_ms = 10 }

-- x << k and x >> k on `uint64_t`.
abbrev pub shl : ℕ → ℕ → ℕ
shl x k = x * 2 ^ k % 2 ^ 64

abbrev pub shr : ℕ → ℕ → ℕ
shr x k = x / 2 ^ k
