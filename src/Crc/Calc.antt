-- ===== src/Crc/Calc.antt =====
-- src/zrtools/zrt_crc32.h: `Crc32::Calc`, `Crc32::Update` and `Crc32::Verify`. A byte is below 256, a
-- checksum below 2 ^ 32, and the data is the list of its bytes.
use zrtools.Prelude.{
  ℕ, ◌-◌, ◌/◌, ◌^◌, Bool, List, [], ◌∷◌, bit_and, bit_xor, if◌then◌else◌, ◌==◌, get_or,
}
use zrtools.Crc.Table.{crc_table}

-- One round: `kCrcTable[(crc ^ byte) & 0xFF] ^ (crc >> 8)`.
unfoldable pub crc_step : ℕ → ℕ → ℕ
crc_step crc byte = bit_xor (get_or crc_table (bit_and (bit_xor crc byte) 0xFF) 0) (crc / 2 ^ 8)

-- The loop over the bytes.
unfoldable pub crc_loop : ℕ → List ℕ → ℕ
crc_loop crc [] = crc
crc_loop crc (byte ∷ bytes) = crc_loop (crc_step crc byte) bytes

unfoldable pub calc : List ℕ → ℕ
calc bytes = bit_xor (crc_loop 0xFFFFFFFF bytes) 0xFFFFFFFF

-- `~crc` on `uint32_t`.
abbrev pub complement : ℕ → ℕ
complement crc = 0xFFFFFFFF - crc

unfoldable pub update : ℕ → List ℕ → ℕ
update crc bytes =
    bit_xor (crc_loop (if crc == 0 then 0xFFFFFFFF else complement crc) bytes) 0xFFFFFFFF

unfoldable pub verify : List ℕ → ℕ → Bool
verify bytes expected = calc bytes == expected
