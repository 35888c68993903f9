-- ===== src/Crc/Reference.antt =====
-- The checksum bit by bit, as division by the polynomial 0xEDB88320 that the comments of
-- src/zrtools/zrt_crc32.h name. The table, the loop and `Crc32::Calc` are measured against it.
use zrtools.Prelude.{ℕ, zero, suc, ◌%◌, ◌/◌, List, [], ◌∷◌, bit_xor, if◌then◌else◌, ◌==◌}

abbrev pub polynomial : ℕ
polynomial = 0xEDB88320

-- One bit of the division: the polynomial is subtracted where the bit that leaves is set.
unfoldable pub shift_out : ℕ → ℕ
shift_out crc = if crc % 2 == 1 then bit_xor (crc / 2) polynomial else crc / 2

unfoldable pub shift_bits : ℕ → ℕ → ℕ
shift_bits zero crc = crc
shift_bits (suc n) crc = shift_bits n (shift_out crc)

unfoldable pub divide : ℕ → List ℕ → ℕ
divide crc [] = crc
divide crc (byte ∷ bytes) = divide (shift_bits 8 (bit_xor crc byte)) bytes

-- The checksum as the standard defines it.
unfoldable pub calc_bitwise : List ℕ → ℕ
calc_bitwise bytes = bit_xor (divide 0xFFFFFFFF bytes) 0xFFFFFFFF
