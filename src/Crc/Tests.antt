-- ===== src/Crc/Tests.antt =====
-- Runs of src/zrtools/zrt_crc32.h, and its theorems at concrete data.
use zrtools.Prelude.{ℕ, ◌≡◌, ◌↔◌, refl, arith, List, [], ◌∷◌, bit_xor, true}
use zrtools.Crc.Table.{crc_table}
use zrtools.Crc.Calc.{crc_step, crc_loop, calc, update, verify}
use zrtools.Crc.Reference.{shift_out, shift_bits, divide, calc_bitwise}
use zrtools.Crc.Standard.{calc-calc_bitwise, calc-last_fault}
use zrtools.Crc.Chunks.{update-calc}
use zrtools.Crc.Damage.{verify-damaged}

-- The ASCII digits 1 to 9.
abbrev check_text : List ℕ
check_text = 49 ∷ 50 ∷ 51 ∷ 52 ∷ 53 ∷ 54 ∷ 55 ∷ 56 ∷ 57 ∷ []

calc-check_text : calc check_text ≡ 0xCBF43926
unfolding calc crc_loop crc_step crc_table
calc-check_text = refl

-- One byte whose round looks up index 111.
calc-fault : calc (0x90 ∷ []) ≡ 0x220D7A9B
unfolding calc crc_loop crc_step crc_table
calc-fault = refl

calc_bitwise-fault : calc_bitwise (0x90 ∷ []) ≡ 0x220D7CC9
unfolding calc_bitwise divide shift_bits shift_out
calc_bitwise-fault = refl

update-calc_example : update (calc (49 ∷ 50 ∷ [])) (51 ∷ []) ≡ calc (49 ∷ 50 ∷ 51 ∷ [])
update-calc_example = update-calc (49 ∷ 50 ∷ []) (51 ∷ [])

calc-calc_bitwise_example : calc (49 ∷ 50 ∷ []) ≡ calc_bitwise (49 ∷ 50 ∷ [])
unfolding crc_step crc_table
calc-calc_bitwise_example =
    calc-calc_bitwise (49 ∷ 50 ∷ []) (omega arith, (omega arith, tt))
      ((λ e. omega arith), ((λ e. omega arith), tt))

calc-last_fault_example : calc (49 ∷ 0x27 ∷ []) ≡ bit_xor (calc_bitwise (49 ∷ 0x27 ∷ [])) 0x0652
unfolding crc_loop crc_step crc_table
calc-last_fault_example =
    calc-last_fault (49 ∷ []) 0x27 (omega arith, tt) ((λ e. omega arith), tt) (omega arith) refl

abbrev sent : ℕ
sent = 50

abbrev received : ℕ
received = 7

verify-damaged_example :
    (verify (49 ∷ received ∷ 51 ∷ []) (calc (49 ∷ sent ∷ 51 ∷ [])) ≡ true) ↔ (received ≡ sent)
verify-damaged_example =
    verify-damaged (49 ∷ []) (51 ∷ []) sent received (omega arith) (omega arith)
