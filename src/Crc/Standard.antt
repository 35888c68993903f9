-- ===== src/Crc/Standard.antt =====
-- src/zrtools/zrt_crc32.h: `Crc32::Calc` against the division by the polynomial.
use zrtools.Prelude.{ℕ, ◌≡◌, ◌≢◌, ◌<◌, ◌∙◌, refl, ap, arith, bit_xor, List, [], ◌∷◌, ◌++◌, All}
use zrtools.Crc.Calc.{crc_step, crc_loop, calc}
use zrtools.Crc.Reference.{shift_bits, divide, calc_bitwise}
use zrtools.Crc.Division.{table_error, crc_index, crc_step-shift_bits}
use zrtools.Crc.Linear.{xor-swap_right}
use zrtools.Crc.Chunks.{crc_loop-append}
use zrtools.Crc.Xor.{bit_xor-zero}

-- No round of the loop looks up index 111.
abbrev pub IsFaultFree : ℕ → List ℕ → Type 0
IsFaultFree crc [] = Unit
IsFaultFree crc (byte ∷ bytes) = (crc_index crc byte ≢ 111) × IsFaultFree (crc_step crc byte) bytes

table_error-other : (i : ℕ) → i ≢ 111 → table_error i ≡ 0
unfolding table_error
table_error-other i h = grind arith

crc_step_sound :
    (crc byte : ℕ)
    → byte < 256
    → crc_index crc byte ≢ 111
    → crc_step crc byte ≡ shift_bits 8 (bit_xor crc byte)
crc_step_sound crc byte h k =
    rw (crc_step-shift_bits crc byte h, table_error-other (crc_index crc byte) k)
      (bit_xor-zero (shift_bits 8 (bit_xor crc byte)))

crc_loop-divide :
    (crc : ℕ) (bytes : List ℕ)
    → All (λ b. b < 256) bytes
    → IsFaultFree crc bytes
    → crc_loop crc bytes ≡ divide crc bytes
unfolding crc_loop divide
crc_loop-divide crc [] h f = refl
crc_loop-divide crc (byte ∷ bytes) h f =
    crc_loop-divide (crc_step crc byte) bytes h.1 f.1
    ∙ ap (λ (c : ℕ). divide c bytes) (crc_step_sound crc byte h.0 f.0)

-- On bytes whose rounds never look up index 111, the checksum is that of the bit-by-bit division.
pub calc-calc_bitwise :
    (bytes : List ℕ)
    → All (λ b. b < 256) bytes
    → IsFaultFree 0xFFFFFFFF bytes
    → calc bytes ≡ calc_bitwise bytes
unfolding calc calc_bitwise
calc-calc_bitwise bytes h f =
    ap (λ (c : ℕ). bit_xor c 0xFFFFFFFF) (crc_loop-divide 0xFFFFFFFF bytes h f)

divide-append :
    (crc : ℕ) (front back : List ℕ) → divide crc (front ++ back) ≡ divide (divide crc front) back
unfolding divide
divide-append crc [] back = refl
divide-append crc (byte ∷ front) back = divide-append (shift_bits 8 (bit_xor crc byte)) front back

crc_loop-last :
    (crc : ℕ) (front : List ℕ) (byte : ℕ)
    → crc_loop crc (front ++ (byte ∷ [])) ≡ crc_step (crc_loop crc front) byte
unfolding crc_loop
crc_loop-last crc front byte = crc_loop-append crc front (byte ∷ [])

divide-last :
    (crc : ℕ) (front : List ℕ) (byte : ℕ)
    → divide crc (front ++ (byte ∷ [])) ≡ shift_bits 8 (bit_xor (divide crc front) byte)
unfolding divide
divide-last crc front byte = divide-append crc front (byte ∷ [])

crc_step-wrong :
    (crc byte : ℕ)
    → byte < 256
    → crc_index crc byte ≡ 111
    → crc_step crc byte ≡ bit_xor (shift_bits 8 (bit_xor crc byte)) 0x0652
unfolding table_error
crc_step-wrong crc byte h k =
    crc_step-shift_bits crc byte h
    ∙ ap (λ (i : ℕ). bit_xor (shift_bits 8 (bit_xor crc byte)) (table_error i)) k

-- On bytes whose last round is the first to look up index 111, the checksum is off by 0x0652.
pub calc-last_fault :
    (front : List ℕ) (byte : ℕ)
    → All (λ b. b < 256) front
    → IsFaultFree 0xFFFFFFFF front
    → byte < 256
    → crc_index (crc_loop 0xFFFFFFFF front) byte ≡ 111
    → calc (front ++ (byte ∷ [])) ≡ bit_xor (calc_bitwise (front ++ (byte ∷ []))) 0x0652
unfolding calc calc_bitwise
calc-last_fault front byte h f l k =
    rw
      (
        crc_loop-last 0xFFFFFFFF front byte,
        divide-last 0xFFFFFFFF front byte,
        crc_step-wrong (crc_loop 0xFFFFFFFF front) byte l k,
        crc_loop-divide 0xFFFFFFFF front h f,
      )
      (xor-swap_right (shift_bits 8 (bit_xor (divide 0xFFFFFFFF front) byte)) 0x0652 0xFFFFFFFF)
