-- ===== src/Crc/Division.antt =====
-- src/zrtools/zrt_crc32.h: one round of the loop over the table against eight bits of the division.
use zrtools.Prelude.{
  ℕ, zero, suc, ◌%◌, ◌*◌, ◌/◌, ◌^◌, ◌≡◌, ◌<◌, ◌+◌, refl, sym, ap, arith, bit_xor, Bool, true, ◌&&◌,
  List, [], ◌∷◌, get_or, length, if◌then◌else◌, ◌==◌, ◌∙◌,
}
use zrtools.Prelude.Bits.{bit_and-low_mask}
use zrtools.Crc.Table.{crc_table}
use zrtools.Crc.Calc.{crc_step}
use zrtools.Crc.Reference.{shift_out, shift_bits}
use native.Mathlib.Nat.{one-le-pow, mod-lt, div-add-mod'}
use zrtools.Crc.Linear.{xor-swap_right, shift_bits-bit_xor, shift_bits-shifted}
use zrtools.Crc.Xor.{bit_xor_comm, bit_xor-zero, bit_xor-quotient, bit_xor-parts}

-- What the entry at an index adds to the division.
unfoldable pub table_error : ℕ → ℕ
table_error i = if i == 111 then 0x0652 else 0

-- The table from its index `i` on.
unfoldable divided_from : ℕ → List ℕ → Bool
divided_from i [] = true
divided_from i (x ∷ xs) = (x == bit_xor (shift_bits 8 i) (table_error i)) && divided_from (suc i) xs

table_divided : divided_from 0 crc_table ≡ true
unfolding divided_from crc_table shift_bits shift_out table_error
table_divided = refl

get_or-divided :
    (i k : ℕ) (xs : List ℕ)
    → divided_from i xs ≡ true
    → k < length xs
    → get_or xs k 0 ≡ bit_xor (shift_bits 8 (i + k)) (table_error (i + k))
unfolding divided_from
get_or-divided i k [] h l = absurd (omega arith)
get_or-divided i zero (x ∷ xs) h l = let here : i + 0 ≡ i = omega arith in rw here (ground arith)
get_or-divided i (suc k) (x ∷ xs) h l =
    let next : i + suc k ≡ suc i + k = omega arith in
    rw next (get_or-divided (suc i) k xs (ground arith) (omega arith))

pub length-crc_table : length crc_table ≡ 256
unfolding crc_table
length-crc_table = refl

pub get_or-crc_table :
    (i : ℕ) → i < 256 → get_or crc_table i 0 ≡ bit_xor (shift_bits 8 i) (table_error i)
get_or-crc_table i h =
    get_or-divided 0 i crc_table table_divided (omega (arith, length-crc_table))
    ∙ ap (λ (t : ℕ). bit_xor (shift_bits 8 t) (table_error t)) (omega arith)

-- Eight bits of the division: the low byte is divided and joins the rest.
pub shift_bits-word :
    (n word : ℕ) → shift_bits n word ≡ bit_xor (shift_bits n (word % 2 ^ n)) (word / 2 ^ n)
shift_bits-word n word =
    ap (shift_bits n) whole
    ∙ shift_bits-bit_xor n (word / 2 ^ n * 2 ^ n) (word % 2 ^ n)
    ∙ ap (λ (t : ℕ). bit_xor t (shift_bits n (word % 2 ^ n))) (shift_bits-shifted n (word / 2 ^ n))
    ∙ bit_xor_comm (word / 2 ^ n) (shift_bits n (word % 2 ^ n))
  where
    whole : word ≡ bit_xor (word / 2 ^ n * 2 ^ n) (word % 2 ^ n)
    whole = sym (
        bit_xor-parts n (word / 2 ^ n) (word % 2 ^ n) (mod-lt word (one-le-pow n 2 (omega arith)))
        ∙ div-add-mod' word (2 ^ n))

-- The index that a round looks up.
abbrev pub crc_index : ℕ → ℕ → ℕ
crc_index crc byte = bit_xor crc byte % 2 ^ 8

pub crc_step-index :
    (crc byte : ℕ)
    → crc_step crc byte ≡ bit_xor (get_or crc_table (crc_index crc byte) 0) (crc / 2 ^ 8)
unfolding crc_step
crc_step-index crc byte =
    ap (λ (i : ℕ). bit_xor (get_or crc_table i 0) (crc / 2 ^ 8))
      (bit_and-low_mask 8 (bit_xor crc byte))

crc_index-lt : (crc byte : ℕ) → crc_index crc byte < 256
crc_index-lt crc byte = omega arith

byte-quotient : (crc byte : ℕ) → byte < 256 → bit_xor crc byte / 2 ^ 8 ≡ crc / 2 ^ 8
byte-quotient crc byte h =
    let none_left : byte / 2 ^ 8 ≡ 0 = omega arith in
    bit_xor-quotient 8 crc byte ∙ ap (bit_xor (crc / 2 ^ 8)) none_left ∙ bit_xor-zero (crc / 2 ^ 8)

-- A round of the loop is a byte of the division, plus the error of the entry it looks up.
pub crc_step-shift_bits :
    (crc byte : ℕ)
    → byte < 256
    → crc_step crc byte
      ≡ bit_xor (shift_bits 8 (bit_xor crc byte)) (table_error (bit_xor crc byte % 2 ^ 8))
crc_step-shift_bits crc byte h =
    rw
      (
        crc_step-index crc byte,
        get_or-crc_table (crc_index crc byte) (crc_index-lt crc byte),
        shift_bits-word 8 (bit_xor crc byte),
        byte-quotient crc byte h,
      )
      (xor-swap_right (shift_bits 8 (crc_index crc byte)) (table_error (crc_index crc byte))
        (crc / 2 ^ 8))
