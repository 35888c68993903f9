-- ===== src/Crc/Chunks.antt =====
-- src/zrtools/zrt_crc32.h: the checksum of data that arrives in parts, through `Crc32::Update`.
use zrtools.Prelude.{
  ℕ, zero, suc, ◌-◌, ◌<◌, ◌/◌, ◌^◌, ◌≡◌, refl, Bool, true, ◌&&◌, List, [], ◌∷◌, ◌++◌, arith,
  bit_and, bit_xor, ltb, get_or, if◌then◌else◌, ◌==◌,
}
use zrtools.Crc.Table.{crc_table}
use zrtools.Crc.Calc.{crc_step, crc_loop, calc, complement, update}
use zrtools.Crc.Xor.{bit_xor-lt, bit_xor-ones, bit_xor-cancel}

-- Every number of a list is below a bound.
unfoldable pub all_below : ℕ → List ℕ → Bool
all_below n [] = true
all_below n (x ∷ xs) = ltb x n && all_below n xs

pub get_or-lt : (n : ℕ) (xs : List ℕ) (i : ℕ) → 0 < n → all_below n xs ≡ true → get_or xs i 0 < n
unfolding all_below
get_or-lt n [] i p h = p
get_or-lt n (x ∷ xs) zero p h = ground arith
get_or-lt n (x ∷ xs) (suc i) p h = get_or-lt n xs i p (ground arith)

table_in_range : all_below (2 ^ 32) crc_table ≡ true
unfolding all_below crc_table
table_in_range = refl

pub crc_table-lt : (i : ℕ) → get_or crc_table i 0 < 2 ^ 32
crc_table-lt i = get_or-lt (2 ^ 32) crc_table i (omega arith) table_in_range

pub crc_step-lt : (crc byte : ℕ) → crc < 2 ^ 32 → crc_step crc byte < 2 ^ 32
unfolding crc_step
crc_step-lt crc byte h =
    bit_xor-lt 32 (get_or crc_table (bit_and (bit_xor crc byte) 0xFF) 0) (crc / 2 ^ 8)
      (crc_table-lt (bit_and (bit_xor crc byte) 0xFF)) (omega arith)

pub crc_loop-lt : (crc : ℕ) (bytes : List ℕ) → crc < 2 ^ 32 → crc_loop crc bytes < 2 ^ 32
unfolding crc_loop
crc_loop-lt crc [] h = h
crc_loop-lt crc (byte ∷ bytes) h = crc_loop-lt (crc_step crc byte) bytes (crc_step-lt crc byte h)

pub crc_loop-append :
    (crc : ℕ) (front back : List ℕ)
    → crc_loop crc (front ++ back) ≡ crc_loop (crc_loop crc front) back
unfolding crc_loop
crc_loop-append crc [] back = refl
crc_loop-append crc (byte ∷ front) back = crc_loop-append (crc_step crc byte) front back

pub calc-lt : (bytes : List ℕ) → calc bytes < 2 ^ 32
unfolding calc
calc-lt bytes =
    bit_xor-lt 32 (crc_loop 0xFFFFFFFF bytes) 0xFFFFFFFF
      (crc_loop-lt 0xFFFFFFFF bytes (omega arith)) (omega arith)

-- Both cases of the ternary invert the word.
restart : (crc : ℕ) → (if crc == 0 then 0xFFFFFFFF else complement crc) ≡ 0xFFFFFFFF - crc
restart crc = ground arith

-- The inverted checksum is the register of the loop.
pub register : (bytes : List ℕ) → 0xFFFFFFFF - calc bytes ≡ crc_loop 0xFFFFFFFF bytes
unfolding calc
register bytes =
    let inverse = bit_xor-cancel (crc_loop 0xFFFFFFFF bytes) 0xFFFFFFFF in
    omega (arith, inverse, bit_xor-ones 32 (calc bytes) (calc-lt bytes))

-- The checksum of a text is the checksum of its front, updated by its back.
pub update-calc : (front back : List ℕ) → update (calc front) back ≡ calc (front ++ back)
unfolding update calc
update-calc front back =
    rw (restart (calc front), register front, crc_loop-append 0xFFFFFFFF front back) refl
