-- ===== src/Crc/Damage.antt =====
-- src/zrtools/zrt_crc32.h: what `Crc32::Verify` finds. A round is undone by the highest byte of the
-- entry that it looked up.
use zrtools.Prelude.{
  ◌↔◌, ==_iff, ℕ, zero, suc, ◌+◌, ◌/◌, ◌%◌, ◌^◌, ◌≡◌, ◌<◌, ◌∙◌, sym, refl, ap, arith, bit_xor, Bool,
  true, ◌&&◌, List, [], ◌∷◌, ◌++◌, get_or, length, if◌then◌else◌, ◌==◌,
}
use zrtools.Crc.Table.{crc_table}
use zrtools.Crc.Calc.{crc_step, crc_loop, calc, verify}
use zrtools.Crc.Division.{crc_index, crc_step-index, length-crc_table}
use zrtools.Crc.Chunks.{crc_loop-append, crc_loop-lt, crc_step-lt}
use zrtools.Crc.Xor.{
  bit_xor-cancel, bit_xor_comm, bit_xor-zero, bit_xor-quotient, bit_xor-remainder,
}

-- The first entry with a highest byte.
unfoldable index_of : ℕ → List ℕ → ℕ
index_of top [] = 0
index_of top (x ∷ xs) = let rest = index_of top xs in if x / 2 ^ 24 == top then 0 else suc rest

unfoldable indexed_from : ℕ → List ℕ → Bool
indexed_from i [] = true
indexed_from i (x ∷ xs) = (index_of (x / 2 ^ 24) crc_table == i) && indexed_from (suc i) xs

table_indexed : indexed_from 0 crc_table ≡ true
unfolding indexed_from index_of crc_table
table_indexed = refl

get_or-indexed :
    (i k : ℕ) (xs : List ℕ)
    → indexed_from i xs ≡ true
    → k < length xs
    → index_of (get_or xs k 0 / 2 ^ 24) crc_table ≡ i + k
unfolding indexed_from
get_or-indexed i k [] h l = absurd (omega arith)
get_or-indexed i zero (x ∷ xs) h l = ground arith
get_or-indexed i (suc k) (x ∷ xs) h l =
    get_or-indexed (suc i) k xs (ground arith) (omega arith) ∙ omega arith

-- The highest byte of the register is that of the entry looked up.
crc_step-top :
    (crc byte : ℕ)
    → crc < 2 ^ 32
    → crc_step crc byte / 2 ^ 24 ≡ get_or crc_table (crc_index crc byte) 0 / 2 ^ 24
crc_step-top crc byte h =
    let shifted_out : crc / 2 ^ 8 / 2 ^ 24 ≡ 0 = omega arith in
    let entry = get_or crc_table (crc_index crc byte) 0 in
    ap (λ (c : ℕ). c / 2 ^ 24) (crc_step-index crc byte)
    ∙ bit_xor-quotient 24 entry (crc / 2 ^ 8)
    ∙ ap (bit_xor (entry / 2 ^ 24)) shifted_out
    ∙ bit_xor-zero (entry / 2 ^ 24)

index_of-crc_step :
    (crc byte : ℕ)
    → crc < 2 ^ 32
    → index_of (crc_step crc byte / 2 ^ 24) crc_table ≡ crc_index crc byte
index_of-crc_step crc byte h =
    ap (λ (t : ℕ). index_of t crc_table) (crc_step-top crc byte h)
    ∙ get_or-indexed 0 (crc_index crc byte) crc_table table_indexed
        (omega (arith, length-crc_table))
    ∙ omega arith

index_unique :
    (crc crc' byte byte' : ℕ)
    → crc < 2 ^ 32
    → crc' < 2 ^ 32
    → crc_step crc byte ≡ crc_step crc' byte'
    → crc_index crc byte ≡ crc_index crc' byte'
index_unique crc crc' byte byte' h h' e =
    sym (index_of-crc_step crc byte h)
    ∙ ap (λ (c : ℕ). index_of (c / 2 ^ 24) crc_table) e
    ∙ index_of-crc_step crc' byte' h'

xor_injective_right : (a b c : ℕ) → bit_xor a b ≡ bit_xor a c → b ≡ c
xor_injective_right a b c e =
    sym (bit_xor-cancel b a)
    ∙ ap (λ (t : ℕ). bit_xor t a) (bit_xor_comm b a ∙ e ∙ bit_xor_comm a c)
    ∙ bit_xor-cancel c a

xor_injective_left : (a b c : ℕ) → bit_xor b a ≡ bit_xor c a → b ≡ c
xor_injective_left a b c e = xor_injective_right a b c (bit_xor_comm a b ∙ e ∙ bit_xor_comm c a)

-- A round tells two registers apart.
crc_step_injective :
    (crc crc' byte : ℕ)
    → crc < 2 ^ 32
    → crc' < 2 ^ 32
    → crc_step crc byte ≡ crc_step crc' byte
    → crc ≡ crc'
crc_step_injective crc crc' byte h h' e =
    let same = index_unique crc crc' byte byte h h' e in
    let low : crc % 2 ^ 8 ≡ crc' % 2 ^ 8 =
      xor_injective_left (byte % 2 ^ 8) (crc % 2 ^ 8) (crc' % 2 ^ 8)
        (sym (bit_xor-remainder 8 crc byte) ∙ same ∙ bit_xor-remainder 8 crc' byte) in
    let high : crc / 2 ^ 8 ≡ crc' / 2 ^ 8 =
      xor_injective_right (get_or crc_table (crc_index crc byte) 0) (crc / 2 ^ 8) (crc' / 2 ^ 8) (
        sym (crc_step-index crc byte)
        ∙ e
        ∙ crc_step-index crc' byte
        ∙ ap (λ (i : ℕ). bit_xor (get_or crc_table i 0) (crc' / 2 ^ 8)) (sym same)) in
    omega arith

-- A round tells two bytes apart.
byte_injective :
    (crc byte byte' : ℕ)
    → crc < 2 ^ 32
    → byte < 256
    → byte' < 256
    → crc_step crc byte ≡ crc_step crc byte'
    → byte ≡ byte'
byte_injective crc byte byte' h l l' e =
    let same = index_unique crc crc byte byte' h h e in
    let low : byte % 2 ^ 8 ≡ byte' % 2 ^ 8 =
      xor_injective_right (crc % 2 ^ 8) (byte % 2 ^ 8) (byte' % 2 ^ 8)
        (sym (bit_xor-remainder 8 crc byte) ∙ same ∙ bit_xor-remainder 8 crc byte') in
    omega arith

crc_loop_injective :
    (crc crc' : ℕ) (bytes : List ℕ)
    → crc < 2 ^ 32
    → crc' < 2 ^ 32
    → crc_loop crc bytes ≡ crc_loop crc' bytes
    → crc ≡ crc'
unfolding crc_loop
crc_loop_injective crc crc' [] h h' e = e
crc_loop_injective crc crc' (byte ∷ bytes) h h' e = crc_step_injective crc crc' byte h h' (
    crc_loop_injective (crc_step crc byte) (crc_step crc' byte) bytes (crc_step-lt crc byte h)
      (crc_step-lt crc' byte h') e)

crc_loop-middle :
    (crc : ℕ) (front back : List ℕ) (byte : ℕ)
    → crc_loop crc (front ++ (byte ∷ back)) ≡ crc_loop (crc_step (crc_loop crc front) byte) back
unfolding crc_loop
crc_loop-middle crc front back byte = crc_loop-append crc front (byte ∷ back)

calc-one_byte :
    (front back : List ℕ) (byte damaged : ℕ)
    → byte < 256
    → damaged < 256
    → calc (front ++ (damaged ∷ back)) ≡ calc (front ++ (byte ∷ back))
    → damaged ≡ byte
unfolding calc
calc-one_byte front back byte damaged h h' e =
    let crc = crc_loop 0xFFFFFFFF front in
    let bound = crc_loop-lt 0xFFFFFFFF front (omega arith) in
    byte_injective crc damaged byte bound h' h (
      crc_loop_injective (crc_step crc damaged) (crc_step crc byte) back
        (crc_step-lt crc damaged bound) (crc_step-lt crc byte bound)
        (sym (crc_loop-middle 0xFFFFFFFF front back damaged)
          ∙ xor_injective_left 0xFFFFFFFF _ _ e
          ∙ crc_loop-middle 0xFFFFFFFF front back byte))

-- Data in which one byte is damaged does not pass, and undamaged data does.
pub verify-damaged :
    (front back : List ℕ) (byte damaged : ℕ)
    → byte < 256
    → damaged < 256
    → (verify (front ++ (damaged ∷ back)) (calc (front ++ (byte ∷ back))) ≡ true) ↔ (damaged ≡ byte)
unfolding verify
verify-damaged front back byte damaged h h' = (
  (λ e. calc-one_byte front back byte damaged h h' ((==_iff _ _).0 e)),
  (λ e. (==_iff _ _).1 (ap (λ (b : ℕ). calc (front ++ (b ∷ back))) e)),
)
