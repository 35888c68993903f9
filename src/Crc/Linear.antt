-- ===== src/Crc/Linear.antt =====
-- Division by the polynomial of src/zrtools/zrt_crc32.h is linear, bit by bit and byte by byte.
use zrtools.Prelude.{
  ◌⊎◌, ℕ, zero, suc, ◌%◌, ◌*◌, ◌/◌, ◌^◌, ◌≡◌, refl, sym, ap, arith, bit_xor, inl, inr,
}
use native.Mathlib.Nat.{pow-suc}
use zrtools.Crc.Reference.{polynomial, shift_out, shift_bits}
use zrtools.Crc.Xor.{bit_xor-half, bit_xor-parity, bit_xor_comm, bit_xor_assoc, bit_xor-cancel}

pub shift_out-even : (crc : ℕ) → crc % 2 ≡ 0 → shift_out crc ≡ crc / 2
unfolding shift_out
shift_out-even crc h = ground arith

pub shift_out-odd : (crc : ℕ) → crc % 2 ≡ 1 → shift_out crc ≡ bit_xor (crc / 2) polynomial
unfolding shift_out
shift_out-odd crc h = ground arith

-- The four cases of the two digits.
pub xor-swap_right : (a b c : ℕ) → bit_xor (bit_xor a b) c ≡ bit_xor (bit_xor a c) b
xor-swap_right a b c = rw (bit_xor_assoc a b c, bit_xor_comm b c, sym (bit_xor_assoc a c b)) refl

xor-both : (a b c : ℕ) → bit_xor (bit_xor a c) (bit_xor b c) ≡ bit_xor a b
xor-both a b c =
    rw (bit_xor_comm b c, sym (bit_xor_assoc (bit_xor a c) c b), bit_xor-cancel a c) refl

digit_cases : (n : ℕ) → (n % 2 ≡ 0) ⊎ (n % 2 ≡ 1)
digit_cases n = grind arith

-- The division is linear.
by_digits :
    (a b : ℕ)
    → (a % 2 ≡ 0) ⊎ (a % 2 ≡ 1)
    → (b % 2 ≡ 0) ⊎ (b % 2 ≡ 1)
    → shift_out (bit_xor a b) ≡ bit_xor (shift_out a) (shift_out b)
by_digits a b (inl e) (inl f) =
    let even : bit_xor a b % 2 ≡ 0 = omega (arith, bit_xor-parity a b) in
    rw (shift_out-even (bit_xor a b) even, shift_out-even a e, shift_out-even b f)
      (bit_xor-half a b)
by_digits a b (inl e) (inr f) =
    let odd : bit_xor a b % 2 ≡ 1 = omega (arith, bit_xor-parity a b) in
    rw (shift_out-odd (bit_xor a b) odd, shift_out-even a e, shift_out-odd b f, bit_xor-half a b)
      (bit_xor_assoc (a / 2) (b / 2) polynomial)
by_digits a b (inr e) (inl f) =
    let odd : bit_xor a b % 2 ≡ 1 = omega (arith, bit_xor-parity a b) in
    rw (shift_out-odd (bit_xor a b) odd, shift_out-odd a e, shift_out-even b f, bit_xor-half a b)
      (xor-swap_right (a / 2) (b / 2) polynomial)
by_digits a b (inr e) (inr f) =
    let even : bit_xor a b % 2 ≡ 0 = omega (arith, bit_xor-parity a b) in
    rw (shift_out-even (bit_xor a b) even, shift_out-odd a e, shift_out-odd b f, bit_xor-half a b)
      (sym (xor-both (a / 2) (b / 2) polynomial))

pub shift_out-bit_xor : (a b : ℕ) → shift_out (bit_xor a b) ≡ bit_xor (shift_out a) (shift_out b)
shift_out-bit_xor a b = by_digits a b (digit_cases a) (digit_cases b)

pub shift_bits-bit_xor :
    (n a b : ℕ) → shift_bits n (bit_xor a b) ≡ bit_xor (shift_bits n a) (shift_bits n b)
unfolding shift_bits
shift_bits-bit_xor zero a b = refl
shift_bits-bit_xor (suc n) a b =
    rw (shift_out-bit_xor a b) (shift_bits-bit_xor n (shift_out a) (shift_out b))

-- Bits that are clear leave one by one.
pub shift_bits-shifted : (n q : ℕ) → shift_bits n (q * 2 ^ n) ≡ q
unfolding shift_bits
shift_bits-shifted zero q = omega arith
shift_bits-shifted (suc n) q =
    let even : q * 2 ^ suc n % 2 ≡ 0 = ground (arith, ap (λ (t : ℕ). q * t) (pow-suc 2 n)) in
    let half : q * 2 ^ suc n / 2 ≡ q * 2 ^ n =
      ground (arith, ap (λ (t : ℕ). q * t) (pow-suc 2 n)) in
    rw (shift_out-even (q * 2 ^ suc n) even, half) (shift_bits-shifted n q)
