-- ===== src/Crc/Xor.antt =====
-- Laws of `^` at every width, from one equation for the lowest digit.
use Prim.Native.Nat.{differ, bit_xor-bitwise}
use zrtools.Prelude.{
  ℕ, zero, suc, ◌+◌, ◌-◌, ◌*◌, ◌/◌, ◌%◌, ◌^◌, ◌≤◌, ◌<◌, ◌≡◌, refl, arith, bit_xor, sym, ◌∙◌, ap,
  ap₂,
}
use zrtools.Prelude.Bits.{digits-enough, mod-two-pow-suc, div-two-pow-suc}
use native.Mathlib.Nat.{pow-suc, one-le-pow}

pub bit_xor-halves : (a b : ℕ) → bit_xor a b ≡ bit_xor (a / 2) (b / 2) * 2 + differ (a % 2) (b % 2)
bit_xor-halves zero b = omega (arith, bit_xor-bitwise 0 b, bit_xor-bitwise 0 (b / 2))
bit_xor-halves (suc a) b = omega (
  arith,
  bit_xor-bitwise (suc a) b,
  bit_xor-bitwise (suc a / 2) (b / 2),
  digits-enough (λ c. c) differ a (suc a / 2) (suc a / 2) (b / 2) (omega arith) (omega arith),
)

differ-digits : (x y : ℕ) → x < 2 → y < 2 → differ x y ≡ (x + y) % 2
differ-digits zero y h k = omega arith
differ-digits (suc zero) zero h k = omega arith
differ-digits (suc zero) (suc zero) h k = omega arith
differ-digits (suc zero) (suc (suc y)) h k = absurd (omega arith)
differ-digits (suc (suc x)) y h k = absurd (omega arith)

pub bit_xor-half : (a b : ℕ) → bit_xor a b / 2 ≡ bit_xor (a / 2) (b / 2)
bit_xor-half a b =
    omega (arith, bit_xor-halves a b, differ-digits (a % 2) (b % 2) (omega arith) (omega arith))

pub bit_xor-parity : (a b : ℕ) → bit_xor a b % 2 ≡ (a + b) % 2
bit_xor-parity a b =
    omega (arith, bit_xor-halves a b, differ-digits (a % 2) (b % 2) (omega arith) (omega arith))

eq_of_digit : (x y : ℕ) → x / 2 ≡ y / 2 → x % 2 ≡ y % 2 → x ≡ y
eq_of_digit x y h k = omega arith

comm_below : (n a b : ℕ) → a ≤ n → b ≤ n → bit_xor a b ≡ bit_xor b a
comm_below zero zero zero h k = refl
comm_below zero zero (suc b) h k = absurd (omega arith)
comm_below zero (suc a) b h k = absurd (omega arith)
comm_below (suc n) a b h k =
    eq_of_digit _ _
      (bit_xor-half a b
        ∙ comm_below n (a / 2) (b / 2) (omega arith) (omega arith)
        ∙ sym (bit_xor-half b a))
      (omega (arith, bit_xor-parity a b, bit_xor-parity b a))

pub bit_xor_comm : (a b : ℕ) → bit_xor a b ≡ bit_xor b a
bit_xor_comm a b = comm_below (a + b) a b (omega arith) (omega arith)

assoc_below :
    (n a b c : ℕ) → a ≤ n → b ≤ n → c ≤ n → bit_xor (bit_xor a b) c ≡ bit_xor a (bit_xor b c)
assoc_below zero zero zero zero h k l = refl
assoc_below zero zero zero (suc c) h k l = absurd (omega arith)
assoc_below zero zero (suc b) c h k l = absurd (omega arith)
assoc_below zero (suc a) b c h k l = absurd (omega arith)
assoc_below (suc n) a b c h k l =
    eq_of_digit _ _
      (rw
        (
          bit_xor-half (bit_xor a b) c,
          bit_xor-half a b,
          bit_xor-half a (bit_xor b c),
          bit_xor-half b c,
        )
        (assoc_below n (a / 2) (b / 2) (c / 2) (omega arith) (omega arith) (omega arith)))
      (omega (
        arith,
        bit_xor-parity (bit_xor a b) c,
        bit_xor-parity a b,
        bit_xor-parity a (bit_xor b c),
        bit_xor-parity b c,
      ))

pub bit_xor_assoc : (a b c : ℕ) → bit_xor (bit_xor a b) c ≡ bit_xor a (bit_xor b c)
bit_xor_assoc a b c = assoc_below (a + b + c) a b c (omega arith) (omega arith) (omega arith)

self_below : (n a : ℕ) → a ≤ n → bit_xor a a ≡ 0
self_below zero zero h = refl
self_below zero (suc a) h = absurd (omega arith)
self_below (suc n) a h =
    eq_of_digit _ _ (bit_xor-half a a ∙ self_below n (a / 2) (omega arith))
      (omega (arith, bit_xor-parity a a))

pub bit_xor_self : (a : ℕ) → bit_xor a a ≡ 0
bit_xor_self a = self_below a a (omega arith)

pub zero-bit_xor : (a : ℕ) → bit_xor 0 a ≡ a
zero-bit_xor a = bit_xor-bitwise 0 a

pub bit_xor-zero : (a : ℕ) → bit_xor a 0 ≡ a
bit_xor-zero a = bit_xor_comm a 0 ∙ zero-bit_xor a

-- Twice the same word changes nothing.
pub bit_xor-cancel : (a b : ℕ) → bit_xor (bit_xor a b) b ≡ a
bit_xor-cancel a b = rw (bit_xor_assoc a b b, bit_xor_self b) (bit_xor-zero a)

pub bit_xor-lt : (k a b : ℕ) → a < 2 ^ k → b < 2 ^ k → bit_xor a b < 2 ^ k
bit_xor-lt zero zero zero h l = omega arith
bit_xor-lt zero zero (suc b) h l = absurd (omega arith)
bit_xor-lt zero (suc a) b h l = absurd (omega arith)
bit_xor-lt (suc k) a b h l = omega (
  arith,
  pow-suc 2 k,
  bit_xor-half a b,
  bit_xor-lt k (a / 2) (b / 2) (omega (arith, pow-suc 2 k)) (omega (arith, pow-suc 2 k)),
)

-- Against a word of ones it is the complement.
pub bit_xor-ones : (k a : ℕ) → a < 2 ^ k → bit_xor a (2 ^ k - 1) ≡ 2 ^ k - 1 - a
bit_xor-ones zero zero h = refl
bit_xor-ones zero (suc a) h = absurd (omega arith)
bit_xor-ones (suc k) a h =
    let half : (2 ^ suc k - 1) / 2 ≡ 2 ^ k - 1 = omega (arith, pow-suc 2 k, one-le-pow k 2) in
    omega (
      arith,
      pow-suc 2 k,
      one-le-pow k 2,
      bit_xor-parity a (2 ^ suc k - 1),
      bit_xor-half a (2 ^ suc k - 1) ∙ ap (bit_xor (a / 2)) half,
      bit_xor-ones k (a / 2) (omega (arith, pow-suc 2 k)),
    )

-- The words above and below a shift.
pub bit_xor-quotient : (k a b : ℕ) → bit_xor a b / 2 ^ k ≡ bit_xor (a / 2 ^ k) (b / 2 ^ k)
bit_xor-quotient zero a b =
    let one : (n : ℕ) → n / 2 ^ 0 ≡ n = λ n. omega arith in
    rw (one (bit_xor a b), one a, one b) refl
bit_xor-quotient (suc k) a b =
    rw (div-two-pow-suc (bit_xor a b) k, div-two-pow-suc a k, div-two-pow-suc b k, bit_xor-half a b)
      (bit_xor-quotient k (a / 2) (b / 2))

pub bit_xor-remainder : (k a b : ℕ) → bit_xor a b % 2 ^ k ≡ bit_xor (a % 2 ^ k) (b % 2 ^ k)
bit_xor-remainder zero a b =
    let one : (n : ℕ) → n % 2 ^ 0 ≡ 0 = λ n. omega arith in
    rw (one (bit_xor a b), one a, one b) refl
bit_xor-remainder (suc k) a b =
    eq_of_digit _ _
      (omega (
        arith,
        mod-two-pow-suc (bit_xor a b) k,
        ap (λ (t : ℕ). t % 2 ^ k) (bit_xor-half a b),
        bit_xor-remainder k (a / 2) (b / 2),
        bit_xor-half (a % 2 ^ suc k) (b % 2 ^ suc k)
            ∙ ap₂ bit_xor (half_remainder a) (half_remainder b),
      ))
      (omega (
        arith,
        mod-two-pow-suc (bit_xor a b) k,
        mod-two-pow-suc a k,
        mod-two-pow-suc b k,
        bit_xor-parity a b,
        bit_xor-parity (a % 2 ^ suc k) (b % 2 ^ suc k),
      ))
  where
    half_remainder : (n : ℕ) → n % 2 ^ suc k / 2 ≡ n / 2 % 2 ^ k
    half_remainder n = omega (arith, mod-two-pow-suc n k)

-- A word is the sum of the parts at a shift, which are also apart.
pub bit_xor-parts : (k hi lo : ℕ) → lo < 2 ^ k → bit_xor (hi * 2 ^ k) lo ≡ hi * 2 ^ k + lo
bit_xor-parts zero hi lo h = ground (arith, bit_xor-zero hi)
bit_xor-parts (suc k) hi lo h =
    eq_of_digit _ _
      (omega (
        arith,
        bit_xor-half (hi * 2 ^ suc k) lo ∙ ap (λ (t : ℕ). bit_xor t (lo / 2)) shifted,
        bit_xor-parts k hi (lo / 2) (omega (arith, pow-suc 2 k)),
        twice,
      ))
      (omega (arith, bit_xor-parity (hi * 2 ^ suc k) lo))
  where
    twice : hi * 2 ^ suc k ≡ hi * 2 ^ k * 2
    twice = omega (arith, ap (λ (t : ℕ). hi * t) (pow-suc 2 k))

    shifted : hi * 2 ^ suc k / 2 ≡ hi * 2 ^ k
    shifted = omega (arith, twice)
