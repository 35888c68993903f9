-- ===== src/Prelude/Bits.antt =====
-- Masks and disjoint fields of machine words as remainders and sums. The libraries state no law of
-- `bit_and` and `bit_or` at variables, so one equation for the lowest digit comes first.
use Prim.Native.Nat.{
  ℕ, zero, suc, ◌+◌, ◌-◌, ◌*◌, ◌/◌, ◌%◌, ◌^◌, ◌≤◌, ◌<◌, min, max, bit_and, bit_or, digits,
  bit_and-bitwise, bit_or-bitwise,
}
use mathlib.Core.Path.{◌≡◌, refl, ap, ◌∙◌}
use mathlib.Core.WellFounded
use native.Mathlib.Omega.{arith}
use native.Mathlib.Nat.{
  add-zero, pow-suc, one-le-pow, mul-add-mod_self_right, mod-eq_of_lt, mul-add-div_right,
  div-eq_of_lt, div-add-mod', mod-lt,
}
use zrtools.Prelude.Order.{lt_wf}

module _ (empty : ℕ → ℕ) (digit : ℕ → ℕ → ℕ) where
  -- Fuel beyond the first number does not matter.
  pub digits-enough :
      (n m a b : ℕ) → a ≤ n → a ≤ m → digits empty digit n a b ≡ digits empty digit m a b
  digits-enough zero zero a b p q = refl
  digits-enough (suc n) zero zero b p q = refl
  digits-enough (suc n) zero (suc a) b p q = absurd (omega arith)
  digits-enough zero (suc m) zero b p q = refl
  digits-enough zero (suc m) (suc a) b p q = absurd (omega arith)
  digits-enough (suc n) (suc m) zero b p q = refl
  digits-enough (suc n) (suc m) (suc a) b p q =
      let half : suc a / 2 ≤ n = omega arith in
      let half' : suc a / 2 ≤ m = omega arith in
      rw (digits-enough n m (suc a / 2) (b / 2) half half')

pub bit_and-halves : (a b : ℕ) → bit_and a b ≡ bit_and (a / 2) (b / 2) * 2 + min (a % 2) (b % 2)
bit_and-halves zero b = omega (arith, bit_and-bitwise 0 b, bit_and-bitwise 0 (b / 2))
bit_and-halves (suc a) b = omega (
  arith,
  bit_and-bitwise (suc a) b,
  bit_and-bitwise (suc a / 2) (b / 2),
  digits-enough (λ c. 0) min a (suc a / 2) (suc a / 2) (b / 2) (omega arith) (omega arith),
)

pub bit_or-halves : (a b : ℕ) → bit_or a b ≡ bit_or (a / 2) (b / 2) * 2 + max (a % 2) (b % 2)
bit_or-halves zero b = omega (arith, bit_or-bitwise 0 b, bit_or-bitwise 0 (b / 2))
bit_or-halves (suc a) b = omega (
  arith,
  bit_or-bitwise (suc a) b,
  bit_or-bitwise (suc a / 2) (b / 2),
  digits-enough (λ c. c) max a (suc a / 2) (suc a / 2) (b / 2) (omega arith) (omega arith),
)

bit_and-zero_lem : (a : ℕ) → bit_and a 0 ≡ 0
bit_and-zero_lem a =
    WellFounded.induction lt_wf {C = λ n. bit_and n 0 ≡ 0} a λ n ih. drop_digit n ih
  where
    drop_digit : (n : ℕ) → ((m : ℕ) → m < n → bit_and m 0 ≡ 0) → bit_and n 0 ≡ 0
    drop_digit zero ih = refl
    drop_digit (suc n) ih = omega (arith, bit_and-halves (suc n) 0, ih (suc n / 2) (omega arith))

bit_or-zero_lem : (a : ℕ) → bit_or a 0 ≡ a
bit_or-zero_lem a = WellFounded.induction lt_wf {C = λ n. bit_or n 0 ≡ n} a λ n ih. drop_digit n ih
  where
    drop_digit : (n : ℕ) → ((m : ℕ) → m < n → bit_or m 0 ≡ m) → bit_or n 0 ≡ n
    drop_digit zero ih = refl
    drop_digit (suc n) ih = omega (arith, bit_or-halves (suc n) 0, ih (suc n / 2) (omega arith))

-- Quotient and remainder are the only ones.
pub mod_unique : (m q r : ℕ) → r < m → (q * m + r) % m ≡ r
mod_unique m q r h = mul-add-mod_self_right q m r ∙ mod-eq_of_lt h

pub div_unique : (m q r : ℕ) → r < m → (q * m + r) / m ≡ q
div_unique m q r h = mul-add-div_right {m = m} (omega arith) q r ∙ omega (arith, div-eq_of_lt h)

-- The remainder by `2 ^ suc k` digit by digit.
pub mod-two-pow-suc : (a k : ℕ) → a % 2 ^ suc k ≡ (a / 2) % 2 ^ k * 2 + a % 2
mod-two-pow-suc a k = ground (
  arith,
  pow-suc 2 k,
  div-add-mod' (a / 2) (2 ^ k),
  mod-lt (a / 2) {m = 2 ^ k} (one-le-pow k 2 (omega arith)),
  ap (λ (t : ℕ). a / 2 / 2 ^ k * t) (pow-suc 2 k),
  mod_unique (2 ^ suc k) (a / 2 / 2 ^ k) (a / 2 % 2 ^ k * 2 + a % 2),
)

pub div-two-pow-suc : (a k : ℕ) → a / 2 ^ suc k ≡ a / 2 / 2 ^ k
div-two-pow-suc a k = ground (
  arith,
  pow-suc 2 k,
  div-add-mod' (a / 2) (2 ^ k),
  mod-lt (a / 2) {m = 2 ^ k} (one-le-pow k 2 (omega arith)),
  ap (λ (t : ℕ). a / 2 / 2 ^ k * t) (pow-suc 2 k),
  div_unique (2 ^ suc k) (a / 2 / 2 ^ k) (a / 2 % 2 ^ k * 2 + a % 2),
)

-- `x & ((1 << k) - 1)` is the remainder by `2 ^ k`.
pub bit_and-low_mask : (k a : ℕ) → bit_and a (2 ^ k - 1) ≡ a % 2 ^ k
bit_and-low_mask zero a = rw (bit_and-zero_lem a) (omega arith)
bit_and-low_mask (suc k) a = ground (
  arith,
  bit_and-halves a (2 ^ suc k - 1),
  pow-suc 2 k,
  one-le-pow k 2,
  bit_and-low_mask k (a / 2),
  mod-two-pow-suc a k,
)

-- `(hi << k) | lo` is a sum where `lo` has `k` bits at most.
pub bit_or-shifted : (k hi lo : ℕ) → lo < 2 ^ k → bit_or (hi * 2 ^ k) lo ≡ hi * 2 ^ k + lo
bit_or-shifted zero hi lo h = ground (arith, bit_or-zero_lem hi)
bit_or-shifted (suc k) hi lo h = ground (
  arith,
  bit_or-halves (hi * 2 ^ suc k) lo,
  ap (λ (t : ℕ). hi * t) (pow-suc 2 k),
  pow-suc 2 k,
  bit_or-shifted k hi (lo / 2),
)

pub pow-add : (a b : ℕ) → 2 ^ (a + b) ≡ 2 ^ a * 2 ^ b
pow-add a zero = omega (arith, ap (λ (n : ℕ). 2 ^ n) (add-zero a))
pow-add a (suc b) =
    let e : a + suc b ≡ suc (a + b) = omega arith in
    rw e (omega (arith, pow-suc 2 (a + b), pow-add a b, ap (λ (t : ℕ). 2 ^ a * t) (pow-suc 2 b)))

-- `x & ~((1 << k) - 1)` on `m + k` bits clears the bits below `k`.
pub bit_and-high_mask : (m k a : ℕ) → bit_and a ((2 ^ m - 1) * 2 ^ k) ≡ (a / 2 ^ k) % 2 ^ m * 2 ^ k
bit_and-high_mask m zero a =
    let mask : (2 ^ m - 1) * 2 ^ 0 ≡ 2 ^ m - 1 = omega arith in
    let whole : a / 2 ^ 0 ≡ a = omega arith in rw (mask, bit_and-low_mask m a, whole) (omega arith)
bit_and-high_mask m (suc k) a = omega (
  arith,
  bit_and-halves a ((2 ^ m - 1) * 2 ^ suc k),
  ap (bit_and (a / 2)) half,
  bit_and-high_mask m k (a / 2),
  ap (λ (t : ℕ). t % 2 ^ m * 2 ^ suc k) (div-two-pow-suc a k),
  ap (λ (t : ℕ). (a / 2 / 2 ^ k) % 2 ^ m * t) (pow-suc 2 k),
  twice,
)
  where
    twice : (2 ^ m - 1) * 2 ^ suc k ≡ (2 ^ m - 1) * 2 ^ k * 2
    twice = omega (arith, ap (λ (t : ℕ). (2 ^ m - 1) * t) (pow-suc 2 k))

    half : (2 ^ m - 1) * 2 ^ suc k / 2 ≡ (2 ^ m - 1) * 2 ^ k
    half = omega (arith, twice)
