-- ===== src/Prelude/Int.antt =====
-- Signed integers over the native numbers, under the library's names, with the division of C++,
-- which drops the fraction. Sums and orders go through the two parts of an integer.
use Prim.Native.Nat.{ℕ, suc, ◌+◌, ◌-◌, ◌*◌, ◌/◌, ◌%◌, ◌^◌, ◌≤◌, ◌<◌}
use mathlib.Core.Path.{◌≡◌}
use mathlib.Core.Logic.{◌⊎◌, ◌↔◌}
use mathlib.Core.Bool.{Bool, true}
use native.Mathlib.Omega.{arith}
use native.Mathlib.Nat.{zero-mul, zero-div, zero-mod}
use zrtools.Prelude.Tests.{ltb, leb, ◌==◌, if◌then◌else◌}

-- `negsuc n` is -(n + 1).
pub data ℤ : Type 0 where
  pos : ℕ → ℤ
  negsuc : ℕ → ℤ

abbrev pub pos_part : ℤ → ℕ
pos_part (pos n) = n
pos_part (negsuc n) = 0

abbrev pub neg_part : ℤ → ℕ
neg_part (pos n) = 0
neg_part (negsuc n) = suc n

abbrev pub sub_ℕ : ℕ → ℕ → ℤ
sub_ℕ a b = if leb b a then pos (a - b) else negsuc (b - a - 1)

infixl 65 ◌+ℤ◌ ◌-ℤ◌
infixl 70 ◌*ℤ◌ ◌/ℤ◌ ◌%ℤ◌
infix 50 ◌≤ℤ◌ ◌<ℤ◌
unfoldable pub ◌+ℤ◌ : ℤ → ℤ → ℤ
a +ℤ b = sub_ℕ (pos_part a + pos_part b) (neg_part a + neg_part b)

unfoldable pub ◌-ℤ◌ : ℤ → ℤ → ℤ
a -ℤ b = sub_ℕ (pos_part a + neg_part b) (neg_part a + pos_part b)

-- By a number that is not negative.
unfoldable pub ◌*ℤ◌ : ℤ → ℕ → ℤ
a *ℤ k = sub_ℕ (pos_part a * k) (neg_part a * k)

unfoldable pub ◌/ℤ◌ : ℤ → ℕ → ℤ
a /ℤ k = sub_ℕ (pos_part a / k) (neg_part a / k)

unfoldable pub ◌%ℤ◌ : ℤ → ℕ → ℤ
a %ℤ k = sub_ℕ (pos_part a % k) (neg_part a % k)

abbrev pub ◌≤ℤ◌ : ℤ → ℤ → Type 0
a ≤ℤ b = pos_part a + neg_part b ≤ pos_part b + neg_part a

abbrev pub ◌<ℤ◌ : ℤ → ℤ → Type 0
a <ℤ b = pos_part a + neg_part b < pos_part b + neg_part a

abbrev pub ltb_ℤ : ℤ → ℤ → Bool
ltb_ℤ a b = ltb (pos_part a + neg_part b) (pos_part b + neg_part a)

abbrev pub eqb_ℤ : ℤ → ℤ → Bool
eqb_ℤ a b = pos_part a + neg_part b == pos_part b + neg_part a

-- A conversion to `uint32_t`.
unfoldable pub to_u32 : ℤ → ℕ
to_u32 a = (pos_part a + (2 ^ 32 - neg_part a % 2 ^ 32)) % 2 ^ 32

-- A conversion to `int`.
unfoldable pub to_int : ℤ → ℤ
to_int a = let u = to_u32 a in if ltb u (2 ^ 31) then pos u else sub_ℕ u (2 ^ 32)

-- What `omega` needs to know of the operations.
pub +ℤ_parts :
    (a b : ℤ)
    → pos_part (a +ℤ b) + neg_part a + neg_part b ≡ neg_part (a +ℤ b) + pos_part a + pos_part b
unfolding ◌+ℤ◌
+ℤ_parts a b = ground arith

pub -ℤ_parts :
    (a b : ℤ)
    → pos_part (a -ℤ b) + neg_part a + pos_part b ≡ neg_part (a -ℤ b) + pos_part a + neg_part b
unfolding ◌-ℤ◌
-ℤ_parts a b = ground arith

pub eq_of_parts : (a b : ℤ) → pos_part a + neg_part b ≡ pos_part b + neg_part a → a ≡ b
eq_of_parts a b h = ground arith

pub parts_of_eq : (a b : ℤ) → a ≡ b → pos_part a + neg_part b ≡ pos_part b + neg_part a
parts_of_eq a b h = ground arith

-- One part of an integer is zero.
pub one_part : (a : ℤ) → (pos_part a ≡ 0) ⊎ (neg_part a ≡ 0)
one_part a = ground arith

pub eqb_ℤ_iff : (a b : ℤ) → (eqb_ℤ a b ≡ true) ↔ (a ≡ b)
eqb_ℤ_iff a b = ground arith

pub *ℤ_parts :
    (a : ℤ) (k : ℕ) → (pos_part (a *ℤ k) ≡ pos_part a * k) × (neg_part (a *ℤ k) ≡ neg_part a * k)
unfolding ◌*ℤ◌
*ℤ_parts a k = ground (arith, zero-mul k)

pub /ℤ_parts :
    (a : ℤ) (k : ℕ) → (pos_part (a /ℤ k) ≡ pos_part a / k) × (neg_part (a /ℤ k) ≡ neg_part a / k)
unfolding ◌/ℤ◌
/ℤ_parts a k = ground (arith, zero-div k)

pub %ℤ_parts :
    (a : ℤ) (k : ℕ) → (pos_part (a %ℤ k) ≡ pos_part a % k) × (neg_part (a %ℤ k) ≡ neg_part a % k)
unfolding ◌%ℤ◌
%ℤ_parts a k = ground (arith, zero-mod k)

pub to_int-small : (a : ℤ) → neg_part a ≤ 2 ^ 31 → pos_part a < 2 ^ 31 → to_int a ≡ a
unfolding to_int to_u32
to_int-small a h l = ground arith

pub ruleset int_laws = (arith, +ℤ_parts, -ℤ_parts, *ℤ_parts, /ℤ_parts, %ℤ_parts, eq_of_parts)
