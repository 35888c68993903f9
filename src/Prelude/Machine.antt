-- ===== src/Prelude/Machine.antt =====
-- Words of 64 bits, `uint64_t` and `size_t`, which wrap around.
use Prim.Native.Nat.{ℕ, ◌+◌, ◌-◌, ◌%◌, ◌^◌}

abbrev pub wrap64 : ℕ → ℕ
wrap64 n = n % 2 ^ 64

abbrev pub sub64 : ℕ → ℕ → ℕ
sub64 a b = wrap64 (a + 2 ^ 64 - b)

-- Words of 32 bits, `uint32_t` and `unsigned`.
abbrev pub wrap32 : ℕ → ℕ
wrap32 n = n % 2 ^ 32

abbrev pub sub32 : ℕ → ℕ → ℕ
sub32 a b = wrap32 (a + 2 ^ 32 - b)
