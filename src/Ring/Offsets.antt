-- ===== src/Ring/Offsets.antt =====
-- Positions of src/zrtools/zrt_shm_ring.h count all bytes ever written; their remainders by the size of
-- the buffer are offsets in it.
use zrtools.Prelude.{
  ℕ, ◌+◌, ◌-◌, ◌*◌, ◌/◌, ◌%◌, ◌^◌, ◌≤◌, ◌<◌, ◌≡◌, ◌⊎◌, inl, inr, ◌∙◌, ap, sym, subst, arith,
}
use zrtools.Prelude.Bits.{mod_unique}
use zrtools.Wal.Entry.{header_size}
use zrtools.Wal.Built.{align_up-eight}
use zrtools.Ring.Append.{entry_size}
use native.Mathlib.Nat.{add-mul, div-add-mod', mod-lt}

pub entry_size-eight : (len : ℕ) → len < 2 ^ 16 → entry_size len ≡ (len + 31) / 8 * 8
entry_size-eight len h = align_up-eight (header_size + len) (omega arith) ∙ omega arith

-- The ring's numbers: eight divides the size, an entry fits, and so does a skipped area's length.
pub record IsGeometry (buffer_size max_entry_size : ℕ) : Type 0 where
  pub some_room : 0 < buffer_size
  pub aligned : buffer_size % 8 ≡ 0
  pub bounded : buffer_size < 2 ^ 62
  pub entry_fits : max_entry_size ≤ buffer_size
  pub skip_fits : max_entry_size ≤ 2 ^ 16

module _ (buffer_size : ℕ) (some_room : 0 < buffer_size) where
  pub offset-inside :
      (pos i : ℕ)
      → pos % buffer_size + i < buffer_size
      → (pos + i) % buffer_size ≡ pos % buffer_size + i
  offset-inside pos i h =
      let whole = div-add-mod' pos buffer_size in
      let sum : pos + i ≡ pos / buffer_size * buffer_size + (pos % buffer_size + i) = omega arith in
      ap (λ (n : ℕ). n % buffer_size) sum ∙ mod_unique buffer_size (pos / buffer_size) _ h

  pub offset-beyond :
      (pos i : ℕ)
      → buffer_size ≤ pos % buffer_size + i
      → pos % buffer_size + i < buffer_size + buffer_size
      → (pos + i) % buffer_size + buffer_size ≡ pos % buffer_size + i
  offset-beyond pos i h l =
      let whole = div-add-mod' pos buffer_size in
      let r = pos % buffer_size + i - buffer_size in
      let sum : pos + i ≡ (pos / buffer_size + 1) * buffer_size + r =
        omega (arith, add-mul (pos / buffer_size) 1 buffer_size) in
      omega (
        arith,
        ap (λ (n : ℕ). n % buffer_size) sum
            ∙ mod_unique buffer_size (pos / buffer_size + 1) r (omega arith),
      )

  pub offset-lt : (pos : ℕ) → pos % buffer_size < buffer_size
  offset-lt pos = mod-lt pos some_room

  -- A byte that is still needed is not among those that an entry at `pos + ahead` overwrites.
  pub offset-apart :
      (pos ahead size : ℕ)
      → 0 < ahead
      → ahead + size ≤ buffer_size
      → (pos + ahead) % buffer_size + size ≤ buffer_size
      → (pos % buffer_size < (pos + ahead) % buffer_size)
        ⊎ ((pos + ahead) % buffer_size + size ≤ pos % buffer_size)
  offset-apart pos ahead size h room fits = elim (split (pos % buffer_size + ahead)) [
    | inl l ↦ inl (omega (arith, offset-inside pos ahead l))
    | inr l ↦ inr (omega (arith, offset-beyond pos ahead l (omega (arith, offset-lt pos))))
  ]
    where
      split : (n : ℕ) → (n < buffer_size) ⊎ (buffer_size ≤ n)
      split n = grind arith

  pub offset-kept :
      (pos q w size : ℕ)
      → pos ≤ q
      → q < w
      → w + size ≤ pos + buffer_size
      → w % buffer_size + size ≤ buffer_size
      → (q % buffer_size < w % buffer_size) ⊎ (w % buffer_size + size ≤ q % buffer_size)
  offset-kept pos q w size a b room fits =
      let sum : q + (w - q) ≡ w = omega arith in
      subst
        (λ (n : ℕ).
          (q % buffer_size < n % buffer_size) ⊎ (n % buffer_size + size ≤ q % buffer_size))
        sum
        (offset-apart q (w - q) size (omega arith) (omega arith)
          (subst (λ (n : ℕ). n % buffer_size + size ≤ buffer_size) (sym sum) fits))
