-- ===== src/Wal/Memory.antt =====
-- Memory as the byte at each offset, with `memcpy` in and out of it.
use zrtools.Prelude.{
  ℕ, zero, suc, ◌+◌, ◌≡◌, ◌≤◌, ◌<◌, ◌⊎◌, inl, inr, refl, ◌∙◌, ap₂, ap, arith, List, [], ◌∷◌,
  if◌then◌else◌, ◌==◌, length, take,
}

abbrev pub Memory : Type 0
Memory = ℕ → ℕ

-- `memcpy` of bytes to an offset.
unfoldable pub store_bytes : Memory → ℕ → List ℕ → Memory
store_bytes mem at [] = mem
store_bytes mem at (b ∷ bs) = λ i. if i == at then b else store_bytes mem (suc at) bs i

-- `memcpy` of a number of bytes from an offset.
unfoldable pub load_bytes : Memory → ℕ → ℕ → List ℕ
load_bytes mem at zero = []
load_bytes mem at (suc n) = mem at ∷ load_bytes mem (suc at) n

pub length-load_bytes : (mem : Memory) (at n : ℕ) → length (load_bytes mem at n) ≡ n
unfolding load_bytes
length-load_bytes mem at zero = refl
length-load_bytes mem at (suc n) = ap suc (length-load_bytes mem (suc at) n)

pub take-load_bytes :
    (mem : Memory) (at k n : ℕ) → k ≤ n → load_bytes mem at k ≡ take k (load_bytes mem at n)
unfolding load_bytes
take-load_bytes mem at zero n h = refl
take-load_bytes mem at (suc k) zero h = absurd (omega arith)
take-load_bytes mem at (suc k) (suc n) h =
    ap (◌∷◌ (mem at)) (take-load_bytes mem (suc at) k n (omega arith))

pub store_bytes-apart :
    (mem : Memory) (at : ℕ) (bs : List ℕ) (i : ℕ)
    → (i < at) ⊎ (at + length bs ≤ i)
    → store_bytes mem at bs i ≡ mem i
unfolding store_bytes
store_bytes-apart mem at [] i h = refl
store_bytes-apart mem at (b ∷ bs) i (inl h) =
    ground (arith, store_bytes-apart mem (suc at) bs i (inl (omega arith)))
store_bytes-apart mem at (b ∷ bs) i (inr h) =
    ground (arith, store_bytes-apart mem (suc at) bs i (inr (omega arith)))

store_bytes-first : (mem : Memory) (at b : ℕ) (bs : List ℕ) → store_bytes mem at (b ∷ bs) at ≡ b
unfolding store_bytes
store_bytes-first mem at b bs = ground arith

store_bytes-rest :
    (mem : Memory) (at b : ℕ) (bs : List ℕ) (i : ℕ)
    → at < i
    → store_bytes mem at (b ∷ bs) i ≡ store_bytes mem (suc at) bs i
unfolding store_bytes
store_bytes-rest mem at b bs i h = ground arith

-- What is read depends on the bytes read only.
pub load_bytes-cong :
    (mem mem' : Memory) (at at' n : ℕ)
    → ((i : ℕ) → i < n → mem (at + i) ≡ mem' (at' + i))
    → load_bytes mem at n ≡ load_bytes mem' at' n
unfolding load_bytes
load_bytes-cong mem mem' at at' zero same = refl
load_bytes-cong mem mem' at at' (suc n) same =
    ap₂ ◌∷◌ (ap mem (omega arith) ∙ same 0 (omega arith) ∙ ap mem' (omega arith)) (
      load_bytes-cong mem mem' (suc at) (suc at') n
        λ i h. ap mem (omega arith) ∙ same (suc i) (omega arith) ∙ ap mem' (omega arith))

pub load_bytes-store_apart :
    (mem : Memory) (at : ℕ) (bs : List ℕ) (at' n : ℕ)
    → (at' + n ≤ at) ⊎ (at + length bs ≤ at')
    → load_bytes (store_bytes mem at bs) at' n ≡ load_bytes mem at' n
load_bytes-store_apart mem at bs at' n (inl h) =
    load_bytes-cong (store_bytes mem at bs) mem at' at' n
      λ i l. store_bytes-apart mem at bs (at' + i) (inl (omega arith))
load_bytes-store_apart mem at bs at' n (inr h) =
    load_bytes-cong (store_bytes mem at bs) mem at' at' n
      λ i l. store_bytes-apart mem at bs (at' + i) (inr (omega arith))

pub load_bytes-store_bytes :
    (mem : Memory) (at : ℕ) (bs : List ℕ) → load_bytes (store_bytes mem at bs) at (length bs) ≡ bs
unfolding load_bytes
load_bytes-store_bytes mem at [] = refl
load_bytes-store_bytes mem at (b ∷ bs) = ap₂ ◌∷◌ (store_bytes-first mem at b bs) (
    load_bytes-cong (store_bytes mem at (b ∷ bs)) (store_bytes mem (suc at) bs) (suc at) (suc at)
      (length bs) (λ i h. store_bytes-rest mem at b bs (suc at + i) (omega arith))
    ∙ load_bytes-store_bytes mem (suc at) bs)
