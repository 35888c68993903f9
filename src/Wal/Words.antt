-- ===== src/Wal/Words.antt =====
-- Unsigned fields of a number of bytes in memory, least byte first.
use zrtools.Prelude.{
  ℕ, zero, suc, ◌+◌, ◌*◌, ◌/◌, ◌%◌, ◌^◌, ◌≡◌, ◌≤◌, ◌<◌, ◌⊎◌, ◌∙◌, refl, ap, sym, subst, arith, List,
  [], ◌∷◌, length,
}
use native.Mathlib.Nat.{pow-suc}
use zrtools.Wal.Memory.{
  Memory, store_bytes-apart, store_bytes, load_bytes, load_bytes-store_apart,
  load_bytes-store_bytes, load_bytes-cong,
}

unfoldable pub encode : ℕ → ℕ → List ℕ
encode zero v = []
encode (suc n) v = v % 256 ∷ encode n (v / 256)

unfoldable pub decode : List ℕ → ℕ
decode [] = 0
decode (b ∷ bs) = b + 256 * decode bs

unfoldable pub load_word : Memory → ℕ → ℕ → ℕ
load_word mem at n = decode (load_bytes mem at n)

unfoldable pub store_word : Memory → ℕ → ℕ → ℕ → Memory
store_word mem at n v = store_bytes mem at (encode n v)

pub length-encode : (n v : ℕ) → length (encode n v) ≡ n
unfolding encode
length-encode zero v = refl
length-encode (suc n) v = ap suc (length-encode n (v / 256))

pub decode-encode : (n v : ℕ) → v < 256 ^ n → decode (encode n v) ≡ v
unfolding encode decode
decode-encode zero v h = ground arith
decode-encode (suc n) v h =
    let bound : v / 256 < 256 ^ n = ground (arith, pow-suc 256 n) in
    omega (arith, decode-encode n (v / 256) bound)

pub load_word-store_word :
    (mem : Memory) (at n v : ℕ) → v < 256 ^ n → load_word (store_word mem at n v) at n ≡ v
unfolding load_word store_word
load_word-store_word mem at n v h =
    ap (λ (k : ℕ). decode (load_bytes (store_bytes mem at (encode n v)) at k))
      (sym (length-encode n v))
    ∙ ap decode (load_bytes-store_bytes mem at (encode n v))
    ∙ decode-encode n v h

pub load_word-store_bytes :
    (mem : Memory) (at : ℕ) (bs : List ℕ) (at' n : ℕ)
    → (at' + n ≤ at) ⊎ (at + length bs ≤ at')
    → load_word (store_bytes mem at bs) at' n ≡ load_word mem at' n
unfolding load_word
load_word-store_bytes mem at bs at' n h = ap decode (load_bytes-store_apart mem at bs at' n h)

pub load_word-store_apart :
    (mem : Memory) (at k v at' n : ℕ)
    → (at' + n ≤ at) ⊎ (at + k ≤ at')
    → load_word (store_word mem at k v) at' n ≡ load_word mem at' n
unfolding store_word
load_word-store_apart mem at k v at' n h =
    load_word-store_bytes mem at (encode k v) at' n
      (subst (λ (l : ℕ). (at' + n ≤ at) ⊎ (at + l ≤ at')) (sym (length-encode k v)) h)

pub load_bytes-store_word :
    (mem : Memory) (at k v at' n : ℕ)
    → (at' + n ≤ at) ⊎ (at + k ≤ at')
    → load_bytes (store_word mem at k v) at' n ≡ load_bytes mem at' n
unfolding store_word
load_bytes-store_word mem at k v at' n h =
    load_bytes-store_apart mem at (encode k v) at' n
      (subst (λ (l : ℕ). (at' + n ≤ at) ⊎ (at + l ≤ at')) (sym (length-encode k v)) h)

pub store_word-apart :
    (mem : Memory) (at k v i : ℕ) → (i < at) ⊎ (at + k ≤ i) → store_word mem at k v i ≡ mem i
unfolding store_word
store_word-apart mem at k v i h =
    store_bytes-apart mem at (encode k v) i
      (subst (λ (l : ℕ). (i < at) ⊎ (at + l ≤ i)) (sym (length-encode k v)) h)

pub load_word-cong :
    (mem mem' : Memory) (at at' n : ℕ)
    → ((i : ℕ) → i < n → mem (at + i) ≡ mem' (at' + i))
    → load_word mem at n ≡ load_word mem' at' n
unfolding load_word
load_word-cong mem mem' at at' n same = ap decode (load_bytes-cong mem mem' at at' n same)
