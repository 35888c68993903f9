-- ===== src/UltraBuf/Contents.antt =====
-- src/zrtools/ultrabuf.h: the bytes that a chain of blocks holds.
use zrtools.Prelude.{
  ℕ, zero, suc, ◌+◌, ◌-◌, ◌≡◌, ◌≤◌, ◌<◌, ◌∙◌, ap, ap₂, sym, arith, List, [], ◌∷◌, ◌++◌, length,
  drop, append_assoc, append-nil, inl, ◌^◌,
}
use zrtools.Wal.Memory.{
  Memory, store_bytes, load_bytes, load_bytes-store_apart, load_bytes-store_bytes,
}
use zrtools.UltraBuf.Buffer.{Block, Buffer, block_content_sz, block_bytes, write_block}

pub drop-load_bytes :
    (mem : Memory) (at k n : ℕ)
    → k ≤ n
    → drop k (load_bytes mem at n) ≡ load_bytes mem (at + k) (n - k)
unfolding load_bytes
drop-load_bytes mem at zero n h = ap₂ (load_bytes mem) (omega arith) (omega arith)
drop-load_bytes mem at (suc k) zero h = absurd (omega arith)
drop-load_bytes mem at (suc k) (suc n) h =
    drop-load_bytes mem (suc at) k n (omega arith)
    ∙ ap₂ (load_bytes mem) (omega arith) (omega arith)

pub load_bytes-append :
    (mem : Memory) (at k n : ℕ)
    → load_bytes mem at (k + n) ≡ load_bytes mem at k ++ load_bytes mem (at + k) n
unfolding load_bytes
load_bytes-append mem at zero n = ap₂ (load_bytes mem) (omega arith) (omega arith)
load_bytes-append mem at (suc k) n =
    let one_more : suc k + n ≡ suc (k + n) = omega arith in
    ap (load_bytes mem at) one_more
    ∙ ap (◌∷◌ (mem at)) (
        load_bytes-append mem (suc at) k n
        ∙ ap (λ (p : ℕ). load_bytes mem (suc at) k ++ load_bytes mem p n) (omega arith))

-- The bytes of a chain of blocks.
unfoldable pub contents : List Block → Block → List ℕ
contents [] t = block_bytes t
contents (b ∷ bs) t = block_bytes b ++ contents bs t

-- A block takes bytes behind its own.
pub block_bytes-write_block :
    (b : Block) (bytes : List ℕ)
    → b.begin ≤ b.end
    → block_bytes (write_block b bytes) ≡ block_bytes b ++ bytes
block_bytes-write_block b bytes h =
    let n = block_content_sz b in
    let mem = store_bytes b.buf b.end bytes in
    ap (load_bytes mem b.begin) (omega arith)
    ∙ load_bytes-append mem b.begin n (length bytes)
    ∙ ap₂ ◌++◌ (load_bytes-store_apart b.buf b.end bytes b.begin n (inl (omega arith))) (
        ap (λ (p : ℕ). load_bytes mem p (length bytes)) (omega arith)
        ∙ load_bytes-store_bytes b.buf b.end bytes)

pub contents-write_block :
    (bs : List Block) (t : Block) (bytes : List ℕ)
    → t.begin ≤ t.end
    → contents bs (write_block t bytes) ≡ contents bs t ++ bytes
unfolding contents
contents-write_block [] t bytes h = block_bytes-write_block t bytes h
contents-write_block (b ∷ bs) t bytes h =
    ap (◌++◌ (block_bytes b)) (contents-write_block bs t bytes h)
    ∙ sym (append_assoc (block_bytes b) (contents bs t) bytes)

-- An empty block behind the tail changes nothing.
pub contents-append :
    (bs : List Block) (t u : Block)
    → block_bytes u ≡ []
    → contents (bs ++ (t ∷ [])) u ≡ contents bs t
unfolding contents
contents-append [] t u h = ap (◌++◌ (block_bytes t)) h ∙ append-nil (block_bytes t)
contents-append (b ∷ bs) t u h = ap (◌++◌ (block_bytes b)) (contents-append bs t u h)

module _ (block_size : ℕ) where
  -- Behind the head, no block but the tail is empty, and reading has not begun.
  unfoldable pub IsAhead : List Block → Block → Type 0
  IsAhead [] t = (t.begin ≡ 0) × (t.end < block_size)
  IsAhead (b ∷ bs) t = (b.begin < b.end) × IsAhead bs t

  unfoldable pub IsChain : List Block → Block → Type 0
  IsChain [] t = (t.begin ≤ t.end) × (t.end < block_size)
  IsChain (b ∷ bs) t = (b.begin ≤ b.end) × IsAhead bs t

  pub IsAhead-IsChain : (bs : List Block) (t : Block) → IsAhead bs t → IsChain bs t
  unfolding IsAhead IsChain
  IsAhead-IsChain [] t h = (omega arith, h.1)
  IsAhead-IsChain (b ∷ bs) t h = (omega arith, h.1)

  pub tail_ahead :
      (bs : List Block) (t : Block) → IsAhead bs t → (t.begin ≡ 0) × (t.end < block_size)
  unfolding IsAhead
  tail_ahead [] t h = h
  tail_ahead (b ∷ bs) t h = tail_ahead bs t h.1

  pub tail_inside :
      (bs : List Block) (t : Block) → IsChain bs t → (t.begin ≤ t.end) × (t.end < block_size)
  unfolding IsChain
  tail_inside [] t h = h
  tail_inside (b ∷ bs) t h = let (start, inside) = tail_ahead bs t h.1 in (omega arith, inside)

  -- Another tail whose bytes begin where they did.
  IsAhead-write :
      (bs : List Block) (t t' : Block)
      → IsAhead bs t
      → t'.begin ≡ t.begin
      → t'.end < block_size
      → IsAhead bs t'
  unfolding IsAhead
  IsAhead-write [] t t' h e l = (e ∙ h.0, l)
  IsAhead-write (b ∷ bs) t t' h e l = (h.0, IsAhead-write bs t t' h.1 e l)

  pub IsChain-write :
      (bs : List Block) (t t' : Block)
      → IsChain bs t
      → t'.begin ≡ t.begin
      → t.end ≤ t'.end
      → t'.end < block_size
      → IsChain bs t'
  unfolding IsChain
  IsChain-write [] t t' h e g l = (omega (arith, e, h.0), l)
  IsChain-write (b ∷ bs) t t' h e g l = (h.0, IsAhead-write bs t t' h.1 e l)

  IsAhead-append :
      (bs : List Block) (t t' u : Block)
      → IsAhead bs t
      → t'.begin ≡ t.begin
      → t'.end ≡ block_size
      → u.begin ≡ 0
      → u.end ≡ 0
      → IsAhead (bs ++ (t' ∷ [])) u
  unfolding IsAhead
  IsAhead-append [] t t' u h e f z z' = (omega (arith, e, f, h.0, h.1), (z, omega (arith, z', h.1)))
  IsAhead-append (b ∷ bs) t t' u h e f z z' = (h.0, IsAhead-append bs t t' u h.1 e f z z')

  -- A full block and an empty one behind it.
  pub IsChain-append :
      (bs : List Block) (t t' u : Block)
      → IsChain bs t
      → t'.begin ≡ t.begin
      → t'.end ≡ block_size
      → u.begin ≡ 0
      → u.end ≡ 0
      → IsChain (bs ++ (t' ∷ [])) u
  unfolding IsChain IsAhead
  IsChain-append [] t t' u h e f z z' = (omega (arith, e, f, h.0, h.1), (z, omega (arith, z', h.1)))
  IsChain-append (b ∷ bs) t t' u h e f z z' = (h.0, IsAhead-append bs t t' u h.1 e f z z')

-- A buffer that holds bytes.
pub record IsBuffer (block_size : ℕ) (q : Buffer) (bytes : List ℕ) : Type 0 where
  pub chain : IsChain block_size q.before q.tail
  pub holds : contents q.before q.tail ≡ bytes
  pub size_counted : q.content_size ≡ length bytes
  pub blocks_counted : q.used_block_cnt ≡ length q.before + 1
  pub size_fits : length bytes < 2 ^ 64
  pub blocks_fit : q.used_block_cnt < 2 ^ 64
