-- ===== src/UltraQ/Pushed.antt =====
-- src/zrtools/ultraq.h: `push` adds a message behind the others.
use zrtools.Prelude.{
  ℕ, ◌+◌, ◌≡◌, ◌≤◌, ◌<◌, ◌⊎◌, inl, inr, ◌∙◌, arith, List, [], ◌∷◌, ◌++◌, length, wrap64, ◌^◌,
}
use zrtools.Wal.Memory.{Memory, store_bytes, store_bytes-apart, load_bytes-store_bytes}
use zrtools.Wal.Words.{store_word, load_word-store_word, load_word-store_bytes, store_word-apart}
use zrtools.UltraQ.Queue.{Queue, header_size, push_impl}
use zrtools.UltraQ.Messages.{
  Holds, AllHold, IsQueue, total, total-append, Run-le, Run-cong, Run-append,
}

total-one : (m : List ℕ) → total (m ∷ []) ≡ length m
unfolding total
total-one m = omega arith

push_impl-Holds :
    (q : Queue) (content : List ℕ) (back : List (List ℕ))
    → length content < 2 ^ 64
    → Holds q.tail back
    → Holds (push_impl q content).tail (back ++ (content ∷ []))
unfolding push_impl
push_impl-Holds q content back h r =
    let t = q.tail in
    let named = store_word t.buf t.right_idx 8 (length content) in
    let buf' = store_bytes named (t.right_idx + header_size) content in
    Run-append buf' t.left_idx t.right_idx (t.right_idx + header_size + length content) back
      (content ∷ [])
      (Run-cong t.buf buf' t.left_idx back t.right_idx
        (λ i l.
          store_bytes-apart named (t.right_idx + header_size) content i (inl (omega arith))
          ∙ store_word-apart t.buf t.right_idx 8 (length content) i (inl l))
        r)
      (
        load_word-store_bytes named (t.right_idx + header_size) content t.right_idx 8
              (inl (omega arith))
            ∙ load_word-store_word t.buf t.right_idx 8 (length content) (omega arith),
        load_bytes-store_bytes named (t.right_idx + header_size) content,
        omega arith,
      )

module _ (block_size : ℕ) (unknown : Memory) where
  pub push_impl-IsQueue :
      (q : Queue) (content : List ℕ) (front back : List (List ℕ))
      → length content < 2 ^ 64
      → AllHold q.before front
      → Holds q.tail back
      → q.tail.right_idx + header_size + length content ≤ block_size
      → q.content_size ≡ wrap64 (total front + total back)
      → q.used_block_cnt ≡ length q.before + 1
      → (q.max_block_no ≡ 0) ⊎ (q.used_block_cnt ≤ q.max_block_no)
      → IsQueue block_size (push_impl q content) front (back ++ (content ∷ []))
  unfolding push_impl
  push_impl-IsQueue q content front back h e l room size blocks bounded = record {
    earlier = e;
    last = push_impl-Holds q content back h l;
    tail_used = inr (omega (arith, Run-le q.tail.buf q.tail.left_idx back q.tail.right_idx l));
    inside = room;
    size_counted = omega (arith, size, total-append back (content ∷ []), total-one content);
    blocks_counted = blocks;
    blocks_bounded = bounded;
  }

  -- What holds of the block behind the tail, whether it is new or an empty one.
  abbrev IsNext : Queue → Queue → Type 0
  IsNext q q' =
      (q'.before ≡ q.before ++ (q.tail ∷ []))
      × (q'.tail.left_idx ≡ 0)
      × (q'.tail.right_idx ≡ 0)
      × (q'.content_size ≡ q.content_size)
      × (q'.used_block_cnt ≡ wrap64 (q.used_block_cnt + 1))
      × (q'.max_block_no ≡ q.max_block_no)
