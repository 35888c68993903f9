-- ===== src/UltraBuf/Tests.antt =====
-- Runs of src/zrtools/ultrabuf.cpp, and its theorems at a concrete buffer.
use zrtools.Prelude.{
  ℕ, ◌+◌, ◌/◌, ◌≡◌, ◌≤◌, ◌⊎◌, refl, arith, List, [], ◌∷◌, ◌++◌, Option, some, none, true, false,
}
use zrtools.Wal.Memory.{load_bytes, store_bytes}
use zrtools.UltraBuf.Buffer.{
  Buffer, eagain, create, is_full, next_block, push_loop, push, pull, pull_loop, read, copy_content,
  is_block_empty,
}
use zrtools.UltraBuf.Contents.{IsBuffer, IsChain, IsAhead, contents}
use zrtools.UltraBuf.Pushed.{push-IsBuffer}
use zrtools.UltraBuf.Pulled.{pull-IsBuffer}
use zrtools.UltraBuf.Copied.{copy_content-IsBuffer}

-- Blocks of 4 bytes, two at most.
abbrev empty : Buffer
empty = create 4 (λ i. 77) 2

empty-IsBuffer : IsBuffer 4 empty []
unfolding IsChain contents load_bytes
empty-IsBuffer = record {
  chain = (omega arith, omega arith);
  holds = refl;
  size_counted = refl;
  blocks_counted = refl;
  size_fits = omega arith;
  blocks_fit = omega arith;
}

abbrev text : List ℕ
text = 1 ∷ 2 ∷ 3 ∷ 4 ∷ 5 ∷ 6 ∷ []

-- One block full, and two bytes in the next.
abbrev filled : Buffer
filled = record {
  before = record { begin = 0; end = 4; buf = store_bytes (λ i. 77) 0 (1 ∷ 2 ∷ 3 ∷ 4 ∷ []) } ∷ [];
  tail = record { begin = 0; end = 2; buf = store_bytes (λ i. 77) 0 (5 ∷ 6 ∷ []) };
  empty_blocks = [];
  max_block_no = 2;
  used_block_cnt = 2;
  empty_block_cnt = 0;
  content_size = 6;
}

push-text : push 4 (λ i. 77) empty text ≡ some (6, filled)
unfolding push push_loop next_block is_full
push-text = refl

filled-IsBuffer : IsBuffer 4 filled text
unfolding IsChain IsAhead contents load_bytes store_bytes
filled-IsBuffer = record {
  chain = (omega arith, (refl, omega arith));
  holds = refl;
  size_counted = refl;
  blocks_counted = refl;
  size_fits = omega arith;
  blocks_fit = omega arith;
}

-- The limit is looked at before the first block only: 12 bytes take four blocks, where two are allowed.
abbrev blocks_after : Option (ℕ × Buffer) → ℕ
blocks_after none = 0
blocks_after (some (n, q)) = q.used_block_cnt

push_past_limit : blocks_after (push 4 (λ i. 77) empty (text ++ text)) ≡ 4
unfolding push push_loop next_block is_full
push_past_limit = refl

-- What is returned when the buffer is full is also what is returned for 11 bytes.
push_full : push 4 (λ i. 77) filled (7 ∷ 8 ∷ []) ≡ some (11, filled)
unfolding push is_full
push_full = refl

push-IsBuffer_example :
    ((is_full 4 (λ i. 77) empty 6 ≡ true) × (push 4 (λ i. 77) empty text ≡ some (eagain, empty)))
    ⊎ ((is_full 4 (λ i. 77) empty 6 ≡ false)
        × (q' : Buffer) × (push 4 (λ i. 77) empty text ≡ some (6, q'))
        × IsBuffer 4 q' text
        × (q'.used_block_cnt ≡ 1 + 6 / 4))
push-IsBuffer_example =
    push-IsBuffer 4 (λ i. 77) empty [] text empty-IsBuffer (omega arith) (omega arith) (omega arith)

pull-IsBuffer_example :
    (read filled 4 ≡ some (4, 1 ∷ 2 ∷ 3 ∷ 4 ∷ []))
    × (q' : Buffer) × (pull filled 4 ≡ some (4, 1 ∷ 2 ∷ 3 ∷ 4 ∷ [], q'))
    × IsBuffer 4 q' (5 ∷ 6 ∷ [])
    × (q'.max_block_no ≡ 2)
    × (q'.used_block_cnt ≤ 2)
pull-IsBuffer_example = pull-IsBuffer 4 filled text 4 filled-IsBuffer

-- After four bytes are taken, the head is drained and two bytes are left; copy_content gives none.
abbrev copy_after : Option (ℕ × List ℕ × Buffer) → List ℕ
copy_after none = 0 ∷ []
copy_after (some (n, bytes, q)) = copy_content q.before q.tail

copy_after-pull : copy_after (pull filled 4) ≡ []
unfolding pull pull_loop copy_content load_bytes store_bytes
copy_after-pull = refl

copy_content-IsBuffer_example :
    ((is_block_empty filled ≡ false) × (copy_content filled.before filled.tail ≡ text))
    ⊎ ((is_block_empty filled ≡ true) × (copy_content filled.before filled.tail ≡ []))
copy_content-IsBuffer_example = copy_content-IsBuffer 4 filled text filled-IsBuffer
