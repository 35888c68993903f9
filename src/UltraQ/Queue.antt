-- ===== src/UltraQ/Queue.antt =====
-- src/zrtools/ultraq.h: the blocks and the operations of `UltraQ`. The lists of blocks are the chains
-- from `m_head` to the block before `m_tail`, and from `m_empty_head` on. Each operation runs under
-- its lock. The bytes of a new block are unknown.
use zrtools.Prelude.{
  ℕ, ◌+◌, ◌-◌, ◌*◌, Bool, false, ◌&&◌, List, [], ◌∷◌, ◌++◌, Option, none, some, if◌then◌else◌, ◌==◌,
  ltb, leb, length, wrap64, sub64,
}
use zrtools.Wal.Memory.{Memory, store_bytes, load_bytes}
use zrtools.Wal.Words.{load_word, store_word}

-- `sizeof(Header)`.
abbrev pub header_size : ℕ
header_size = 8

pub record Block : Type 0 where
  pub left_idx : ℕ
  pub right_idx : ℕ
  pub buf : Memory

-- `Block::reset`, which leaves the bytes.
abbrev pub reset_block : Block → Block
reset_block b = record b { left_idx = 0; right_idx = 0 }

pub record Queue : Type 0 where
  pub before : List Block
  pub tail : Block
  pub empty_blocks : List Block
  pub max_block_no : ℕ
  pub used_block_cnt : ℕ
  pub empty_block_cnt : ℕ
  pub content_size : ℕ

-- What `push` returns: -1, or a count.
pub data Code : Type 0 where
  minus_one : Code
  count : ℕ → Code

abbrev pub is_block_empty : Block → Bool
is_block_empty b = b.left_idx == b.right_idx

unfoldable pub is_empty : Queue → Bool
is_empty q = elim q.before [ [] ↦ is_block_empty q.tail | b ∷ bs ↦ false ]

abbrev pub get_size : Queue → ℕ
get_size q = q.content_size

abbrev pub cnt_block_total : Queue → ℕ
cnt_block_total q = q.used_block_cnt + q.empty_block_cnt

-- The blocks that are passed over, and those that are left before the tail.
unfoldable pub pass_empty : List Block → List Block → List Block × List Block
pass_empty [] passed = ([], passed)
pass_empty (b ∷ bs) passed =
    let rest = pass_empty bs (b ∷ passed) in if is_block_empty b then rest else (b ∷ bs, passed)

-- The message at the left of a block, and the block without it.
unfoldable pub take_message : Block → List ℕ × Block
take_message b =
    let body_size = load_word b.buf b.left_idx 8 in
    (
      load_bytes b.buf (b.left_idx + header_size) body_size,
      record b { left_idx = b.left_idx + (header_size + body_size) },
    )

-- The queue after the empty blocks before the head are passed.
abbrev pub passed_queue : Queue → List Block × List Block → Queue
passed_queue q (kept, passed) =
    let n = length q.before - length kept in
    record q {
      before = kept;
      empty_blocks = passed;
      empty_block_cnt = wrap64 (q.empty_block_cnt + n);
      used_block_cnt = sub64 q.used_block_cnt n;
    }

-- The copy out of the head; none where the walk has left the chain.
unfoldable pub pull_head : Queue → Option (ℕ × List ℕ × Queue)
pull_head q = elim q.before [
  | [] ↦
      if is_block_empty q.tail
      then none
      else (let (content, t) = take_message q.tail in
          some (
            length content,
            content,
            record q { tail = t; content_size = sub64 q.content_size (length content) },
          ))
  | b ∷ bs ↦
      let (content, b') = take_message b in
      some (
        length content,
        content,
        record q { before = b' ∷ bs; content_size = sub64 q.content_size (length content) },
      )
]

-- `pull`: what it returns, and the bytes that it copies.
unfoldable pub pull : Queue → Option (ℕ × List ℕ × Queue)
pull q =
    if is_empty q
    then some (0, [], q)
    else pull_head (passed_queue q (pass_empty q.before q.empty_blocks))

-- The stores of `push_impl`.
unfoldable pub push_impl : Queue → List ℕ → Queue
push_impl q content =
    let t = q.tail in
    let named = store_word t.buf t.right_idx 8 (length content) in
    record q {
      tail = record t {
        buf = store_bytes named (t.right_idx + header_size) content;
        right_idx = t.right_idx + header_size + length content;
      };
      content_size = wrap64 (q.content_size + length content);
    }

module _ (block_size : ℕ) (unknown : Memory) where
  abbrev pub fresh_block : Block
  fresh_block = record { left_idx = 0; right_idx = 0; buf = unknown }

  -- The constructor.
  abbrev pub create : ℕ → Queue
  create max_block_no = record {
    before = [];
    tail = fresh_block;
    empty_blocks = [];
    max_block_no = max_block_no;
    used_block_cnt = 1;
    empty_block_cnt = 0;
    content_size = 0;
  }

  abbrev pub is_block_full : Block → ℕ → Bool
  is_block_full b incoming_sz = leb block_size (b.right_idx + header_size + incoming_sz)

  unfoldable pub is_full : Queue → ℕ → Bool
  is_full q incoming_sz =
      if q.max_block_no == 0
      then false
      else (q.used_block_cnt == q.max_block_no) && is_block_full q.tail incoming_sz

  -- A block behind the tail, one of the empty ones if there is any.
  unfoldable pub next_block : Queue → Queue
  next_block q = elim q.empty_blocks [
    | [] ↦ record q {
      before = q.before ++ (q.tail ∷ []);
      tail = fresh_block;
      used_block_cnt = wrap64 (q.used_block_cnt + 1);
    }
    | e ∷ es ↦ record q {
      before = q.before ++ (q.tail ∷ []);
      tail = reset_block e;
      empty_blocks = es;
      used_block_cnt = wrap64 (q.used_block_cnt + 1);
      empty_block_cnt = sub64 q.empty_block_cnt 1;
    }
  ]

  unfoldable pub push : Queue → List ℕ → Code × Queue
  push q content =
      if is_full q (length content)
      then (count 0, q)
      else if ltb (sub64 block_size header_size) (length content)
      then (minus_one, q)
      else (
        count (length content),
        push_impl (if is_block_full q.tail (length content) then next_block q else q) content,
      )

  abbrev pub get_capacity : Queue → ℕ
  get_capacity q = wrap64 (cnt_block_total q * block_size)
