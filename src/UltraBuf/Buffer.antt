-- ===== src/UltraBuf/Buffer.antt =====
-- src/zrtools/ultrabuf.h and ultrabuf.cpp: the blocks and the operations of `UltraBuf`. The lists of
-- blocks are the chains from `m_head` to the block before `m_tail`, and from `m_empty_head` on. The
-- bytes of a new block are unknown. An operation that walks off the chain, or that does not end, gives
-- none.
use zrtools.Prelude.{
  ℕ, zero, suc, ◌+◌, ◌-◌, ◌*◌, min, Bool, ◌&&◌, not, List, [], ◌∷◌, ◌++◌, Option, none, some,
  if◌then◌else◌, ◌==◌, ltb, leb, length, take, drop, wrap64, sub64,
}
use zrtools.Wal.Memory.{Memory, store_bytes, load_bytes}

-- `EAGAIN` of the system.
abbrev pub eagain : ℕ
eagain = 11

pub record Block : Type 0 where
  pub begin : ℕ
  pub end : ℕ
  pub buf : Memory

-- `Block::reset`, which leaves the bytes.
abbrev pub reset_block : Block → Block
reset_block b = record b { begin = 0; end = 0 }

pub record Buffer : Type 0 where
  pub before : List Block
  pub tail : Block
  pub empty_blocks : List Block
  pub max_block_no : ℕ
  pub used_block_cnt : ℕ
  pub empty_block_cnt : ℕ
  pub content_size : ℕ

abbrev pub block_content_sz : Block → ℕ
block_content_sz b = b.end - b.begin

-- The bytes between the offsets.
abbrev pub block_bytes : Block → List ℕ
block_bytes b = load_bytes b.buf b.begin (block_content_sz b)

-- The copy of bytes to the end of a block.
abbrev pub write_block : Block → List ℕ → Block
write_block b bytes = record b { buf = store_bytes b.buf b.end bytes; end = b.end + length bytes }

abbrev pub is_empty : Buffer → ℕ → Bool
is_empty q size = ltb q.content_size size

abbrev pub get_size : Buffer → ℕ
get_size q = q.content_size

abbrev pub cnt_block_used : Buffer → ℕ
cnt_block_used q = q.used_block_cnt

abbrev pub cnt_block_total : Buffer → ℕ
cnt_block_total q = wrap64 (q.used_block_cnt + q.empty_block_cnt)

-- `is_block_empty`, of the head.
unfoldable pub is_block_empty : Buffer → Bool
is_block_empty q = elim q.before [ [] ↦ q.tail.begin == q.tail.end | b ∷ bs ↦ b.begin == b.end ]

-- The loop of `read`: the blocks before the tail, the tail and the bytes to read.
unfoldable pub read_loop : List Block → Block → ℕ → Option (List ℕ)
read_loop [] t sz = if ltb (block_content_sz t) sz then none else some (load_bytes t.buf t.begin sz)
read_loop (b ∷ bs) t sz =
    let rest = read_loop bs t (sub64 sz (block_content_sz b)) in
    if ltb (block_content_sz b) sz
    then elim rest [ none ↦ none | some bytes ↦ some (block_bytes b ++ bytes) ]
    else some (load_bytes b.buf b.begin sz)

-- What `read` returns, and the bytes that it copies.
unfoldable pub read : Buffer → ℕ → Option (ℕ × List ℕ)
read q size =
    if is_empty q 1
    then some (0, [])
    else elim (read_loop q.before q.tail (min size q.content_size)) [
      | none ↦ none
      | some bytes ↦ some (min size q.content_size, bytes)
    ]

-- The head moves to the chain of empty blocks.
unfoldable pub pass_head : Block → List Block → Buffer → Buffer
pass_head b bs q = record q {
  before = bs;
  empty_blocks = record b { begin = b.begin + block_content_sz b } ∷ q.empty_blocks;
  empty_block_cnt = wrap64 (q.empty_block_cnt + 1);
  used_block_cnt = sub64 q.used_block_cnt 1;
}

-- The loop of `pull`, which begins on the blocks before the tail.
unfoldable pub pull_loop : List Block → Buffer → ℕ → Option (List ℕ × Buffer)
pull_loop [] q sz =
    let t = q.tail in
    if ltb (block_content_sz t) sz
    then none
    else some (
      load_bytes t.buf t.begin sz,
      record q { before = []; tail = record t { begin = t.begin + sz } },
    )
pull_loop (b ∷ bs) q sz =
    let rest = pull_loop bs (pass_head b bs q) (sub64 sz (block_content_sz b)) in
    if ltb (block_content_sz b) sz
    then elim rest [ none ↦ none | some (bytes, q') ↦ some (block_bytes b ++ bytes, q') ]
    else some
        (load_bytes b.buf b.begin sz, record q { before = record b { begin = b.begin + sz } ∷ bs })

-- `m_content_size -= sz_to_read_total`, which stands before the move of the head.
unfoldable pub pull : Buffer → ℕ → Option (ℕ × List ℕ × Buffer)
pull q size =
    if is_empty q 1
    then some (0, [], q)
    else (let total = min size q.content_size in
        elim (pull_loop q.before q total) [
          | none ↦ none
          | some (bytes, q') ↦
              some (total, bytes, record q' { content_size = sub64 q'.content_size total })
        ])

-- The loop of `copy_content`, which goes on from a block that holds bytes only.
unfoldable pub copy_content : List Block → Block → List ℕ
copy_content [] t = if ltb t.begin t.end then block_bytes t else []
copy_content (b ∷ bs) t =
    let rest = copy_content bs t in if ltb b.begin b.end then block_bytes b ++ rest else []

unfoldable pub shrink_to_fit : Buffer → Buffer
shrink_to_fit q = record q { empty_blocks = []; empty_block_cnt = 0 }

module _ (block_size : ℕ) (unknown : Memory) where
  abbrev pub fresh_block : Block
  fresh_block = record { begin = 0; end = 0; buf = unknown }

  -- The constructor.
  abbrev pub create : ℕ → Buffer
  create max_block_no = record {
    before = [];
    tail = fresh_block;
    empty_blocks = [];
    max_block_no = max_block_no;
    used_block_cnt = 1;
    empty_block_cnt = 0;
    content_size = 0;
  }

  abbrev pub is_block_full : Buffer → ℕ → Bool
  is_block_full q incoming_sz = leb block_size (wrap64 (q.tail.end + incoming_sz))

  unfoldable pub is_full : Buffer → ℕ → Bool
  is_full q incoming_sz =
      not (q.max_block_no == 0)
      && (q.used_block_cnt == q.max_block_no)
      && is_block_full q incoming_sz

  abbrev pub get_capacity : Buffer → ℕ
  get_capacity q = wrap64 (cnt_block_total q * block_size)

  -- The rest of the tail is filled, and a block is put behind it: an empty one if there is any.
  unfoldable pub next_block : Buffer → List ℕ → Buffer
  next_block q bytes = elim q.empty_blocks [
    | [] ↦ record q {
      before = q.before ++ (write_block q.tail bytes ∷ []);
      tail = fresh_block;
      used_block_cnt = wrap64 (q.used_block_cnt + 1);
    }
    | e ∷ es ↦ record q {
      before = q.before ++ (write_block q.tail bytes ∷ []);
      tail = reset_block e;
      empty_blocks = es;
      used_block_cnt = wrap64 (q.used_block_cnt + 1);
      empty_block_cnt = sub64 q.empty_block_cnt 1;
    }
  ]

  -- The loop of `push`, on fuel.
  unfoldable pub push_loop : ℕ → Buffer → List ℕ → Option Buffer
  push_loop zero q bytes = none
  push_loop (suc fuel) q bytes =
      let space_left = sub64 block_size q.tail.end in
      let rest = push_loop fuel (next_block q (take space_left bytes)) (drop space_left bytes) in
      if is_block_full q (length bytes)
      then rest
      else some (record q { tail = write_block q.tail bytes })

  -- What `push` returns, with a round of the loop for each byte and one more.
  unfoldable pub push : Buffer → List ℕ → Option (ℕ × Buffer)
  push q bytes =
      if is_full q (length bytes)
      then some (eagain, q)
      else elim (push_loop (length bytes + 1) q bytes) [
        | none ↦ none
        | some q' ↦
            some
              (length bytes, record q' { content_size = wrap64 (q'.content_size + length bytes) })
      ]
