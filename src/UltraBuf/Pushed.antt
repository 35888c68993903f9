-- ===== src/UltraBuf/Pushed.antt =====
-- src/zrtools/ultrabuf.cpp: `push` against the bytes that a buffer holds.
use native.Mathlib.Nat.{div-eq_of_lt, div-eq-sub-div}
use zrtools.Prelude.{
  ℕ, zero, suc, ◌+◌, ◌-◌, ◌/◌, ◌≡◌, ◌≤◌, ◌<◌, ◌⊎◌, ◌^◌, ◌∙◌, ap, sym, refl, arith, List, [], ◌∷◌,
  ◌++◌, some, length, take, drop, length-append, Bool-cases, true, false, wrap64, sub64, inl, inr,
  length-take, length-drop, take-append-drop, append_assoc,
}
use zrtools.Wal.Memory.{Memory, load_bytes}
use zrtools.UltraBuf.Buffer.{
  Block, Buffer, eagain, block_bytes, write_block, reset_block, fresh_block, is_block_full, is_full,
  next_block, push_loop, push,
}
use zrtools.UltraBuf.Contents.{
  contents, IsChain, tail_inside, IsChain-write, IsChain-append, contents-write_block,
  contents-append, IsBuffer,
}

module _ (block_size : ℕ) (unknown : Memory) where
  -- A round of the loop that fills the tail: the chain has the bytes and one block more, whose
  -- offsets are 0.
  record IsNext (q : Buffer) (bytes : List ℕ) (q' : Buffer) : Type 0 where
    pub chain : IsChain block_size q'.before q'.tail
    pub holds : contents q'.before q'.tail ≡ contents q.before q.tail ++ bytes
    pub at_start : q'.tail.end ≡ 0
    pub one_more : length q'.before ≡ length q.before + 1
    pub counted : q'.used_block_cnt ≡ wrap64 (q.used_block_cnt + 1)
    pub same_size : q'.content_size ≡ q.content_size
    pub same_limit : q'.max_block_no ≡ q.max_block_no

  none_held : (u : Block) → u.begin ≡ 0 → u.end ≡ 0 → block_bytes u ≡ []
  unfolding load_bytes
  none_held u z z' = ap (load_bytes u.buf u.begin) {y = 0} (omega arith)

  grown :
      (q : Buffer) (bytes : List ℕ) (u : Block) (es : List Block) (n : ℕ)
      → IsChain block_size q.before q.tail
      → q.tail.end + length bytes ≡ block_size
      → u.begin ≡ 0
      → u.end ≡ 0
      → IsNext q bytes (record q {
        before = q.before ++ (write_block q.tail bytes ∷ []);
        tail = u;
        empty_blocks = es;
        used_block_cnt = wrap64 (q.used_block_cnt + 1);
        empty_block_cnt = n;
      })
  grown q bytes u es n h full z z' = record {
    chain = IsChain-append block_size q.before q.tail (write_block q.tail bytes) u h refl full z z';
    holds =
        contents-append q.before (write_block q.tail bytes) u (none_held u z z')
        ∙ contents-write_block q.before q.tail bytes (tail_inside block_size q.before q.tail h).0;
    at_start = z';
    one_more = omega (arith, length-append q.before (write_block q.tail bytes ∷ []));
    counted = refl;
    same_size = refl;
    same_limit = refl;
  }

  next_block-IsNext :
      (q : Buffer) (bytes : List ℕ)
      → IsChain block_size q.before q.tail
      → q.tail.end + length bytes ≡ block_size
      → IsNext q bytes (next_block block_size unknown q bytes)
  unfolding next_block
  next_block-IsNext q bytes h full = from_empty q.empty_blocks refl
    where
      from_empty :
          (es : List Block)
          → q.empty_blocks ≡ es
          → IsNext q bytes (next_block block_size unknown q bytes)
      from_empty [] e = rw e (
          grown (record q { empty_blocks = [] }) bytes (fresh_block block_size unknown) []
            q.empty_block_cnt h full refl refl)
      from_empty (e' ∷ es) e = rw e (
          grown (record q { empty_blocks = e' ∷ es }) bytes (reset_block e') es
            (sub64 q.empty_block_cnt 1) h full refl refl)

  -- The loop ends; every time that the tail is full, the chain has one block more.
  record IsPushed (fuel : ℕ) (q : Buffer) (bytes : List ℕ) : Type 0 where
    pub after : Buffer
    pub returned : push_loop block_size unknown fuel q bytes ≡ some after
    pub chain : IsChain block_size after.before after.tail
    pub holds : contents after.before after.tail ≡ contents q.before q.tail ++ bytes
    pub longer : length after.before ≡ length q.before + (q.tail.end + length bytes) / block_size
    pub counted : after.used_block_cnt ≡ q.used_block_cnt + (q.tail.end + length bytes) / block_size
    pub few : after.used_block_cnt ≤ q.used_block_cnt + length bytes
    pub same_size : after.content_size ≡ q.content_size
    pub same_limit : after.max_block_no ≡ q.max_block_no

  -- The bytes of this round and of those that follow.
  joined :
      (held bytes : List ℕ) (space : ℕ) {middle after : List ℕ}
      → after ≡ middle ++ drop space bytes
      → middle ≡ held ++ take space bytes
      → after ≡ held ++ bytes
  joined held bytes space e f =
      e
      ∙ ap (λ (xs : List ℕ). xs ++ drop space bytes) f
      ∙ append_assoc held (take space bytes) (drop space bytes)
      ∙ ap (◌++◌ held) (take-append-drop space bytes)

  -- A round that fills the tail, and the rounds behind it.
  after_round :
      (fuel : ℕ) (q q1 : Buffer) (bytes : List ℕ) (space : ℕ)
      → space ≡ block_size - q.tail.end
      → q.tail.end < block_size
      → block_size ≤ q.tail.end + length bytes
      → q.used_block_cnt + length bytes < 2 ^ 64
      → IsNext q (take space bytes) q1
      → IsPushed fuel q1 (drop space bytes)
      → push_loop block_size unknown (suc fuel) q bytes
        ≡ push_loop block_size unknown fuel q1 (drop space bytes)
      → IsPushed (suc fuel) q bytes
  after_round fuel q q1 bytes space room inside over fit next r looped =
      let left : q1.tail.end + length (drop space bytes) ≡ q.tail.end + length bytes - block_size =
        omega (arith, next.at_start, length-drop space bytes) in
      let rounds : (q.tail.end + length bytes) / block_size
          ≡ (q1.tail.end + length (drop space bytes)) / block_size + 1 =
        div-eq-sub-div (omega arith) over ∙ ap (λ (n : ℕ). n / block_size + 1) (sym left) in
      record {
        after = r.after;
        returned = looped ∙ r.returned;
        chain = r.chain;
        holds = joined (contents q.before q.tail) bytes space r.holds next.holds;
        longer = omega (arith, r.longer, next.one_more, rounds);
        counted = omega (arith, r.counted, next.counted, rounds);
        few = omega (arith, r.few, next.counted, length-drop space bytes);
        same_size = r.same_size ∙ next.same_size;
        same_limit = r.same_limit ∙ next.same_limit;
      }

  push_loop-IsPushed :
      (fuel : ℕ) (q : Buffer) (bytes : List ℕ)
      → length bytes < fuel
      → IsChain block_size q.before q.tail
      → block_size + length bytes < 2 ^ 64
      → q.used_block_cnt + length bytes < 2 ^ 64
      → IsPushed fuel q bytes
  unfolding push_loop
  push_loop-IsPushed zero q bytes l h small fit = absurd (omega arith)
  push_loop-IsPushed (suc fuel) q bytes l h small fit =
      elim (Bool-cases (is_block_full block_size unknown q (length bytes))) [
        | inl full ↦
            let (start, inside) = tail_inside block_size q.before q.tail h in
            let space = sub64 block_size q.tail.end in
            let over : block_size ≤ q.tail.end + length bytes = full_size full in
            let room : space ≡ block_size - q.tail.end = omega arith in
            let q1 = next_block block_size unknown q (take space bytes) in
            let next : IsNext q (take space bytes) q1 =
              next_block-IsNext q (take space bytes) h (omega (arith, length-take space bytes)) in
            after_round fuel q q1 bytes space room inside over fit next
              (push_loop-IsPushed fuel q1 (drop space bytes)
                (omega (arith, length-drop space bytes)) next.chain
                (omega (arith, length-drop space bytes))
                (omega (arith, length-drop space bytes, next.counted)))
              (rw full refl)
        | inr fits ↦
            let (start, inside) = tail_inside block_size q.before q.tail h in
            let within : q.tail.end + length bytes < block_size = ground arith in
            record {
              after = record q { tail = write_block q.tail bytes };
              returned = rw fits refl;
              chain =
                  IsChain-write block_size q.before q.tail (write_block q.tail bytes) h refl
                    (omega arith) within;
              holds = contents-write_block q.before q.tail bytes start;
              longer = omega (arith, div-eq_of_lt within);
              counted = omega (arith, div-eq_of_lt within);
              few = omega arith;
              same_size = refl;
              same_limit = refl;
            }
      ]
    where
      full_size :
          is_block_full block_size unknown q (length bytes) ≡ true
          → block_size ≤ q.tail.end + length bytes
      full_size full = ground arith

  -- push on a buffer that holds bytes, with sizes and counts that fit 64 bits, always ends. Where
  -- is_full holds, it returns EAGAIN and changes nothing. Else it returns the size, the buffer holds the
  -- bytes behind those before, and the blocks in use grow by the number of times that the tail is filled.
  pub push-IsBuffer :
      (q : Buffer) (held bytes : List ℕ)
      → IsBuffer block_size q held
      → block_size + length bytes < 2 ^ 64
      → length held + length bytes < 2 ^ 64
      → q.used_block_cnt + length bytes < 2 ^ 64
      → ((is_full block_size unknown q (length bytes) ≡ true)
          × (push block_size unknown q bytes ≡ some (eagain, q)))
        ⊎ ((is_full block_size unknown q (length bytes) ≡ false)
            × (q' : Buffer) × (push block_size unknown q bytes ≡ some (length bytes, q'))
            × IsBuffer block_size q' (held ++ bytes)
            × (q'.used_block_cnt ≡ q.used_block_cnt + (q.tail.end + length bytes) / block_size))
  unfolding push
  push-IsBuffer q held bytes w small fits fit =
      elim (Bool-cases (is_full block_size unknown q (length bytes))) [
        | inl full ↦ inl (full, rw full refl)
        | inr open_ ↦
            let r : IsPushed (length bytes + 1) q bytes =
              push_loop-IsPushed (length bytes + 1) q bytes (omega arith) w.chain small fit in
            let left : Buffer = record r.after {
              content_size = wrap64 (r.after.content_size + length bytes);
            } in
            inr (
              open_,
              left,
              rw (open_, r.returned) refl,
              record {
                chain = r.chain;
                holds = r.holds ∙ ap (λ (xs : List ℕ). xs ++ bytes) w.holds;
                size_counted = omega (arith, r.same_size, w.size_counted, length-append held bytes);
                blocks_counted = omega (arith, r.counted, r.longer, w.blocks_counted);
                size_fits = omega (arith, length-append held bytes);
                blocks_fit = omega (arith, r.few, fit);
              },
              r.counted,
            )
      ]
