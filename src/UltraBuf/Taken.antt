-- ===== src/UltraBuf/Taken.antt =====
-- src/zrtools/ultrabuf.cpp: the loops of `read` and `pull` over the blocks.
use zrtools.Prelude.Cuts.{take-append_le, take-append_ge, drop-append_ge, drop-append_le}
use zrtools.Prelude.{
  ℕ, ◌+◌, ◌-◌, ◌≡◌, ◌≤◌, ◌<◌, ◌^◌, ◌∙◌, ap, sym, refl, arith, List, [], ◌∷◌, ◌++◌, some, length,
  take, drop, length-append, Bool-cases, false, ltb, sub64, inl, inr,
}
use zrtools.Wal.Memory.{load_bytes, length-load_bytes, take-load_bytes}
use zrtools.UltraBuf.Buffer.{
  Block, Buffer, block_content_sz, block_bytes, read_loop, pass_head, pull_loop,
}
use zrtools.UltraBuf.Contents.{contents, IsChain, IsAhead-IsChain, drop-load_bytes}

block_length : (b : Block) → length (block_bytes b) ≡ block_content_sz b
block_length b = length-load_bytes b.buf b.begin (block_content_sz b)

-- Bytes of a first block and of those behind it.
take_past :
    (b : Block) (rest : List ℕ) (sz : ℕ)
    → block_content_sz b ≤ sz
    → take sz (block_bytes b ++ rest) ≡ block_bytes b ++ take (sz - block_content_sz b) rest
take_past b rest sz h =
    let split : sz ≡ length (block_bytes b) + (sz - block_content_sz b) =
      omega (arith, block_length b) in
    ap (λ (n : ℕ). take n (block_bytes b ++ rest)) split
    ∙ take-append_ge (sz - block_content_sz b) (block_bytes b) rest

drop_past :
    (b : Block) (rest : List ℕ) (sz : ℕ)
    → block_content_sz b ≤ sz
    → drop sz (block_bytes b ++ rest) ≡ drop (sz - block_content_sz b) rest
drop_past b rest sz h =
    let split : sz ≡ length (block_bytes b) + (sz - block_content_sz b) =
      omega (arith, block_length b) in
    ap (λ (n : ℕ). drop n (block_bytes b ++ rest)) split
    ∙ drop-append_ge (sz - block_content_sz b) (block_bytes b) rest

take_within :
    (b : Block) (rest : List ℕ) (sz : ℕ)
    → sz ≤ block_content_sz b
    → load_bytes b.buf b.begin sz ≡ take sz (block_bytes b ++ rest)
take_within b rest sz h =
    take-load_bytes b.buf b.begin sz (block_content_sz b) h
    ∙ sym (take-append_le sz (block_bytes b) rest (omega (arith, block_length b)))

drop_within :
    (b : Block) (rest : List ℕ) (sz : ℕ)
    → sz ≤ block_content_sz b
    → drop sz (block_bytes b ++ rest)
      ≡ load_bytes b.buf (b.begin + sz) (b.end - (b.begin + sz)) ++ rest
drop_within b rest sz h =
    drop-append_le sz (block_bytes b) rest (omega (arith, block_length b))
    ∙ ap (λ (xs : List ℕ). xs ++ rest)
        (drop-load_bytes b.buf b.begin sz (block_content_sz b) h
          ∙ ap (load_bytes b.buf (b.begin + sz)) (omega arith))

sub64-small : (a b : ℕ) → b ≤ a → a < 2 ^ 64 → sub64 a b ≡ a - b
sub64-small a b h l = omega arith

module _ (block_size : ℕ) where
  pub read_loop-take :
      (bs : List Block) (t : Block) (sz : ℕ)
      → IsChain block_size bs t
      → sz ≤ length (contents bs t)
      → sz < 2 ^ 64
      → read_loop bs t sz ≡ some (take sz (contents bs t))
  unfolding read_loop contents IsChain
  read_loop-take [] t sz h l small =
      let fits : ltb (block_content_sz t) sz ≡ false = ground (arith, block_length t) in
      rw fits (
        ap some
          (take-load_bytes t.buf t.begin sz (block_content_sz t) (omega (arith, block_length t))))
  read_loop-take (b ∷ bs) t sz h l small = elim (Bool-cases (ltb (block_content_sz b) sz)) [
    | inl past ↦
        let rest =
          read_loop-take bs t (sz - block_content_sz b) (IsAhead-IsChain block_size bs t h.1)
            (omega (arith, block_length b, length-append (block_bytes b) (contents bs t)))
            (omega arith) in
        let over : block_content_sz b ≤ sz = ground arith in
        rw
          (
            past,
            sub64-small sz (block_content_sz b) over small,
            rest,
            take_past b (contents bs t) sz over,
          )
          refl
    | inr within ↦ rw within (ap some (take_within b (contents bs t) sz (ground arith)))
  ]

  -- The loop of `pull` takes the bytes off the front; the limit and the size stay, and the count of the
  -- blocks goes down by those that are passed.
  pub record IsTaken (bs : List Block) (q : Buffer) (sz : ℕ) : Type 0 where
    pub after : Buffer
    pub returned : pull_loop bs q sz ≡ some (take sz (contents bs q.tail), after)
    pub holds : contents after.before after.tail ≡ drop sz (contents bs q.tail)
    pub chain : IsChain block_size after.before after.tail
    pub same_size : after.content_size ≡ q.content_size
    pub same_limit : after.max_block_no ≡ q.max_block_no
    pub counted : after.used_block_cnt + length bs ≡ q.used_block_cnt + length after.before
    pub fewer : length after.before ≤ length bs

  pub pull_loop-IsTaken :
      (bs : List Block) (q : Buffer) (sz : ℕ)
      → IsChain block_size bs q.tail
      → sz ≤ length (contents bs q.tail)
      → sz < 2 ^ 64
      → length bs < q.used_block_cnt
      → q.used_block_cnt < 2 ^ 64
      → IsTaken bs q sz
  unfolding pull_loop contents IsChain pass_head
  pull_loop-IsTaken [] q sz h l small more fit =
      let t = q.tail in
      let enough : sz ≤ block_content_sz t = omega (arith, block_length t) in
      let fits : ltb (block_content_sz t) sz ≡ false = ground arith in
      record {
        after = record q { before = []; tail = record t { begin = t.begin + sz } };
        returned = rw fits (
            ap
              (λ (xs : List ℕ).
                some (xs, record q { before = []; tail = record t { begin = t.begin + sz } }))
              (take-load_bytes t.buf t.begin sz (block_content_sz t) enough));
        holds = sym (
            drop-load_bytes t.buf t.begin sz (block_content_sz t) enough
            ∙ ap (load_bytes t.buf (t.begin + sz)) (omega arith));
        chain = (omega (arith, h.0), h.1);
        same_size = refl;
        same_limit = refl;
        counted = refl;
        fewer = omega arith;
      }
  pull_loop-IsTaken (b ∷ bs) q sz h l small more fit =
      elim (Bool-cases (ltb (block_content_sz b) sz)) [
        | inl past ↦
            let over : block_content_sz b ≤ sz = ground arith in
            let r : IsTaken bs (pass_head b bs q) (sz - block_content_sz b) =
              pull_loop-IsTaken bs (pass_head b bs q) (sz - block_content_sz b)
                (IsAhead-IsChain block_size bs q.tail h.1)
                (omega (arith, block_length b, length-append (block_bytes b) (contents bs q.tail)))
                (omega arith) (omega arith) (omega arith) in
            record {
              after = r.after;
              returned =
                  rw
                    (
                      past,
                      sub64-small sz (block_content_sz b) over small,
                      r.returned,
                      take_past b (contents bs q.tail) sz over,
                    )
                    refl;
              holds = r.holds ∙ sym (drop_past b (contents bs q.tail) sz over);
              chain = r.chain;
              same_size = r.same_size;
              same_limit = r.same_limit;
              counted = omega (arith, r.counted);
              fewer = omega (arith, r.fewer);
            }
        | inr within ↦
            let enough : sz ≤ block_content_sz b = ground arith in
            let left = record q { before = record b { begin = b.begin + sz } ∷ bs } in
            record {
              after = left;
              returned = rw within (
                  ap (λ (xs : List ℕ). some (xs, left))
                    (take_within b (contents bs q.tail) sz enough));
              holds = sym (drop_within b (contents bs q.tail) sz enough);
              chain = (omega (arith, h.0), h.1);
              same_size = refl;
              same_limit = refl;
              counted = refl;
              fewer = omega arith;
            }
      ]
