-- ===== src/UltraBuf/Copied.antt =====
-- src/zrtools/ultrabuf.cpp: `copy_content` against the bytes that a buffer holds.
use zrtools.Prelude.{
  ℕ, ◌≡◌, ◌≤◌, ◌⊎◌, ◌∙◌, ap, sym, refl, arith, List, [], ◌∷◌, ◌++◌, Bool-cases, true, false, ltb,
  inl, inr,
}
use zrtools.Wal.Memory.{load_bytes}
use zrtools.UltraBuf.Buffer.{Block, Buffer, block_bytes, copy_content, is_block_empty}
use zrtools.UltraBuf.Contents.{contents, IsAhead, IsChain, IsBuffer}

module _ (block_size : ℕ) where
  block_bytes-none : (b : Block) → b.end ≤ b.begin → block_bytes b ≡ []
  unfolding load_bytes
  block_bytes-none b h = ap (load_bytes b.buf b.begin) {y = 0} (omega arith)

  copy_content-ahead :
      (bs : List Block) (t : Block) → IsAhead block_size bs t → copy_content bs t ≡ contents bs t
  unfolding copy_content contents IsAhead
  copy_content-ahead [] t h = elim (Bool-cases (ltb t.begin t.end)) [
    | inl some_left ↦ rw some_left refl
    | inr none_left ↦ rw none_left (sym (block_bytes-none t (ground arith)))
  ]
  copy_content-ahead (b ∷ bs) t h =
      let some_left : ltb b.begin b.end ≡ true = ground (arith, h.0) in
      rw some_left (ap (◌++◌ (block_bytes b)) (copy_content-ahead bs t h.1))

  copied :
      (bs : List Block) (t : Block) (q : Buffer)
      → q.before ≡ bs
      → q.tail ≡ t
      → IsChain block_size bs t
      → ((is_block_empty q ≡ false) × (copy_content bs t ≡ contents bs t))
        ⊎ ((is_block_empty q ≡ true) × (copy_content bs t ≡ []))
  unfolding copy_content contents IsChain is_block_empty
  copied [] t q e f h = elim (Bool-cases (ltb t.begin t.end)) [
    | inl some_left ↦ inl (rw (e, f) (ground arith), rw some_left refl)
    | inr none_left ↦ inr (rw (e, f) (ground (arith, h.0)), rw none_left refl)
  ]
  copied (b ∷ bs) t q e f h = elim (Bool-cases (ltb b.begin b.end)) [
    | inl some_left ↦ inl (
      rw e (ground arith),
      rw some_left (ap (◌++◌ (block_bytes b)) (copy_content-ahead bs t h.1)),
    )
    | inr none_left ↦ inr (rw e (ground (arith, h.0)), rw none_left refl)
  ]

  -- copy_content of a buffer that holds bytes gives all of them, unless the head is a block that is
  -- drained: then it gives none.
  pub copy_content-IsBuffer :
      (q : Buffer) (bytes : List ℕ)
      → IsBuffer block_size q bytes
      → ((is_block_empty q ≡ false) × (copy_content q.before q.tail ≡ bytes))
        ⊎ ((is_block_empty q ≡ true) × (copy_content q.before q.tail ≡ []))
  copy_content-IsBuffer q bytes h = elim (copied q.before q.tail q refl refl h.chain) [
    | inl (used, all) ↦ inl (used, all ∙ h.holds)
    | inr drained ↦ inr drained
  ]
