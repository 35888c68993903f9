-- ===== src/UltraQ/Pulled.antt =====
-- src/zrtools/ultraq.h: `pull` takes the first message.
use zrtools.Prelude.{
  ℕ, ◌+◌, ◌≡◌, ◌≢◌, ◌≤◌, ◌<◌, ◌⊎◌, inl, inr, ◌∙◌, ap, ap₂, sym, refl, subst, arith, List, [], ◌∷◌,
  ◌++◌, true, false, Bool-cases, length, get_or, sub64, some, ◌^◌,
}
use zrtools.UltraQ.Queue.{
  Block, Queue, header_size, is_block_empty, is_empty, pass_empty, take_message, passed_queue,
  pull_head, pull,
}
use zrtools.UltraQ.Messages.{Holds, AllHold, IsQueue, total, Run-empty}

-- The blocks that the walk leaves: none, or the first of them holds a message.
abbrev IsPassed : List Block → List (List ℕ) → List Block × List Block → Type 0
IsPassed bs ms (kept, passed) =
    AllHold kept ms
    × (length kept ≤ length bs)
    × ((kept ≡ [])
        ⊎ ((b : Block) × (rest : List Block) × (kept ≡ b ∷ rest) × (b.left_idx < b.right_idx)))

pass_empty-IsPassed :
    (bs passed : List Block) (ms : List (List ℕ))
    → AllHold bs ms
    → IsPassed bs ms (pass_empty bs passed)
unfolding pass_empty
pass_empty-IsPassed [] passed ms h = (h, omega arith, inl refl)
pass_empty-IsPassed (b ∷ bs) passed ms (front, back, e, h, rest) =
    elim (Run-empty b.buf b.left_idx front b.right_idx h) [
      | inl (meet, nothing) ↦
          let skipped : is_block_empty b ≡ true = ground arith in
          let same : ms ≡ back = e ∙ ap (λ (t : List (List ℕ)). t ++ back) nothing in
          let (kept, fewer, first) =
            pass_empty-IsPassed bs (b ∷ passed) ms (subst (AllHold bs) (sym same) rest) in
          rw skipped (kept, omega arith, first)
      | inr (apart, m, more, e') ↦
          let stays : is_block_empty b ≡ false = ground arith in
          rw stays ((front, back, e, h, rest), omega arith, inr (b, bs, refl, apart))
    ]

take_message-first :
    (b : Block) (m : List ℕ) (ms : List (List ℕ))
    → Holds b (m ∷ ms)
    → take_message b ≡ (m, record b { left_idx = b.left_idx + (header_size + length m) })
unfolding take_message
take_message-first b m ms h = rw (h.0, h.1) refl

-- What `pull` returns with the queue that it leaves.
pull-pull_head :
    (q : Queue) {kept : List Block × List Block}
    → is_empty q ≡ false
    → pass_empty q.before q.empty_blocks ≡ kept
    → pull q ≡ pull_head (passed_queue q kept)
unfolding pull
pull-pull_head q e p = rw e (ap (λ (k : List Block × List Block). pull_head (passed_queue q k)) p)

pull-last :
    (q : Queue) (passed : List Block) (m : List ℕ) (t : Block)
    → is_empty q ≡ false
    → pass_empty q.before q.empty_blocks ≡ ([], passed)
    → is_block_empty q.tail ≡ false
    → take_message q.tail ≡ (m, t)
    → let q' = passed_queue q ([], passed) in
      pull q
      ≡ some (length m, m, record q' { tail = t; content_size = sub64 q'.content_size (length m) })
unfolding pull_head
pull-last q passed m t e p b h = pull-pull_head q e p ∙ rw (b, h) refl

pull-first :
    (q : Queue) (b : Block) (bs passed : List Block) (m : List ℕ) (b' : Block)
    → is_empty q ≡ false
    → pass_empty q.before q.empty_blocks ≡ (b ∷ bs, passed)
    → take_message b ≡ (m, b')
    → let q' = passed_queue q (b ∷ bs, passed) in
      pull q
      ≡ some (
        length m,
        m,
        record q' { before = b' ∷ bs; content_size = sub64 q'.content_size (length m) },
      )
unfolding pull_head
pull-first q b bs passed m b' e p h = pull-pull_head q e p ∙ rw h refl

pull-nothing : (q : Queue) → is_empty q ≡ true → pull q ≡ some (0, [], q)
unfolding pull
pull-nothing q e = rw e refl

total-none : total [] ≡ 0
unfolding total
total-none = refl

total-first : (m : List ℕ) (ms : List (List ℕ)) → total (m ∷ ms) ≡ length m + total ms
unfolding total
total-first m ms = refl

-- A queue that is empty has one block, whose indices meet.
is_empty-true :
    (bs : List Block) (q : Queue)
    → q.before ≡ bs
    → is_empty q ≡ true
    → (bs ≡ []) × (q.tail.left_idx ≡ q.tail.right_idx)
unfolding is_empty
is_empty-true [] q e h = (refl, ground (arith, rw e at h))
is_empty-true (b ∷ bs) q e h = absurd (ground (arith, rw e at h))

is_empty-false :
    (q : Queue)
    → is_empty q ≡ false
    → (q.before ≡ []) ⊎ (q.tail.left_idx < q.tail.right_idx)
    → q.tail.left_idx ≢ q.tail.right_idx
unfolding is_empty
is_empty-false q h (inl e) p = ground (arith, rw e at h)
is_empty-false q h (inr apart) p = omega arith

module _ (block_size : ℕ) where
  -- After the walk, the first message is that of the tail or of the first block that is left.
  abbrev pub IsPulled : Queue → List (List ℕ) → List (List ℕ) → Type 0
  IsPulled q front back =
      (m : List ℕ) × (q' : Queue) × (front' : List (List ℕ)) × (back' : List (List ℕ)) × (front
          ++ back
        ≡ m ∷ (front' ++ back'))
      × (pull q ≡ some (length m, m, q'))
      × IsQueue block_size q' front' back'

  fewer_blocks :
      (q : Queue) (used : ℕ)
      → used ≤ q.used_block_cnt
      → (q.max_block_no ≡ 0) ⊎ (q.used_block_cnt ≤ q.max_block_no)
      → (q.max_block_no ≡ 0) ⊎ (used ≤ q.max_block_no)
  fewer_blocks q used h (inl e) = inl e
  fewer_blocks q used h (inr l) = inr (omega arith)

  last-IsPulled :
      (q : Queue) (front back : List (List ℕ)) (passed : List Block)
      → IsQueue block_size q front back
      → is_empty q ≡ false
      → pass_empty q.before q.empty_blocks ≡ ([], passed)
      → front ≡ []
      → total front + total back < 2 ^ 64
      → q.used_block_cnt < 2 ^ 64
      → IsPulled q front back
  last-IsPulled q front back passed w e p nothing fits small =
      elim (Run-empty q.tail.buf q.tail.left_idx back q.tail.right_idx w.last) [
        | inl (meet, none_left) ↦ absurd (is_empty-false q e w.tail_used meet)
        | inr (apart, m, rest, split) ↦
            let holds : Holds q.tail (m ∷ rest) =
              subst (λ (t : List (List ℕ)). Holds q.tail t) split w.last in
            let stays : is_block_empty q.tail ≡ false = ground arith in
            let size : total front + total back ≡ length m + total rest =
              rw (nothing, split, total-none) (omega (arith, total-first m rest)) in
            (
              m,
              _,
              [],
              rest,
              ap₂ (λ (x y : List (List ℕ)). x ++ y) nothing split,
              pull-last q passed m _ e p stays (take_message-first q.tail m rest holds),
              record {
                earlier = refl;
                last = holds.2;
                tail_used = inl refl;
                inside = w.inside;
                size_counted = omega (arith, size, w.size_counted, total-none);
                blocks_counted = omega (arith, w.blocks_counted);
                blocks_bounded =
                    fewer_blocks q _ (omega (arith, w.blocks_counted)) w.blocks_bounded;
              },
            )
      ]

  first-IsPulled :
      (q : Queue) (front back : List (List ℕ)) (b : Block) (bs passed : List Block)
      → IsQueue block_size q front back
      → is_empty q ≡ false
      → pass_empty q.before q.empty_blocks ≡ (b ∷ bs, passed)
      → AllHold (b ∷ bs) front
      → length (b ∷ bs) ≤ length q.before
      → b.left_idx < b.right_idx
      → total front + total back < 2 ^ 64
      → q.used_block_cnt < 2 ^ 64
      → IsPulled q front back
  first-IsPulled q front back b bs passed w e p (here, later, split, holds, rest) fewer apart fits
        small =
      elim (Run-empty b.buf b.left_idx here b.right_idx holds) [
        | inl (meet, none_left) ↦ absurd (omega arith)
        | inr (_, m, more, first) ↦
            let holds' : Holds b (m ∷ more) =
              subst (λ (t : List (List ℕ)). Holds b t) first holds in
            let all : front ≡ m ∷ (more ++ later) =
              split ∙ ap (λ (t : List (List ℕ)). t ++ later) first in
            let size : total front ≡ length m + total (more ++ later) =
              ap total all ∙ total-first m (more ++ later) in
            (
              m,
              _,
              more ++ later,
              back,
              ap (λ (t : List (List ℕ)). t ++ back) all,
              pull-first q b bs passed m _ e p (take_message-first b m more holds'),
              record {
                earlier = (more, later, refl, holds'.2, rest);
                last = w.last;
                tail_used = elim w.tail_used [
                  | inl none_before ↦ absurd (no_block fewer none_before)
                  | inr used ↦ inr used
                ];
                inside = w.inside;
                size_counted = omega (arith, size, w.size_counted);
                blocks_counted = omega (arith, w.blocks_counted);
                blocks_bounded =
                    fewer_blocks q _ (omega (arith, w.blocks_counted)) w.blocks_bounded;
              },
            )
      ]
    where
      no_block : length (b ∷ bs) ≤ length q.before → q.before ≡ [] → ⊥
      no_block h none_before = omega (arith, ap (λ (t : List Block). length t) none_before)

  -- `pull` on a queue that holds messages never leaves the chain of blocks. Without a message it returns
  -- 0 and changes nothing; else it returns the size and the bytes of the first message, and the queue
  -- holds the others. The sum of the sizes and the number of blocks fit 64 bits.
  pub pull-IsQueue :
      (q : Queue) (front back : List (List ℕ))
      → IsQueue block_size q front back
      → total front + total back < 2 ^ 64
      → q.used_block_cnt < 2 ^ 64
      → ((front ++ back ≡ []) × (pull q ≡ some (0, [], q))) ⊎ IsPulled q front back
  pull-IsQueue q front back w fits small = elim (Bool-cases (is_empty q)) [
    | inl e ↦
        let (one, meet) = is_empty-true q.before q refl e in
        inl (
          nothing (subst (λ (bs : List Block). AllHold bs front) one w.earlier) meet,
          pull-nothing q e,
        )
    | inr e ↦ inr (
        walked (pass_empty q.before q.empty_blocks) refl e
          (pass_empty-IsPassed q.before q.empty_blocks front w.earlier))
  ]
    where
      nothing : front ≡ [] → q.tail.left_idx ≡ q.tail.right_idx → front ++ back ≡ []
      nothing f meet = elim (Run-empty q.tail.buf q.tail.left_idx back q.tail.right_idx w.last) [
        | inl (_, none_left) ↦ ap₂ (λ (x y : List (List ℕ)). x ++ y) f none_left
        | inr (apart, m, rest, split) ↦ absurd (omega arith)
      ]

      walked :
          (kept : List Block × List Block)
          → pass_empty q.before q.empty_blocks ≡ kept
          → is_empty q ≡ false
          → IsPassed q.before front kept
          → IsPulled q front back
      walked ([], passed) p e (h, fewer, first) =
          last-IsPulled q front back passed w e p h fits small
      walked (b ∷ bs, passed) p e (h, fewer, inl none_kept) =
          absurd (omega (arith, ap (λ (t : List Block). length t) none_kept))
      walked (b ∷ bs, passed) p e (h, fewer, inr (c, rest, same, apart)) =
          first-IsPulled q front back b bs passed w e p h fewer
            (subst (λ (d : Block). d.left_idx < d.right_idx)
              (sym (ap (λ (t : List Block). get_or t 0 b) same)) apart)
            fits small
