-- ===== src/UltraQ/Messages.antt =====
-- src/zrtools/ultraq.h: the messages that a block and a chain of blocks hold, and the queue as the list
-- of its messages.
use zrtools.Prelude.{
  ℕ, ◌+◌, ◌≡◌, ◌≤◌, ◌<◌, ◌⊎◌, inl, inr, ◌∙◌, ap, sym, refl, subst, arith, List, [], ◌∷◌, ◌++◌,
  length, wrap64, append_assoc, append-nil,
}
use zrtools.Wal.Memory.{Memory, load_bytes, load_bytes-cong}
use zrtools.Wal.Words.{load_word, load_word-cong}
use zrtools.UltraQ.Queue.{Block, Queue, header_size}

-- From one offset to another, messages with their lengths.
abbrev pub Run : Memory → ℕ → List (List ℕ) → ℕ → Type 0
Run buf left [] right = left ≡ right
Run buf left (m ∷ ms) right =
    (load_word buf left 8 ≡ length m)
    × (load_bytes buf (left + header_size) (length m) ≡ m)
    × Run buf (left + (header_size + length m)) ms right

abbrev pub Holds : Block → List (List ℕ) → Type 0
Holds b ms = Run b.buf b.left_idx ms b.right_idx

-- The messages of the blocks before the tail.
abbrev pub AllHold : List Block → List (List ℕ) → Type 0
AllHold [] ms = ms ≡ []
AllHold (b ∷ bs) ms =
    (front : List (List ℕ)) × (back : List (List ℕ)) × (ms ≡ front ++ back)
    × Holds b front
    × AllHold bs back

unfoldable pub total : List (List ℕ) → ℕ
total [] = 0
total (m ∷ ms) = length m + total ms

pub total-append : (xs ys : List (List ℕ)) → total (xs ++ ys) ≡ total xs + total ys
unfolding total
total-append [] ys = omega arith
total-append (x ∷ xs) ys = omega (arith, total-append xs ys)

-- A queue that holds messages, in the order in which they were pushed. No more than the tail is empty,
-- no block is written past its end, and the counters count.
pub record IsQueue (block_size : ℕ) (q : Queue) (front back : List (List ℕ)) : Type 0 where
  pub earlier : AllHold q.before front
  pub last : Holds q.tail back
  pub tail_used : (q.before ≡ []) ⊎ (q.tail.left_idx < q.tail.right_idx)
  pub inside : q.tail.right_idx ≤ block_size
  pub size_counted : q.content_size ≡ wrap64 (total front + total back)
  pub blocks_counted : q.used_block_cnt ≡ length q.before + 1
  pub blocks_bounded : (q.max_block_no ≡ 0) ⊎ (q.used_block_cnt ≤ q.max_block_no)

pub Run-le :
    (buf : Memory) (left : ℕ) (ms : List (List ℕ)) (right : ℕ)
    → Run buf left ms right
    → left ≤ right
Run-le buf left [] right r = omega arith
Run-le buf left (m ∷ ms) right r =
    omega (arith, Run-le buf (left + (header_size + length m)) ms right r.2)

-- A run depends on the bytes between its ends.
pub Run-cong :
    (buf buf' : Memory) (left : ℕ) (ms : List (List ℕ)) (right : ℕ)
    → ((i : ℕ) → i < right → buf' i ≡ buf i)
    → Run buf left ms right
    → Run buf' left ms right
Run-cong buf buf' left [] right same r = r
Run-cong buf buf' left (m ∷ ms) right same r =
    let later = Run-le buf (left + (header_size + length m)) ms right r.2 in
    (
      load_word-cong buf' buf left left 8 (λ i h. same (left + i) (omega arith)) ∙ r.0,
      load_bytes-cong buf' buf (left + header_size) (left + header_size) (length m)
            (λ i h. same (left + header_size + i) (omega arith))
          ∙ r.1,
      Run-cong buf buf' (left + (header_size + length m)) ms right same r.2,
    )

pub Run-append :
    (buf : Memory) (left middle right : ℕ) (xs ys : List (List ℕ))
    → Run buf left xs middle
    → Run buf middle ys right
    → Run buf left (xs ++ ys) right
Run-append buf left middle right [] ys r s = subst (λ (p : ℕ). Run buf p ys right) (sym r) s
Run-append buf left middle right (x ∷ xs) ys r s =
    (r.0, r.1, Run-append buf (left + (header_size + length x)) middle right xs ys r.2 s)

-- A block whose indices meet holds nothing, and only such a block.
pub Run-empty :
    (buf : Memory) (left : ℕ) (ms : List (List ℕ)) (right : ℕ)
    → Run buf left ms right
    → ((left ≡ right) × (ms ≡ []))
      ⊎ ((left < right) × (m : List ℕ) × (rest : List (List ℕ)) × (ms ≡ m ∷ rest))
Run-empty buf left [] right r = inl (r, refl)
Run-empty buf left (m ∷ ms) right r =
    inr (omega (arith, Run-le buf (left + (header_size + length m)) ms right r.2), m, ms, refl)

pub AllHold-append :
    (bs : List Block) (b : Block) (xs ys : List (List ℕ))
    → AllHold bs xs
    → Holds b ys
    → AllHold (bs ++ (b ∷ [])) (xs ++ ys)
AllHold-append [] b xs ys h k =
    (ys, [], ap (λ (t : List (List ℕ)). t ++ ys) h ∙ sym (append-nil ys), k, refl)
AllHold-append (c ∷ bs) b xs ys (front, back, e, h, rest) k = (
  front,
  back ++ ys,
  ap (λ (t : List (List ℕ)). t ++ ys) e ∙ append_assoc front back ys,
  h,
  AllHold-append bs b back ys rest k,
)
