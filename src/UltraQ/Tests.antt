-- ===== src/UltraQ/Tests.antt =====
-- Runs of src/zrtools/ultraq.h, and its theorems at a concrete queue.
use zrtools.Prelude.{ℕ, ◌≡◌, ◌⊎◌, inr, refl, arith, List, [], ◌∷◌, ◌++◌, some}
use zrtools.UltraQ.Queue.{Queue, create, push_impl, pull}
use zrtools.UltraQ.Messages.{IsQueue, total}
use zrtools.UltraQ.Pushed.{push_impl-IsQueue}
use zrtools.UltraQ.Pulled.{IsPulled, pull-IsQueue}

-- Blocks of 32 bytes, two at most.
abbrev empty : Queue
empty = create 32 (λ i. 77) 2

abbrev text : List ℕ
text = 1 ∷ 2 ∷ 3 ∷ []

-- The queue with one message.
abbrev filled : Queue
filled = push_impl empty text

filled-IsQueue : IsQueue 32 filled [] (text ∷ [])
unfolding total
filled-IsQueue =
    push_impl-IsQueue 32 (λ i. 77) empty text [] [] (omega arith) refl refl (omega arith) refl refl
      (inr (omega arith))

filled_blocks : filled.used_block_cnt ≡ 1
unfolding push_impl
filled_blocks = refl

pull-IsQueue_example :
    (([] ++ (text ∷ []) ≡ []) × (pull filled ≡ some (0, [], filled)))
    ⊎ IsPulled 32 filled [] (text ∷ [])
unfolding total
pull-IsQueue_example =
    pull-IsQueue 32 filled [] (text ∷ []) filled-IsQueue (omega arith)
      (omega (arith, filled_blocks))
