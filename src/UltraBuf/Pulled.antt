-- ===== src/UltraBuf/Pulled.antt =====
-- src/zrtools/ultrabuf.cpp: `read` and `pull` against the bytes that a buffer holds.
use zrtools.Prelude.{
  ℕ, zero, suc, ◌≡◌, ◌≤◌, ◌<◌, ◌^◌, ◌∙◌, ap, ap₂, refl, arith, List, [], ◌∷◌, min, Option, some,
  length, take, drop, Bool-cases, true, ltb, sub64, inl, inr, length-drop,
}
use zrtools.UltraBuf.Buffer.{Buffer, read, pull}
use zrtools.UltraBuf.Contents.{contents, IsBuffer}
use zrtools.UltraBuf.Taken.{read_loop-take, IsTaken, pull_loop-IsTaken}

take_none : (n : ℕ) → take {A = ℕ} n [] ≡ []
take_none zero = refl
take_none (suc n) = refl

drop_none : (n : ℕ) → drop {A = ℕ} n [] ≡ []
drop_none zero = refl
drop_none (suc n) = refl

take-min : (n : ℕ) (xs : List ℕ) → take (min n (length xs)) xs ≡ take n xs
take-min zero xs = ap (λ (k : ℕ). take k xs) {y = 0} (omega arith)
take-min (suc n) [] = ap (λ (k : ℕ). take {A = ℕ} k []) {y = 0} (omega arith)
take-min (suc n) (x ∷ xs) =
    ap (λ (k : ℕ). take k (x ∷ xs)) {y = suc (min n (length xs))} (omega arith)
    ∙ ap (◌∷◌ x) (take-min n xs)

drop-min : (n : ℕ) (xs : List ℕ) → drop (min n (length xs)) xs ≡ drop n xs
drop-min zero xs = ap (λ (k : ℕ). drop k xs) {y = 0} (omega arith)
drop-min (suc n) [] = ap (λ (k : ℕ). drop {A = ℕ} k []) {y = 0} (omega arith)
drop-min (suc n) (x ∷ xs) =
    ap (λ (k : ℕ). drop k (x ∷ xs)) {y = suc (min n (length xs))} (omega arith) ∙ drop-min n xs

module _ (block_size : ℕ) where
  -- What is left to read fits.
  total-fits :
      (q : Buffer) (bytes : List ℕ) (n : ℕ)
      → IsBuffer block_size q bytes
      → (min n q.content_size ≡ min n (length bytes))
        × (min n q.content_size ≤ length (contents q.before q.tail))
        × (min n q.content_size < 2 ^ 64)
  total-fits q bytes n h =
      let same : length (contents q.before q.tail) ≡ length bytes =
        ap (λ (xs : List ℕ). length xs) h.holds in
      (
        omega (arith, h.size_counted),
        omega (arith, h.size_counted),
        omega (arith, h.size_counted, h.size_fits),
      )

  -- `read` copies the first bytes.
  read-take :
      (q : Buffer) (bytes : List ℕ) (n : ℕ)
      → IsBuffer block_size q bytes
      → read q n ≡ some (min n (length bytes), take n bytes)
  unfolding read
  read-take q bytes n h = elim (Bool-cases (ltb q.content_size 1)) [
    | inl none_left ↦ rw none_left (nothing bytes h.size_counted none_left)
    | inr some_left ↦
        let total = min n q.content_size in
        let (number, fits, small) = total-fits q bytes n h in
        let got = read_loop-take block_size q.before q.tail total h.chain fits small in
        let first : take total (contents q.before q.tail) ≡ take n bytes =
          ap₂ take number h.holds ∙ take-min n bytes in
        let found : read q n ≡ some (total, take total (contents q.before q.tail)) =
          rw (some_left, got) refl in
        found ∙ ap₂ (λ (t : ℕ) (xs : List ℕ). some (t, xs)) number first
  ]
    where
      nothing :
          (bytes : List ℕ)
          → q.content_size ≡ length bytes
          → ltb q.content_size 1 ≡ true
          → ◌≡◌ {A = Option (ℕ × List ℕ)} (some (0, [])) (some (min n (length bytes), take n bytes))
      nothing [] e l = let none_left : min n 0 ≡ 0 = omega arith in rw (none_left, take_none n) refl
      nothing (b ∷ bs) e l = absurd (ground arith)

  pull_rest-IsBuffer :
      (q : Buffer) (bytes : List ℕ) (n : ℕ)
      → IsBuffer block_size q bytes
      → (q' : Buffer) × (pull q n ≡ some (min n (length bytes), take n bytes, q'))
        × IsBuffer block_size q' (drop n bytes)
        × (q'.max_block_no ≡ q.max_block_no)
        × (q'.used_block_cnt ≤ q.used_block_cnt)
  unfolding pull
  pull_rest-IsBuffer q bytes n h = elim (Bool-cases (ltb q.content_size 1)) [
    | inl none_left ↦ nothing bytes h none_left
    | inr some_left ↦
        let total = min n q.content_size in
        let (number, fits, small) = total-fits q bytes n h in
        let r : IsTaken block_size q.before q total =
          pull_loop-IsTaken block_size q.before q total h.chain fits small
            (omega (arith, h.blocks_counted)) h.blocks_fit in
        let left : Buffer = record r.after { content_size = sub64 r.after.content_size total } in
        let first : take total (contents q.before q.tail) ≡ take n bytes =
          ap₂ take number h.holds ∙ take-min n bytes in
        let found : pull q n ≡ some (total, take total (contents q.before q.tail), left) =
          rw (some_left, r.returned) refl in
        (
          left,
          found ∙ ap₂ (λ (t : ℕ) (xs : List ℕ). some (t, xs, left)) number first,
          record {
            chain = r.chain;
            holds = r.holds ∙ ap₂ drop number h.holds ∙ drop-min n bytes;
            size_counted =
                omega (arith, r.same_size, h.size_counted, length-drop n bytes, h.size_fits);
            blocks_counted = omega (arith, r.counted, h.blocks_counted);
            size_fits = omega (arith, length-drop n bytes, h.size_fits);
            blocks_fit = omega (arith, r.counted, r.fewer, h.blocks_fit);
          },
          r.same_limit,
          omega (arith, r.counted, r.fewer),
        )
  ]
    where
      nothing :
          (bytes : List ℕ)
          → IsBuffer block_size q bytes
          → ltb q.content_size 1 ≡ true
          → (q' : Buffer) × (pull q n ≡ some (min n (length bytes), take n bytes, q'))
            × IsBuffer block_size q' (drop n bytes)
            × (q'.max_block_no ≡ q.max_block_no)
            × (q'.used_block_cnt ≤ q.used_block_cnt)
      nothing [] w l =
          let none_left : min n 0 ≡ 0 = omega arith in
          (q, rw (l, none_left, take_none n) refl, rw (drop_none n) w, refl, omega arith)
      nothing (b ∷ bs) w l = let e = w.size_counted in absurd (ground arith)

  -- pull of a number of bytes from a buffer that holds bytes never leaves the chain of blocks: it gives
  -- the first of them, that many or all, and their number; the buffer then holds the others, and the
  -- blocks in use do not grow. read gives the same.
  pub pull-IsBuffer :
      (q : Buffer) (bytes : List ℕ) (n : ℕ)
      → IsBuffer block_size q bytes
      → (read q n ≡ some (min n (length bytes), take n bytes))
        × (q' : Buffer) × (pull q n ≡ some (min n (length bytes), take n bytes, q'))
        × IsBuffer block_size q' (drop n bytes)
        × (q'.max_block_no ≡ q.max_block_no)
        × (q'.used_block_cnt ≤ q.used_block_cnt)
  pull-IsBuffer q bytes n h =
      let (q', returned, left, limit, blocks) = pull_rest-IsBuffer q bytes n h in
      (read-take q bytes n h, q', returned, left, limit, blocks)
