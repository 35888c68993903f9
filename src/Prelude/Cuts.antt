-- ===== src/Prelude/Cuts.antt =====
-- Fronts and backs of a list that is made of two.
use Prim.Native.Nat.{ℕ, zero, suc, ◌+◌, ◌≤◌}
use mathlib.Core.Path.{◌≡◌, refl, ap, ◌∙◌}
use mathlib.Core.List.{List, [], ◌∷◌, ◌++◌}
use native.Mathlib.Omega.{arith}
use zrtools.Prelude.Lists.{length, take, drop}

module _ {ℓ} {A : Type ℓ} where
  pub take-append_le : (k : ℕ) (xs ys : List A) → k ≤ length xs → take k (xs ++ ys) ≡ take k xs
  take-append_le zero xs ys h = refl
  take-append_le (suc k) [] ys h = absurd (omega arith)
  take-append_le (suc k) (x ∷ xs) ys h = ap (◌∷◌ x) (take-append_le k xs ys (omega arith))

  pub drop-append_le :
      (k : ℕ) (xs ys : List A) → k ≤ length xs → drop k (xs ++ ys) ≡ drop k xs ++ ys
  drop-append_le zero xs ys h = refl
  drop-append_le (suc k) [] ys h = absurd (omega arith)
  drop-append_le (suc k) (x ∷ xs) ys h = drop-append_le k xs ys (omega arith)

  pub take-append_ge : (k : ℕ) (xs ys : List A) → take (length xs + k) (xs ++ ys) ≡ xs ++ take k ys
  take-append_ge k [] ys = ap (λ (n : ℕ). take n ys) (omega arith)
  take-append_ge k (x ∷ xs) ys =
      let one_more : suc (length xs) + k ≡ suc (length xs + k) = omega arith in
      ap (λ (n : ℕ). take n (x ∷ xs ++ ys)) one_more ∙ ap (◌∷◌ x) (take-append_ge k xs ys)

  pub drop-append_ge : (k : ℕ) (xs ys : List A) → drop (length xs + k) (xs ++ ys) ≡ drop k ys
  drop-append_ge k [] ys = ap (λ (n : ℕ). drop n ys) (omega arith)
  drop-append_ge k (x ∷ xs) ys =
      let one_more : suc (length xs) + k ≡ suc (length xs + k) = omega arith in
      ap (λ (n : ℕ). drop n (x ∷ xs ++ ys)) one_more ∙ drop-append_ge k xs ys
