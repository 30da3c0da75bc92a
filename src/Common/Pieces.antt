-- ===== src/Common/Pieces.antt =====
-- Pieces of a list: a prefix and what follows it.
use Prim.Native.Nat.{ℕ, zero, suc, ◌+◌, ◌≤◌}
use mathlib.Core.Path.{◌≡◌, refl, ap, ◌∙◌}
use mathlib.Core.List.{List, [], ◌∷◌, ◌++◌}
use native.Mathlib.Omega.{arith}
use multi_cloud.Common.Lists.{length, take, drop}

suc+ : (m n : ℕ) → suc (m + n) ≡ suc m + n
suc+ m n = omega arith

module _ {ℓ} {A : Type ℓ} where
  take-nil : (n : ℕ) → take {A = A} n [] ≡ []
  take-nil zero = refl
  take-nil (suc n) = refl

  -- A prefix and the piece after it are a longer prefix.
  pub take-append : (m n : ℕ) (xs : List A) → take m xs ++ take n (drop m xs) ≡ take (m + n) xs
  take-append zero n xs = ap (λ k. take k xs) (omega arith)
  take-append (suc m) n [] = take-nil n ∙ ap (λ k. take k []) (suc+ m n)
  take-append (suc m) n (x ∷ xs) =
      ap (λ ys. x ∷ ys) (take-append m n xs) ∙ ap (λ k. take k (x ∷ xs)) (suc+ m n)

  pub take-length : (xs : List A) → take (length xs) xs ≡ xs
  take-length [] = refl
  take-length (x ∷ xs) = ap (λ ys. x ∷ ys) (take-length xs)

  pub length-piece : (m n : ℕ) (xs : List A) → m + n ≤ length xs → length (take n (drop m xs)) ≡ n
  length-piece zero zero xs h = refl
  length-piece zero (suc n) [] h = omega arith
  length-piece zero (suc n) (x ∷ xs) h = ap suc (length-piece zero n xs (omega arith))
  length-piece (suc m) n [] h = ground arith
  length-piece (suc m) n (x ∷ xs) h = length-piece m n xs (omega arith)
