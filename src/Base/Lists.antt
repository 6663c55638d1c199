-- ===== src/Base/Lists.antt =====
-- Lists measured by native numbers, under the library's names.
use Prim.Native.Nat.{ℕ, suc, ◌+◌}
use mathlib.Core.Path.{◌≡◌}
use mathlib.Core.List.{List, [], ◌∷◌, ◌++◌}
use native.Mathlib.Omega.{arith}

module _ {ℓ} {A : Type ℓ} where
  abbrev pub length : List A → ℕ
  length [] = 0
  length (x ∷ xs) = suc (length xs)

  pub length-append : (xs ys : List A) → length (xs ++ ys) ≡ length xs + length ys
  length-append [] ys = omega arith
  length-append (x ∷ xs) ys = omega (arith, length-append xs ys)

  -- The sum of a measure over a list.
  unfoldable pub list_sum : (A → ℕ) → List A → ℕ
  list_sum w [] = 0
  list_sum w (x ∷ xs) = w x + list_sum w xs

  pub list_sum-append :
      (w : A → ℕ) (xs ys : List A) → list_sum w (xs ++ ys) ≡ list_sum w xs + list_sum w ys
  unfolding list_sum
  list_sum-append w [] ys = omega arith
  list_sum-append w (x ∷ xs) ys = omega (arith, list_sum-append w xs ys)

  pub list_sum-one : (w : A → ℕ) (x : A) → list_sum w (x ∷ []) ≡ w x
  unfolding list_sum
  list_sum-one w x = omega arith
