-- ===== src/Base/Arrays.antt =====
-- C arrays as functions of the index, written one cell at a time, and sums over their first cells.
use Prim.Native.Nat.{ℕ, zero, suc, ◌+◌, ◌%◌, ◌≤◌, ◌<◌}
use mathlib.Core.Path.{◌≡◌, refl}
use mathlib.Core.Logic.{◌≢◌}
use native.Mathlib.Decide.{dec_lt}
use native.Mathlib.Omega.{arith}
use native.Mathlib.Nat.{div-add-mod}
use enki_ts.Base.Tests.{◌==◌, if◌then◌else◌}

-- `a[ i ] = v`
abbrev pub update {ℓ} : {A : Type ℓ} → (ℕ → A) → ℕ → A → ℕ → A
update a i v j = if i == j then v else a j

-- `f 0 + … + f (n - 1)`
unfoldable pub sum_below : ℕ → (ℕ → ℕ) → ℕ
sum_below zero f = 0
sum_below (suc n) f = sum_below n f + f n

-- Two families that agree at every index below `n` have one sum.
pub sum_below-ext :
    (n : ℕ) (f g : ℕ → ℕ) → ((j : ℕ) → j < n → g j ≡ f j) → sum_below n g ≡ sum_below n f
unfolding sum_below
sum_below-ext zero f g same = refl
sum_below-ext (suc n) f g same =
    ground (arith, sum_below-ext n f g (λ j h. same j (omega arith)), same n (omega arith))

-- Two families that agree away from `i` have sums that differ by the cell at `i`.
pub sum_below-change :
    (n i : ℕ) (f g : ℕ → ℕ)
    → i < n
    → ((j : ℕ) → j ≢ i → g j ≡ f j)
    → sum_below n g + f i ≡ sum_below n f + g i
unfolding sum_below
sum_below-change zero i f g h same = absurd (omega arith)
sum_below-change (suc n) i f g h same = elim (dec_lt i n) [
  | yes below ↦ ground (arith, sum_below-change n i f g below same, same n (omega arith))
  | no last ↦ ground (arith, sum_below-ext n f g (λ j lt. same j (omega arith)))
]

pub sum_below-zero : (n : ℕ) (f : ℕ → ℕ) → ((j : ℕ) → j < n → f j ≡ 0) → sum_below n f ≡ 0
unfolding sum_below
sum_below-zero zero f h = refl
sum_below-zero (suc n) f h =
    omega (arith, sum_below-zero n f (λ j lt. h j (omega arith)), h n (omega arith))

pub le-sum_below : (n : ℕ) (f : ℕ → ℕ) (i : ℕ) → i < n → f i ≤ sum_below n f
unfolding sum_below
le-sum_below zero f i h = absurd (omega arith)
le-sum_below (suc n) f i h = elim (dec_lt i n) [
  | yes below ↦ omega (arith, le-sum_below n f i below)
  | no last ↦ ground arith
]

pub sum_below-le : (n : ℕ) (f : ℕ → ℕ) → ((j : ℕ) → f j ≤ 1) → sum_below n f ≤ n
unfolding sum_below
sum_below-le zero f h = omega arith
sum_below-le (suc n) f h = omega (arith, sum_below-le n f h, h n)

-- Two indices less than `m` apart do not share a cell modulo `m`.
pub mod_distinct : (m i j : ℕ) → i < j → j < i + m → i % m ≢ j % m
mod_distinct m i j h k e = grind (arith, div-add-mod i m, div-add-mod j m)
