-- ===== src/Base/Tests.antt =====
-- Boolean tests on the native numbers, and the conditional.
use Prim.Native.Nat.{ℕ, zero, suc, ◌≤◌, ◌<◌, compare, Ordering}
use mathlib.Core.Path.{◌≡◌, refl}
use mathlib.Core.Logic.{◌↔◌, ◌⊎◌, inl, inr}
use mathlib.Core.Bool.{Bool, true, false, ◌||◌}
use mathlib.Core.Option.{Option, none, some}
use native.Mathlib.Decide.{dec_lt}
use native.Mathlib.Omega.{arith}

-- These compute to `compare`, which `ground` and `grind` read with no lemma listed.
abbrev pub ltb : ℕ → ℕ → Bool
ltb a b = elim (compare a b) [ Ordering.lt ↦ true | _ ↦ false ]

abbrev pub leb : ℕ → ℕ → Bool
leb a b = elim (compare a b) [ Ordering.gt ↦ false | _ ↦ true ]

infix 50 ◌==◌
abbrev pub ◌==◌ : ℕ → ℕ → Bool
a == b = elim (compare a b) [ Ordering.eq ↦ true | _ ↦ false ]

infix 1 if◌then◌else◌
abbrev pub if◌then◌else◌ {ℓ} : {A : Type ℓ} → Bool → A → A → A
if true then x else y = x
if false then x else y = y

-- `omega` reads a test through such lemmas.
pub ltb→lt : (a b : ℕ) → ltb a b ≡ true → a < b
ltb→lt a b h = ground arith

pub lt→ltb : (a b : ℕ) → a < b → ltb a b ≡ true
lt→ltb a b h = ground arith

pub leb→le : (a b : ℕ) → leb a b ≡ true → a ≤ b
leb→le a b h = ground arith

pub ==_iff : (a b : ℕ) → ((a == b) ≡ true) ↔ (a ≡ b)
==_iff a b = ground arith

pub ruleset tests = (arith, ltb→lt, lt→ltb, leb→le)

-- To split on a computed value and keep the equation.
pub Bool-cases : (b : Bool) → (b ≡ true) ⊎ (b ≡ false)
Bool-cases true = inl refl
Bool-cases false = inr refl

pub Option-cases {ℓ} : {A : Type ℓ} (o : Option A) → (o ≡ none) ⊎ ((a : A) × (o ≡ some a))
Option-cases none = inl refl
Option-cases (some a) = inr (a, refl)

-- Whether some number below `n` passes a test: a `for` loop that returns at the first.
unfoldable pub any_below : ℕ → (ℕ → Bool) → Bool
any_below zero f = false
any_below (suc n) f = any_below n f || f n

pub any_below-none : (n : ℕ) (f : ℕ → Bool) → any_below n f ≡ false → (i : ℕ) → i < n → f i ≡ false
unfolding any_below
any_below-none zero f e i h = absurd (omega arith)
any_below-none (suc n) f e i h = elim (dec_lt i n) [
  | yes old ↦ any_below-none n f (ground arith) i old
  | no new ↦ let i' : i ≡ n = omega arith in ground arith
]

pub any_below-some : (n : ℕ) (f : ℕ → Bool) (i : ℕ) → i < n → f i ≡ true → any_below n f ≡ true
unfolding any_below
any_below-some zero f i h e = absurd (omega arith)
any_below-some (suc n) f i h e = elim (dec_lt i n) [
  | yes old ↦ ground (arith, any_below-some n f i old e)
  | no new ↦ let i' : i ≡ n = omega arith in ground arith
]

pub any_below-no : (n : ℕ) (f : ℕ → Bool) → ((i : ℕ) → i < n → f i ≡ false) → any_below n f ≡ false
unfolding any_below
any_below-no zero f h = refl
any_below-no (suc n) f h =
    ground (arith, any_below-no n f (λ i lt. h i (omega arith)), h n (omega arith))
