-- ===== src/IntrusiveList/Chain.antt =====
-- What an intrusive list stands for: the nodes that lead from `tail` to the head, oldest first.
use enki_ts.Base.{ℕ, ◌≡◌, ◌≢◌, refl, Bool, false, ◌||◌, List, [], ◌∷◌, ◌++◌, arith, ◌==◌, update}
use enki_ts.IntrusiveList.{null, tail, IntrusiveList}

abbrev pub has : ℕ → List ℕ → Bool
has a [] = false
has a (x ∷ xs) = (a == x) || has a xs

-- From the node `a` the members `pNext` lead through the distinct nodes `xs` to NULL.
abbrev pub Chain : (ℕ → ℕ) → ℕ → List ℕ → Type 0
Chain next a [] = next a ≡ null
Chain next a (x ∷ xs) = (next a ≡ x) × (x ≢ null) × (has a (x ∷ xs) ≡ false) × Chain next x xs

-- The newest node, or `a` where there is none.
abbrev pub newest : ℕ → List ℕ → ℕ
newest a [] = a
newest a (x ∷ xs) = newest x xs

pub record Holds (l : IntrusiveList) (xs : List ℕ) : Type 0 where
  pub chain : Chain l.next tail xs
  pub head : l.head ≡ newest tail xs

has-append : (a : ℕ) (xs ys : List ℕ) → has a (xs ++ ys) ≡ (has a xs || has a ys)
has-append a [] ys = refl
has-append a (x ∷ xs) ys = ground (arith, has-append a xs ys)

-- What is not among the nodes of a chain is not its newest node.
pub newest-ne : (a : ℕ) (xs : List ℕ) (n : ℕ) → has n (a ∷ xs) ≡ false → newest a xs ≢ n
newest-ne a [] n out e = ground arith
newest-ne a (x ∷ xs) n out e = newest-ne x xs n (ground arith) e

-- A write to a node outside of a chain leaves the chain as it is.
pub Chain-update :
    (next : ℕ → ℕ) (a : ℕ) (xs : List ℕ) (n v : ℕ)
    → has n (a ∷ xs) ≡ false
    → Chain next a xs
    → Chain (update next n v) a xs
Chain-update next a [] n v out c = ground arith
Chain-update next a (x ∷ xs) n v out (e, nz, fresh, c) =
    (ground arith, nz, fresh, Chain-update next x xs n v (ground arith) c)

-- Linking a new node behind the newest one lengthens the chain by it.
pub Chain-append :
    (next : ℕ → ℕ) (a : ℕ) (xs : List ℕ) (n : ℕ)
    → has n (a ∷ xs) ≡ false
    → n ≢ null
    → next n ≡ null
    → Chain next a xs
    → Chain (update next (newest a xs) n) a (xs ++ n ∷ [])
Chain-append next a [] n out nz e c = (ground arith, nz, ground arith, ground arith)
Chain-append next a (x ∷ xs) n out nz e (f, xz, fresh, c) = (
  ground (arith, newest-ne x xs a fresh),
  xz,
  ground (arith, has-append a xs (n ∷ [])),
  Chain-append next x xs n (ground arith) nz e c,
)

pub newest-append : (a : ℕ) (xs : List ℕ) (n : ℕ) → newest a (xs ++ n ∷ []) ≡ n
newest-append a [] n = refl
newest-append a (x ∷ xs) n = newest-append x xs n
