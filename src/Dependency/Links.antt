-- ===== src/Dependency/Links.antt =====
-- What the links of dependencies stand for: the list of the distinct dependencies from one on.
use enki_ts.Base.{
  ℕ, zero, suc, ◌<◌, ◌≡◌, ◌≢◌, refl, false, true, some, List, [], ◌∷◌, arith, ◌==◌, Bool-cases, inl,
  inr, if◌then◌else◌, update, length,
}
use enki_ts.IntrusiveList.Chain.{has}
use enki_ts.Dependency.{null, unlink}

abbrev pub Links : (ℕ → ℕ) → ℕ → List ℕ → Type 0
Links next first [] = first ≡ null
Links next first (x ∷ xs) = (first ≡ x) × (x ≢ null) × (has x xs ≡ false) × Links next (next x) xs

abbrev pub remove : ℕ → List ℕ → List ℕ
remove a [] = []
remove a (x ∷ xs) = if a == x then xs else x ∷ remove a xs

-- A write to a dependency outside of a list leaves the list as it is.
pub Links-update :
    (next : ℕ → ℕ) (first : ℕ) (xs : List ℕ) (a v : ℕ)
    → has a xs ≡ false
    → Links next first xs
    → Links (update next a v) first xs
Links-update next first [] a v out l = l
Links-update next first (x ∷ xs) a v out (e, nz, fresh, l) =
    (e, nz, fresh, ground (arith, Links-update next (next x) xs a v (ground arith) l))

-- What is not in a list is not in a part of it.
pub has-remove : (a b : ℕ) (xs : List ℕ) → has b xs ≡ false → has b (remove a xs) ≡ false
has-remove a b [] out = refl
has-remove a b (x ∷ xs) out = ground (arith, has-remove a b xs (ground arith))

-- In a list without repetition what was removed is gone, and what is left was there.
pub remove-gone :
    (next : ℕ → ℕ) (first a : ℕ) (xs : List ℕ) → Links next first xs → has a (remove a xs) ≡ false
remove-gone next first a [] l = refl
remove-gone next first a (x ∷ xs) (e, nz, fresh, l) =
    ground (arith, remove-gone next (next x) a xs l)

pub remove-has : (a b : ℕ) (xs : List ℕ) → has b (remove a xs) ≡ true → has b xs ≡ true
remove-has a b [] h = h
remove-has a b (x ∷ xs) h = elim (Bool-cases (has b (remove a xs))) [
  | inl old ↦ ground (arith, remove-has a b xs old)
  | inr out ↦ ground arith
]

-- What the loop of ClearDependency makes of the links behind `first`.
abbrev pub Unlinked : (ℕ → ℕ) → ℕ → ℕ → List ℕ → (ℕ → ℕ) → Type 0
Unlinked next this first xs next' =
    Links next' first (first ∷ remove this xs)
    × ((a : ℕ) → has a (first ∷ xs) ≡ false → next' a ≡ next a)

-- The loop of ClearDependency takes one dependency behind the first out of the list.
pub unlink_lem :
    (fuel this first : ℕ) (xs : List ℕ) (next : ℕ → ℕ)
    → Links next first (first ∷ xs)
    → has this xs ≡ true
    → length xs < fuel
    → (next' : ℕ → ℕ) × (unlink fuel this first next ≡ some next')
      × Unlinked next this first xs next'
unfolding unlink
unlink_lem zero this first xs next l member h = absurd (omega arith)
unlink_lem (suc fuel) this first [] next l member h = absurd (ground arith)
unlink_lem (suc fuel) this first (x ∷ xs) next (e, nz, fresh, (f, xz, fresh', l)) member h =
    elim (Bool-cases (this == x)) [
      | inl same ↦ (
        update next first (next this),
        ground arith,
        (
          (
            refl,
            nz,
            ground arith,
            ground (arith, Links-update next (next x) xs first (next this) (ground arith) l),
          ),
          λ a out. ground arith,
        ),
      )
      | inr other ↦
          later other
            (unlink_lem fuel this x xs next (refl, xz, fresh', l) (ground arith) (omega arith))
    ]
  where
    later :
        (this == x) ≡ false
        → (next' : ℕ → ℕ) × (unlink fuel this x next ≡ some next') × Unlinked next this x xs next'
        → (next' : ℕ → ℕ) × (unlink (suc fuel) this first next ≡ some next')
          × Unlinked next this first (x ∷ xs) next'
    later other (next', e', (l', same)) = (
      next',
      ground arith,
      (
        ground (arith, has-remove this first xs (ground arith), same first (ground arith)),
        λ a out. same a (ground arith),
      ),
    )
