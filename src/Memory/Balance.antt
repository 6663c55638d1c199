-- ===== src/Memory/Balance.antt =====
-- What is allocated and not given back, and calls that keep account of it.
use enki_ts.Base.{
  ℕ, ◌+◌, ◌-◌, ◌<◌, ◌≡◌, ◌≢◌, inl, inr, Bool-cases, ◌==◌, ◌&&◌, Bool, true, arith, List, [], ◌∷◌,
  if◌then◌else◌,
}
use enki_ts.Memory.{
  CustomAllocator, Block, Item, Call, allocated, freed, Memory, block, alloc_block, free_block,
}

abbrev same_allocator : CustomAllocator → CustomAllocator → Bool
same_allocator a b = a.alloc == b.alloc && a.free == b.free && a.user_data == b.user_data

pub same_block : Block → Block → Bool
same_block x y =
    same_allocator x.allocator y.allocator && x.address == y.address && x.size == y.size

allocator_cong :
    {a b : CustomAllocator}
    → a.alloc ≡ b.alloc
    → a.free ≡ b.free
    → a.user_data ≡ b.user_data
    → a ≡ b
allocator_cong e f u = λ i. record { alloc = e i; free = f i; user_data = u i }

same_block_refl : (x : Block) → same_block x x ≡ true
unfolding same_block
same_block_refl x = ground arith

-- One block, as a number of blocks equal to `x`.
abbrev pub one : Block → Block → ℕ
one y x = if same_block x y then 1 else 0

pub one_self : (y : Block) → one y y ≡ 1
one_self y = rw (same_block_refl y)

-- Blocks of different allocators differ.
pub one_foreign : (a b : CustomAllocator) (p n : ℕ) → b ≢ a → one (block a p n) (block b p n) ≡ 0
unfolding same_block
one_foreign a b p n ne = elim (Bool-cases (same_block (block b p n) (block a p n))) [
  | inl same ↦ absurd (ne (allocator_cong (ground arith) (ground arith) (ground arith)))
  | inr other ↦ rw other
]

-- How many times the block was allocated and not given back.
unfoldable pub live : Block → List Call → ℕ
live x [] = 0
live x (allocated y align ∷ log) = live x log + one y x
live x (freed y ∷ log) = live x log - one y x

-- What is given back was allocated by the same allocator with the same size, and not given back since.
unfoldable pub Valid : List Call → Type 0
Valid [] = Unit {0}
Valid (allocated y align ∷ log) = Valid log
Valid (freed y ∷ log) = (0 < live y log) × Valid log

-- Exactly the blocks that `held` counts are allocated.
abbrev pub Holds : (Block → ℕ) → Memory → Type 0
Holds held m = Valid m.log × ((x : Block) → live x m.log ≡ held x)

-- Blocks as a number of blocks equal to `x`, and giving them all back, the first one first.
unfoldable pub count : List Block → Block → ℕ
count [] x = 0
count (y ∷ ys) x = one y x + count ys x

unfoldable pub give_back : List Block → List Call → List Call
give_back [] log = log
give_back (y ∷ ys) log = give_back ys (freed y ∷ log)

pub give_back-Valid :
    (ys : List Block) (held : Block → ℕ) (log : List Call)
    → Valid log
    → ((x : Block) → live x log ≡ held x + count ys x)
    → Valid (give_back ys log) × ((x : Block) → live x (give_back ys log) ≡ held x)
unfolding count give_back live Valid
give_back-Valid [] held log valid all = (valid, λ x. omega (arith, all x))
give_back-Valid (y ∷ ys) held log valid all =
    give_back-Valid ys held (freed y ∷ log) (omega (arith, all y, one_self y), valid)
      (λ x. omega (arith, all x))

module _ (place : CustomAllocator → List Call → ℕ → ℕ → ℕ) (size_of align_of : Item → ℕ) where
  pub alloc_block-Holds :
      (held : Block → ℕ) (align size : ℕ) (m : Memory)
      → Holds held m
      → let r = alloc_block place size_of align_of align size m in
        Holds (λ x. held x + one (block m.config.custom_allocator r.0 size) x) r.1
  unfolding alloc_block live Valid
  alloc_block-Holds held align size m (valid, all) = (valid, λ x. omega (arith, all x))

  pub free_block-Holds :
      (held : Block → ℕ) (p size : ℕ) (m : Memory)
      → Holds (λ x. held x + one (block m.config.custom_allocator p size) x) m
      → Holds held (free_block place size_of align_of p size m).1
  unfolding free_block live Valid
  free_block-Holds held p size m (valid, all) =
      let y = block m.config.custom_allocator p size in
      ((omega (arith, all y, one_self y), valid), λ x. omega (arith, all x))
