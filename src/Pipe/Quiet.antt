-- ===== src/Pipe/Quiet.antt =====
-- The state of a pipe between calls that do not overlap, while `m_WriteIndex` has not wrapped: the
-- cells from `m_ReadCount` up to `m_WriteIndex` can be read and the rest can be written.
use enki_ts.Base.{
  ℕ, zero, suc, ◌+◌, ◌-◌, ◌≤◌, ◌<◌, ◌≡◌, refl, ap, ap₂, List, [], ◌∷◌, ◌++◌, arith, length, update,
  mod_distinct,
}
use native.Mathlib.Nat.{one-le-pow}
use enki_ts.Pipe.{Pipe, can_read, can_write, u32_mod, pipe_size, slot}

module _ (size_log2 : ℕ) where
  abbrev pub size : ℕ
  size = pipe_size size_log2

  abbrev pub cell : ℕ → ℕ
  cell = slot size_log2

  pub size_pos : 0 < size
  size_pos = one-le-pow size_log2 2 (omega arith)

module _ (size_log2 : ℕ) {T : Type 0} where
  pub record IsQuiet (p : Pipe T) : Type 0 where
    pub ordered : p.read_count ≤ p.write_index
    pub unwrapped : p.write_index < u32_mod
    pub fits : p.write_index ≤ p.read_count + size size_log2
    pub readable :
        (j : ℕ) → p.read_count ≤ j → j < p.write_index → p.flags (cell size_log2 j) ≡ can_read
    pub writable :
        (j : ℕ)
        → p.write_index ≤ j
        → j < p.read_count + size size_log2
        → p.flags (cell size_log2 j) ≡ can_write

  -- The `n` items from index `r` on.
  abbrev pub window : (ℕ → T) → ℕ → ℕ → List T
  window b r zero = []
  window b r (suc n) = b (cell size_log2 r) ∷ window b (r + 1) n

  abbrev pub contents : Pipe T → List T
  contents p = window p.buffer p.read_count (p.write_index - p.read_count)

  pub length-window : (b : ℕ → T) (r n : ℕ) → length (window b r n) ≡ n
  length-window b r zero = refl
  length-window b r (suc n) = ap suc (length-window b (r + 1) n)

  pub window_last :
      (b : ℕ → T) (r n j : ℕ)
      → r + n ≡ j
      → window b r (suc n) ≡ window b r n ++ b (cell size_log2 j) ∷ []
  window_last b r zero j e = let e' : r ≡ j = omega arith in ap (λ i. b (cell size_log2 i) ∷ []) e'
  window_last b r (suc n) j e =
      ap (λ t. b (cell size_log2 r) ∷ t) (window_last b (r + 1) n j (omega arith))

  -- Writing outside of a window leaves it as it is.
  pub window-update :
      (b : ℕ → T) (x : T) (r n j : ℕ)
      → r + n ≤ j
      → j < r + size size_log2
      → window (update b (cell size_log2 j) x) r n ≡ window b r n
  window-update b x r zero j h k = refl
  window-update b x r (suc n) j h k =
      ap₂ ◌∷◌
        (ground (
          arith,
          mod_distinct (size size_log2) r j (omega (arith, size_pos size_log2)) (omega arith),
        ))
        (window-update b x (r + 1) n j (omega arith) (omega arith))
