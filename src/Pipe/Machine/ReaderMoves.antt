-- ===== src/Pipe/Machine/ReaderMoves.antt =====
-- An access of reader `j` keeps each field of `Inv`.
use enki_ts.Base.{ℕ, ◌<◌, ◌≡◌, refl, sym, ◌∙◌, some, arith}
use enki_ts.Pipe.{can_write, invalid, u32_mod, slot, pipe_size}
use enki_ts.Pipe.Quiet.{size_pos}
use enki_ts.Pipe.Machine.{
  Reader, away, claim, count_up, release, System, move_reader, Writer, put_store, put_flag,
}
use enki_ts.Pipe.Machine.ReaderCounts.{after-counted, after-conserved}
use enki_ts.Pipe.Machine.Invariant.{owns, writer_owns, Knows, Inv}

module _ (size_log2 n : ℕ) {T : Type 0} (s : System T) (inv : Inv size_log2 n s) (j : ℕ) where
  open inv use {owner, writer_owner, apart, writer_apart, knows, counted, indexes, conserved}
  open s use {pipe, readers}

  abbrev after : Reader T → System T
  after = move_reader size_log2 s j

  after-owner :
      (r : Reader T)
      → readers j ≡ r
      → (a i : ℕ) → owns ((after r).readers a) ≡ some i
      → ((after r).pipe.flags i ≡ invalid) × (i < pipe_size size_log2)
  unfolding move_reader
  after-owner away e a i o = ground (arith, owner a i)
  after-owner (claim u) e a i o = ground (arith, owner a i, size_pos size_log2)
  after-owner (release k x) e a i o = ground (arith, owner a i, apart a j i)
  after-owner _ e a i o = ground (arith, owner a i, owner j i)

  after-writer_owner :
      (r : Reader T)
      → readers j ≡ r
      → (i : ℕ) → writer_owns s.writer ≡ some i
      → ((after r).pipe.flags i ≡ invalid) × (i < pipe_size size_log2)
  unfolding move_reader
  after-writer_owner away e i o = ground (arith, writer_owner i)
  after-writer_owner _ e i o = ground (arith, writer_owner i, writer_apart j i)

  after-apart :
      (r : Reader T)
      → readers j ≡ r
      → (a b i : ℕ) → owns ((after r).readers a) ≡ some i
      → owns ((after r).readers b) ≡ some i
      → a ≡ b
  unfolding move_reader
  after-apart away e a b i o o' = ground (arith, apart a b i)
  after-apart (claim u) e a b i o o' = ground (arith, apart a b i, owner a i, owner b i)
  after-apart _ e a b i o o' = ground (arith, apart a b i, apart j b i, apart a j i)

  after-writer_apart :
      (r : Reader T)
      → readers j ≡ r
      → (a i : ℕ) → owns ((after r).readers a) ≡ some i
      → writer_owns s.writer ≡ some i
      → ⊥
  unfolding move_reader
  after-writer_apart away e a i o o' = ground (arith, writer_apart a i)
  after-writer_apart (claim u) e a i o o' = ground (arith, writer_apart a i, writer_owner i)
  after-writer_apart _ e a i o o' = ground (arith, writer_apart a i, writer_apart j i)

  -- A reader changes no slot that can be written, no item and no m_WriteIndex.
  same_buffer : (r : Reader T) → (after r).pipe.buffer ≡ pipe.buffer
  unfolding move_reader
  same_buffer away = refl
  same_buffer (claim u) = ground arith
  same_buffer _ = refl

  same_write_index : (r : Reader T) → (after r).pipe.write_index ≡ pipe.write_index
  unfolding move_reader
  same_write_index away = refl
  same_write_index (claim u) = ground arith
  same_write_index _ = refl

  keeps_can_write :
      (r : Reader T)
      → readers j ≡ r
      → (i : ℕ) → pipe.flags i ≡ can_write
      → (after r).pipe.flags i ≡ can_write
  unfolding move_reader
  keeps_can_write away e i h = ground arith
  keeps_can_write _ e i h = ground (arith, owner j i)

  after-Knows :
      (r : Reader T)
      → readers j ≡ r
      → (w : Writer T) → Knows size_log2 pipe w
      → Knows size_log2 (after r).pipe w
  after-Knows r e (put_store x wi) k =
      (k.0 ∙ sym (same_write_index r), keeps_can_write r e (slot size_log2 wi) k.1)
  after-Knows r e (put_flag x wi) k = (
    k.0 ∙ sym (same_write_index r),
    keeps_can_write r e (slot size_log2 wi) k.1,
    rw (same_buffer r) k.2,
  )
  after-Knows r e w k = ground (arith, same_write_index r)

  after-indexes :
      (r : Reader T)
      → ((after r).pipe.read_count < u32_mod) × ((after r).pipe.write_index < u32_mod)
  unfolding move_reader
  after-indexes away = indexes
  after-indexes (claim u) = ground (arith, indexes)
  after-indexes (count_up i) = omega (arith, indexes)
  after-indexes _ = indexes

  -- An access of a reader keeps the invariant.
  pub move_reader-Inv : j < n → Inv size_log2 n (move_reader size_log2 s j (readers j))
  unfolding move_reader
  move_reader-Inv lt = record {
    owner = after-owner (readers j) refl;
    writer_owner = after-writer_owner (readers j) refl;
    apart = after-apart (readers j) refl;
    writer_apart = after-writer_apart (readers j) refl;
    knows = after-Knows (readers j) refl s.writer knows;
    counted = after-counted size_log2 n s inv j (readers j) lt refl;
    indexes = after-indexes (readers j);
    conserved = after-conserved size_log2 n s inv j (readers j) lt refl;
  }
