-- ===== src/Pipe/Machine/WriterMoves.antt =====
-- An access of the writer keeps each field of `Inv`.
use enki_ts.Base.{ℕ, ◌<◌, ◌≡◌, refl, some, arith}
use enki_ts.Pipe.{invalid, u32_mod, pipe_size}
use enki_ts.Pipe.Quiet.{size_pos}
use enki_ts.Pipe.Machine.{Writer, idle, front_claim, front_copy, front_release, System, move_writer}
use enki_ts.Pipe.Machine.WriterCounts.{after-counted, after-conserved}
use enki_ts.Pipe.Machine.Invariant.{owns, writer_owns, Knows, Inv}

module _ (size_log2 n : ℕ) {T : Type 0} (s : System T) (inv : Inv size_log2 n s) where
  open inv use {owner, writer_owner, apart, writer_apart, counted, indexes, conserved}
  open s use {pipe, readers}

  abbrev after : Writer T → System T
  after = move_writer size_log2 s

  after-owner :
      (v : Writer T)
      → s.writer ≡ v
      → Knows size_log2 pipe v
      → (a i : ℕ) → owns (readers a) ≡ some i
      → ((after v).pipe.flags i ≡ invalid) × (i < pipe_size size_log2)
  unfolding move_writer
  after-owner idle e k a i o = owner a i o
  after-owner (front_release wi c x) e k a i o = ground (arith, owner a i, writer_apart a i)
  after-owner _ e k a i o = ground (arith, owner a i)

  after-writer_owner :
      (v : Writer T)
      → s.writer ≡ v
      → (i : ℕ) → writer_owns (after v).writer ≡ some i
      → ((after v).pipe.flags i ≡ invalid) × (i < pipe_size size_log2)
  unfolding move_writer
  after-writer_owner idle e i o = ground arith
  after-writer_owner (front_claim wi front) e i o = ground (arith, size_pos size_log2)
  after-writer_owner (front_copy wi c) e i o = ground (arith, writer_owner i)
  after-writer_owner _ e i o = ground arith

  after-writer_apart :
      (v : Writer T)
      → s.writer ≡ v
      → (a i : ℕ) → owns (readers a) ≡ some i
      → writer_owns (after v).writer ≡ some i
      → ⊥
  unfolding move_writer
  after-writer_apart idle e a i o o' = ground arith
  after-writer_apart (front_claim wi front) e a i o o' = ground (arith, owner a i)
  after-writer_apart (front_copy wi c) e a i o o' = ground (arith, writer_apart a i)
  after-writer_apart _ e a i o o' = ground arith

  after-Knows :
      (v : Writer T) → Knows size_log2 pipe v → Knows size_log2 (after v).pipe (after v).writer
  unfolding move_writer
  after-Knows idle k = tt
  after-Knows _ k = ground arith

  after-indexes :
      (v : Writer T)
      → ((after v).pipe.read_count < u32_mod) × ((after v).pipe.write_index < u32_mod)
  unfolding move_writer
  after-indexes idle = indexes
  after-indexes _ = ground (arith, indexes)

  -- An access of the writer keeps the invariant.
  pub move_writer-Inv : Inv size_log2 n (move_writer size_log2 s s.writer)
  unfolding move_writer
  move_writer-Inv = record {
    owner = after-owner s.writer refl inv.knows;
    writer_owner = after-writer_owner s.writer refl;
    apart = apart;
    writer_apart = after-writer_apart s.writer refl;
    knows = after-Knows s.writer inv.knows;
    counted = after-counted size_log2 n s inv s.writer refl inv.knows;
    indexes = after-indexes s.writer;
    conserved = after-conserved size_log2 n s inv s.writer refl inv.knows;
  }
