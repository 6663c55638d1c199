-- ===== src/Pipe/Machine/WriterCounts.antt =====
-- An access of the writer keeps what the two indexes count, and every item.
use enki_ts.Base.{
  ℕ, ◌+◌, ◌%◌, ◌<◌, ◌≡◌, refl, some, Bool-cases, inl, inr, arith, sum_below, list_sum, update,
  sum_below-ext,
}
use enki_ts.Pipe.{can_write, invalid, is_can_read, u32_mod, slot, pipe_size}
use enki_ts.Pipe.Quiet.{size_pos}
use enki_ts.Pipe.Machine.{
  Reader, count_up, copy, Writer, idle, front_claim, front_release, front_shrink, put_store,
  put_flag, put_grow, System, move_writer,
}
use enki_ts.Pipe.Machine.Slots.{stored-claimed, stored-released, stored-published, stored-filled}
use enki_ts.Pipe.Machine.Invariant.{
  owns, uncounted, writer_uncounted, ungrown, held, writer_held, stored, Knows, readable, Inv,
}

module _ (size_log2 n : ℕ) {T : Type 0} (s : System T) (inv : Inv size_log2 n s) where
  open inv use {owner, writer_owner, apart, writer_apart, counted, indexes, conserved}
  open s use {pipe, readers}

  abbrev after : Writer T → System T
  after = move_writer size_log2 s

  slot_lt : (i : ℕ) → slot size_log2 i < pipe_size size_log2
  slot_lt i = omega (arith, size_pos size_log2)

  held-filled :
      (w : T → ℕ) (i : ℕ) (x : T)
      → pipe.flags i ≡ can_write
      → sum_below n (λ a. held w (update pipe.buffer i x) (readers a))
        ≡ sum_below n (λ a. held w pipe.buffer (readers a))
  held-filled w i x free =
      sum_below-ext n (λ a. held w pipe.buffer (readers a))
        (λ a. held w (update pipe.buffer i x) (readers a)) (λ a lt. same (readers a) (owner a))
    where
      same :
          (r : Reader T)
          → ((k : ℕ) → owns r ≡ some k → (pipe.flags k ≡ invalid) × (k < pipe_size size_log2))
          → held w (update pipe.buffer i x) r ≡ held w pipe.buffer r
      same (count_up k) o = ground (arith, o k refl)
      same (copy k) o = ground (arith, o k refl)
      same _ o = refl

  pub after-counted :
      (v : Writer T)
      → s.writer ≡ v
      → Knows size_log2 pipe v
      → ((after v).pipe.read_count
            + readable size_log2 (after v).pipe
            + sum_below n (λ a. uncounted (readers a))
            + writer_uncounted (after v).writer)
          % u32_mod
        ≡ ((after v).pipe.write_index + ungrown (after v).writer) % u32_mod
  unfolding move_writer
  after-counted idle e k = ground (arith, counted)
  after-counted (front_claim wi front) e k =
      elim (Bool-cases (is_can_read (pipe.flags (slot size_log2 front)))) [
        | inl free ↦ rw free (
            ground (
              arith,
              counted,
              stored-claimed size_log2 pipe (λ x. 1) (slot size_log2 front) (slot_lt front) free,
            ))
        | inr busy ↦ rw busy (ground (arith, counted))
      ]
  after-counted (front_release wi i x) e k =
      ground
        (arith, counted, stored-released size_log2 pipe (λ x. 1) i (writer_owner i (ground arith)))
  after-counted (front_shrink wi x) e k = ground (arith, counted, indexes)
  after-counted (put_store x wi) e k = ground (
    arith,
    counted,
    stored-filled size_log2 pipe (λ x. 1) (slot size_log2 wi) x (k.1, slot_lt wi),
  )
  after-counted (put_flag x wi) e k = ground (
    arith,
    counted,
    stored-published size_log2 pipe (λ x. 1) (slot size_log2 wi) (k.1, slot_lt wi),
  )
  after-counted put_grow e k = ground (arith, counted)
  after-counted _ e k = ground (arith, counted)

  pub after-conserved :
      (v : Writer T)
      → s.writer ≡ v
      → Knows size_log2 pipe v
      → (w : T → ℕ)
      → sum_below (pipe_size size_log2) (stored w (after v).pipe)
          + sum_below n (λ a. held w (after v).pipe.buffer (readers a))
          + writer_held w (after v).pipe.buffer (after v).writer
          + list_sum w (after v).taken
        ≡ list_sum w (after v).written
  unfolding move_writer list_sum
  after-conserved idle e k w = ground (arith, conserved w)
  after-conserved (front_claim wi front) e k w =
      elim (Bool-cases (is_can_read (pipe.flags (slot size_log2 front)))) [
        | inl free ↦ rw free (
            ground (
              arith,
              conserved w,
              stored-claimed size_log2 pipe w (slot size_log2 front) (slot_lt front) free,
            ))
        | inr busy ↦ rw busy (ground (arith, conserved w))
      ]
  after-conserved (front_release wi i x) e k w =
      ground
        (arith, conserved w, stored-released size_log2 pipe w i (writer_owner i (ground arith)))
  after-conserved (put_store x wi) e k w = ground (
    arith,
    conserved w,
    held-filled w (slot size_log2 wi) x k.1,
    stored-filled size_log2 pipe w (slot size_log2 wi) x (k.1, slot_lt wi),
  )
  after-conserved (put_flag x wi) e k w =
      ground (
        arith,
        conserved w,
        stored-published size_log2 pipe w (slot size_log2 wi) (k.1, slot_lt wi),
      )
  after-conserved _ e k w = ground (arith, conserved w)
