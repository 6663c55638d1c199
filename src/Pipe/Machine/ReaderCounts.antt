-- ===== src/Pipe/Machine/ReaderCounts.antt =====
-- An access of reader `j` keeps what the two indexes count, and every item.
use enki_ts.Base.{
  ℕ, ◌+◌, ◌%◌, ◌<◌, ◌≡◌, Bool-cases, inl, inr, arith, sum_below, list_sum, update, sum_below-change,
}
use enki_ts.Pipe.{is_can_read, u32_mod, inc32, slot, pipe_size}
use enki_ts.Pipe.Quiet.{size_pos}
use enki_ts.Pipe.Machine.{
  Reader, away, load_count, check, reload, claim, recount, count_up, copy, release, System,
  move_reader, reader_next,
}
use enki_ts.Pipe.Machine.Slots.{stored-claimed, stored-released}
use enki_ts.Pipe.Machine.Invariant.{
  uncounted, writer_uncounted, ungrown, held, writer_held, stored, readable, Inv,
}

module _ (size_log2 n : ℕ) {T : Type 0} (s : System T) (inv : Inv size_log2 n s) (j : ℕ) where
  open inv use {owner, writer_owner, apart, writer_apart, knows, counted, indexes, conserved}
  open s use {pipe, readers}

  abbrev after : Reader T → System T
  after = move_reader size_log2 s j

  pub uncounted-change :
      (r r' : Reader T)
      → j < n
      → readers j ≡ r
      → sum_below n (λ a. uncounted (update readers j r' a)) + uncounted r
        ≡ sum_below n (λ a. uncounted (readers a)) + uncounted r'
  uncounted-change r r' lt e = ground (
    arith,
    sum_below-change n j (λ a. uncounted (readers a)) (λ a. uncounted (update readers j r' a)) lt
        (λ a ne. ground arith),
  )

  pub held-change :
      (w : T → ℕ) (r r' : Reader T)
      → j < n
      → readers j ≡ r
      → sum_below n (λ a. held w pipe.buffer (update readers j r' a)) + held w pipe.buffer r
        ≡ sum_below n (λ a. held w pipe.buffer (readers a)) + held w pipe.buffer r'
  held-change w r r' lt e = ground (
    arith,
    sum_below-change n j (λ a. held w pipe.buffer (readers a))
        (λ a. held w pipe.buffer (update readers j r' a)) lt (λ a ne. ground arith),
  )

  pub after-counted :
      (r : Reader T)
      → j < n
      → readers j ≡ r
      → ((after r).pipe.read_count
            + readable size_log2 (after r).pipe
            + sum_below n (λ a. uncounted ((after r).readers a))
            + writer_uncounted s.writer)
          % u32_mod
        ≡ ((after r).pipe.write_index + ungrown s.writer) % u32_mod
  unfolding move_reader
  after-counted away lt e = omega (arith, counted, uncounted-change away away lt e)
  after-counted load_count lt e =
      omega
        (arith, counted, uncounted-change load_count (check pipe.read_count pipe.read_count) lt e)
  after-counted (check c u) lt e =
      ground (
        arith,
        counted,
        uncounted-change (check c u) (reader_next size_log2 pipe (check c u)).1 lt e,
      )
  after-counted reload lt e =
      omega (arith, counted, uncounted-change reload (claim pipe.read_index) lt e)
  after-counted (claim u) lt e = elim (Bool-cases (is_can_read (pipe.flags (slot size_log2 u)))) [
    | inl free ↦ rw free (
        omega (
          arith,
          counted,
          uncounted-change (claim u) (count_up (slot size_log2 u)) lt e,
          stored-claimed size_log2 pipe (λ x. 1) (slot size_log2 u)
              (omega (arith, size_pos size_log2)) free,
        ))
    | inr busy ↦
        rw busy (omega (arith, counted, uncounted-change (claim u) (recount (inc32 u)) lt e))
  ]
  after-counted (recount u) lt e =
      omega (arith, counted, uncounted-change (recount u) (check pipe.read_count u) lt e)
  after-counted (count_up i) lt e =
      omega (arith, counted, uncounted-change (count_up i) (copy i) lt e)
  after-counted (copy i) lt e =
      omega (arith, counted, uncounted-change (copy i) (release i (pipe.buffer i)) lt e)
  after-counted (release i x) lt e = omega (
    arith,
    counted,
    uncounted-change (release i x) away lt e,
    stored-released size_log2 pipe (λ x. 1) i (owner j i (ground arith)),
  )

  pub after-conserved :
      (r : Reader T)
      → j < n
      → readers j ≡ r
      → (w : T → ℕ)
      → sum_below (pipe_size size_log2) (stored w (after r).pipe)
          + sum_below n (λ a. held w (after r).pipe.buffer ((after r).readers a))
          + writer_held w (after r).pipe.buffer s.writer
          + list_sum w (after r).taken
        ≡ list_sum w s.written
  unfolding move_reader list_sum
  after-conserved away lt e w = omega (arith, conserved w, held-change w away away lt e)
  after-conserved load_count lt e w =
      omega
        (arith, conserved w, held-change w load_count (check pipe.read_count pipe.read_count) lt e)
  after-conserved (check c u) lt e w = ground (
    arith,
    conserved w,
    held-change w (check c u) (reader_next size_log2 pipe (check c u)).1 lt e,
  )
  after-conserved reload lt e w =
      omega (arith, conserved w, held-change w reload (claim pipe.read_index) lt e)
  after-conserved (claim u) lt e w =
      elim (Bool-cases (is_can_read (pipe.flags (slot size_log2 u)))) [
        | inl free ↦ rw free (
            omega (
              arith,
              conserved w,
              held-change w (claim u) (count_up (slot size_log2 u)) lt e,
              stored-claimed size_log2 pipe w (slot size_log2 u) (omega (arith, size_pos size_log2))
                  free,
            ))
        | inr busy ↦
            rw busy (omega (arith, conserved w, held-change w (claim u) (recount (inc32 u)) lt e))
      ]
  after-conserved (recount u) lt e w =
      omega (arith, conserved w, held-change w (recount u) (check pipe.read_count u) lt e)
  after-conserved (count_up i) lt e w =
      omega (arith, conserved w, held-change w (count_up i) (copy i) lt e)
  after-conserved (copy i) lt e w =
      omega (arith, conserved w, held-change w (copy i) (release i (pipe.buffer i)) lt e)
  after-conserved (release i x) lt e w = omega (
    arith,
    conserved w,
    held-change w (release i x) away lt e,
    stored-released size_log2 pipe w i (owner j i (ground arith)),
  )
