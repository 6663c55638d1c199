-- ===== src/Pipe/Machine/Safety.antt =====
-- What holds of a pipe in use, in every state that the threads can reach.
use enki_ts.Base.{
  ℕ, ◌+◌, ◌≤◌, ◌<◌, ◌≡◌, ◌≢◌, refl, some, true, arith, sum_below, list_sum, sum_below-zero,
  sum_below-le, le-sum_below,
}
use enki_ts.Pipe.{Pipe, can_read, can_write, u32_mod, pipe_size, is_pipe_empty}
use enki_ts.Pipe.Machine.{
  away, load_count, Writer, idle, put_grow, System, Step, read_back, read_front, write_front,
  reader, writer, Reach, begin, later, start,
}
use enki_ts.Pipe.Machine.Invariant.{
  owns, writer_owns, uncounted, held, writer_held, stored, Knows, readable, fills, Inv,
}
use enki_ts.Pipe.Machine.ReaderMoves.{move_reader-Inv}
use enki_ts.Pipe.Machine.ReaderCounts.{uncounted-change, held-change}
use enki_ts.Pipe.Machine.WriterMoves.{move_writer-Inv}

module _ (size_log2 n : ℕ) {T : Type 0} where
  start-Inv : (b : ℕ → T) → Inv size_log2 n (start size_log2 b)
  unfolding list_sum
  start-Inv b = record {
    owner = λ j i o. cc;
    writer_owner = λ i o. cc;
    apart = λ a c i o o'. cc;
    writer_apart = λ a i o o'. cc;
    knows = tt;
    counted = omega (
      arith,
      sum_below-zero (pipe_size size_log2) (stored (λ x. 1) (start size_log2 b).pipe) (λ j h. refl),
      sum_below-zero n (λ j. 0) (λ j h. refl),
    );
    indexes = omega arith;
    conserved = λ w. omega (
      arith,
      sum_below-zero (pipe_size size_log2) (stored w (start size_log2 b).pipe) (λ j h. refl),
      sum_below-zero n (λ j. 0) (λ j h. refl),
    );
  }

  Step-Inv : {s t : System T} → Step size_log2 n s t → Inv size_log2 n s → Inv size_log2 n t
  Step-Inv {s} (read_back j lt e) inv = record {
    owner = λ a i o. ground (arith, inv.owner a i);
    writer_owner = inv.writer_owner;
    apart = λ a b i o o'. ground (arith, inv.apart a b i);
    writer_apart = λ a i o o'. ground (arith, inv.writer_apart a i);
    knows = inv.knows;
    counted = omega (arith, inv.counted, uncounted-change size_log2 n s inv j away load_count lt e);
    indexes = inv.indexes;
    conserved =
        λ w. omega (arith, inv.conserved w, held-change size_log2 n s inv j w away load_count lt e);
  }
  Step-Inv {s} (read_front e) inv = record {
    owner = inv.owner;
    writer_owner = λ i o. cc;
    apart = inv.apart;
    writer_apart = λ a i o o'. cc;
    knows = tt;
    counted = ground (arith, inv.counted);
    indexes = inv.indexes;
    conserved = λ w. ground (arith, inv.conserved w);
  }
  Step-Inv {s} (write_front x e) inv = record {
    owner = inv.owner;
    writer_owner = λ i o. cc;
    apart = inv.apart;
    writer_apart = λ a i o o'. cc;
    knows = tt;
    counted = ground (arith, inv.counted);
    indexes = inv.indexes;
    conserved = λ w. ground (arith, inv.conserved w);
  }
  Step-Inv {s} (reader j lt) inv = move_reader-Inv size_log2 n s inv j lt
  Step-Inv {s} writer inv = move_writer-Inv size_log2 n s inv

  pub Reach-Inv : {b : ℕ → T} {s : System T} → Reach size_log2 n b s → Inv size_log2 n s
  Reach-Inv {b} begin = start-Inv b
  Reach-Inv (later r st) = Step-Inv st (Reach-Inv r)

  -- In every reachable state, whatever an item is counted as, the items that were written are
  -- those that were returned, those that a thread has claimed, and those in slots that can be read:
  -- none is lost, changed or returned twice.
  pub items_conserved :
      {b : ℕ → T} {s : System T}
      → Reach size_log2 n b s
      → (w : T → ℕ)
      → sum_below (pipe_size size_log2) (stored w s.pipe)
          + sum_below n (λ j. held w s.pipe.buffer (s.readers j))
          + writer_held w s.pipe.buffer s.writer
          + list_sum w s.taken
        ≡ list_sum w s.written
  items_conserved r = (Reach-Inv r).conserved

  fills-can_write :
      (p : Pipe T) (v : Writer T) (i : ℕ)
      → Knows size_log2 p v
      → fills size_log2 v ≡ some i
      → p.flags i ≡ can_write
  fills-can_write p idle i k e = ground arith
  fills-can_write p _ i k e = ground arith

  -- In every reachable state a slot is in the hands of one thread at most: two readers that have
  -- claimed it are one, the writer has not claimed it too, and the writer fills no claimed slot.
  pub slot_exclusive :
      {b : ℕ → T} {s : System T}
      → Reach size_log2 n b s
      → (j i : ℕ) → owns (s.readers j) ≡ some i
      → ((k : ℕ) → owns (s.readers k) ≡ some i → k ≡ j)
        × (writer_owns s.writer ≢ some i)
        × (fills size_log2 s.writer ≢ some i)
  slot_exclusive {s} r j i o = (
    λ k o'. inv.apart k j i o' o,
    λ o'. inv.writer_apart j i o o',
    λ f. ground (arith, fills-can_write s.pipe s.writer i inv.knows f, inv.owner j i),
  )
    where
      inv : Inv size_log2 n s
      inv = Reach-Inv r

  small_sums :
      (s : System T)
      → (readable size_log2 s.pipe ≤ pipe_size size_log2)
        × (sum_below n (λ j. uncounted (s.readers j)) ≤ n)
  small_sums s = (
    sum_below-le (pipe_size size_log2) (stored (λ x. 1) s.pipe) (λ j. ground arith),
    sum_below-le n (λ j. uncounted (s.readers j)) (λ j. ground arith),
  )

  -- If m_WriteIndex and m_ReadCount agree, nothing can be read from the pipe, unless the writer
  -- has yet to count an item that it has just put in.
  pub is_pipe_empty_sound :
      {b : ℕ → T} {s : System T}
      → pipe_size size_log2 + n + 2 < u32_mod
      → Reach size_log2 n b s
      → s.writer ≢ put_grow
      → is_pipe_empty size_log2 s.pipe ≡ true
      → (i : ℕ) → i < pipe_size size_log2
      → s.pipe.flags i ≢ can_read
  unfolding is_pipe_empty
  is_pipe_empty_sound {s} small r settled empty i lt full = absurd (
      ground (
        arith,
        inv.counted,
        inv.indexes,
        small_sums s,
        le-sum_below (pipe_size size_log2) (stored (λ x. 1) s.pipe) i lt,
      ))
    where
      inv : Inv size_log2 n s
      inv = Reach-Inv r

  -- If no thread is between its claim and the index that counts it, and no slot can be read, the
  -- pipe says that it is empty.
  pub is_pipe_empty_complete :
      {b : ℕ → T} {s : System T}
      → Reach size_log2 n b s
      → ((j : ℕ) → uncounted (s.readers j) ≡ 0)
      → s.writer ≡ idle
      → ((i : ℕ) → i < pipe_size size_log2 → s.pipe.flags i ≢ can_read)
      → is_pipe_empty size_log2 s.pipe ≡ true
  unfolding is_pipe_empty
  is_pipe_empty_complete {s} r quiet settled none_left = ground (
    arith,
    inv.counted,
    inv.indexes,
    sum_below-zero n (λ j. uncounted (s.readers j)) (λ j h. quiet j),
    sum_below-zero (pipe_size size_log2) (stored (λ x. 1) s.pipe)
        (λ j h. ground (arith, none_left j h)),
  )
    where
      inv : Inv size_log2 n s
      inv = Reach-Inv r
