-- ===== src/Pipe/Machine.antt =====
-- src/LockLessMultiReadPipe.h, the same three operations as `Pipe.antt`, one atomic access at a
-- time: one writer and any number of readers, interleaved in any order. Every access is taken to be
-- sequentially consistent.
pub mod Invariant
pub mod ReaderCounts
pub mod ReaderMoves
pub mod Slots
pub mod WriterCounts
pub mod WriterMoves
pub mod Safety
use enki_ts.Base.{ℕ, ◌+◌, ◌%◌, ◌<◌, ◌≡◌, List, [], ◌∷◌, ◌++◌, leb, ◌==◌, if◌then◌else◌, update}
use enki_ts.Pipe.{
  Pipe, can_read, can_write, invalid, is_can_read, is_can_write, inc32, dec32, sub32, slot,
}

-- Where a reader stands in ReaderTryReadBack, with the locals that are live there.
pub data Reader (T : Type 0) : Type 0 where
  away : Reader T  -- not in the function
  load_count : Reader T  -- before the first load of m_ReadCount
  check : ℕ → ℕ → Reader T  -- readCount, readIndexToUse; before the load of m_WriteIndex
  reload : Reader T  -- before the load of m_ReadIndex
  claim : ℕ → Reader T  -- readIndexToUse; before the compare and exchange
  recount : ℕ → Reader T  -- readIndexToUse, incremented; before the load of m_ReadCount
  count_up : ℕ → Reader T  -- actualReadIndex, claimed; before the fetch_add
  copy : ℕ → Reader T  -- actualReadIndex; before the read of m_Buffer
  release : ℕ → T → Reader T  -- actualReadIndex, *pOut; before the store to m_Flags

-- Where the writer stands in WriterTryReadFront or WriterTryWriteFront.
pub data Writer (T : Type 0) : Type 0 where
  idle : Writer T  -- in neither function
  front_load : Writer T  -- before the load of m_WriteIndex
  front_check : ℕ → ℕ → Writer T  -- writeIndex, frontReadIndex; before the load of m_ReadCount
  front_empty : ℕ → Writer T  -- readCount; before the store to m_ReadIndex
  front_claim : ℕ → ℕ → Writer T  -- writeIndex, frontReadIndex; before the compare and exchange
  front_failed : ℕ → ℕ → Writer T  -- the same; before the load of m_ReadIndex
  front_copy : ℕ → ℕ → Writer T  -- writeIndex, actualReadIndex; before the read of m_Buffer
  front_release : ℕ → ℕ → T → Writer T  -- and *pOut; before the store to m_Flags
  front_shrink : ℕ → T → Writer T  -- writeIndex, *pOut; before the store to m_WriteIndex
  put_load : T → Writer T  -- in; before the load of m_WriteIndex
  put_check : T → ℕ → Writer T  -- in, writeIndex; before the load of m_Flags
  put_store : T → ℕ → Writer T  -- the same; before the write to m_Buffer
  put_flag : T → ℕ → Writer T  -- the same; before the store to m_Flags
  put_grow : Writer T  -- before the fetch_add

module _ (size_log2 : ℕ) {T : Type 0} where
  -- One access of ReaderTryReadBack.
  unfoldable pub reader_next : Pipe T → Reader T → Pipe T × Reader T
  reader_next p away = (p, away)
  reader_next p load_count = (p, check p.read_count p.read_count)
  reader_next p (check count to_use) = (
    p,
    if 0 == sub32 p.write_index count
        then away
        else if leb p.write_index to_use
        then reload
        else claim to_use,
  )
  reader_next p reload = (p, claim p.read_index)
  reader_next p (claim to_use) =
      if is_can_read (p.flags (slot size_log2 to_use))
      then (
        record p { flags = update p.flags (slot size_log2 to_use) invalid },
        count_up (slot size_log2 to_use),
      )
      else (p, recount (inc32 to_use))
  reader_next p (recount to_use) = (p, check p.read_count to_use)
  reader_next p (count_up i) = (record p { read_count = inc32 p.read_count }, copy i)
  reader_next p (copy i) = (p, release i (p.buffer i))
  reader_next p (release i x) = (record p { flags = update p.flags i can_write }, away)

  -- One access of WriterTryReadFront or WriterTryWriteFront.
  unfoldable pub writer_next : Pipe T → Writer T → Pipe T × Writer T
  writer_next p idle = (p, idle)
  writer_next p front_load = (p, front_check p.write_index p.write_index)
  writer_next p (front_check wi front) = (
    p,
    if 0 == sub32 wi p.read_count then front_empty p.read_count else front_claim wi (dec32 front),
  )
  writer_next p (front_empty count) = (record p { read_index = count }, idle)
  writer_next p (front_claim wi front) =
      if is_can_read (p.flags (slot size_log2 front))
      then (
        record p { flags = update p.flags (slot size_log2 front) invalid },
        front_copy wi (slot size_log2 front),
      )
      else (p, front_failed wi front)
  writer_next p (front_failed wi front) =
      (p, if leb front p.read_index then idle else front_check wi front)
  writer_next p (front_copy wi i) = (p, front_release wi i (p.buffer i))
  writer_next p (front_release wi i x) =
      (record p { flags = update p.flags i can_write }, front_shrink wi x)
  writer_next p (front_shrink wi x) = (record p { write_index = dec32 wi }, idle)
  writer_next p (put_load x) = (p, put_check x p.write_index)
  writer_next p (put_check x wi) =
      (p, if is_can_write (p.flags (slot size_log2 wi)) then put_store x wi else idle)
  writer_next p (put_store x wi) =
      (record p { buffer = update p.buffer (slot size_log2 wi) x }, put_flag x wi)
  writer_next p (put_flag x wi) =
      (record p { flags = update p.flags (slot size_log2 wi) can_read }, put_grow)
  writer_next p put_grow = (record p { write_index = inc32 p.write_index }, idle)

-- The items that the next access hands to the caller, or puts into the pipe.
abbrev pub reader_gives : {T : Type 0} → Reader T → List T
reader_gives (release i x) = x ∷ []
reader_gives _ = []

abbrev pub writer_gives : {T : Type 0} → Writer T → List T
writer_gives (front_shrink wi x) = x ∷ []
writer_gives _ = []

abbrev pub writer_puts : {T : Type 0} → Writer T → List T
writer_puts (put_flag x wi) = x ∷ []
writer_puts _ = []

-- The pipe with its threads. `written` and `taken` are no part of the program: they record the
-- items that went in and those that were returned, latest first.
pub record System (T : Type 0) : Type 0 where
  pub pipe : Pipe T
  pub readers : ℕ → Reader T
  pub writer : Writer T
  pub written : List T
  pub taken : List T

module _ (size_log2 : ℕ) {T : Type 0} where
  unfoldable pub move_reader : System T → ℕ → Reader T → System T
  unfolding reader_next
  move_reader s j r =
      let (p, r') = reader_next size_log2 s.pipe r in
      record s { pipe = p; readers = update s.readers j r'; taken = reader_gives r ++ s.taken }

  unfoldable pub move_writer : System T → Writer T → System T
  unfolding writer_next
  move_writer s w =
      let (p, w') = writer_next size_log2 s.pipe w in
      record s {
        pipe = p;
        writer = w';
        written = writer_puts w ++ s.written;
        taken = writer_gives w ++ s.taken;
      }

  -- Reader `j` of `n` or the writer enters a function, or makes its next access.
  pub data Step (n : ℕ) (s : System T) : System T → Type 0 where
    read_back :
        (j : ℕ)
        → j < n
        → s.readers j ≡ away
        → Step n s (record s { readers = update s.readers j load_count })
    read_front : s.writer ≡ idle → Step n s (record s { writer = front_load })
    write_front : (x : T) → s.writer ≡ idle → Step n s (record s { writer = put_load x })
    reader : (j : ℕ) → j < n → Step n s (move_reader s j (s.readers j))
    writer : Step n s (move_writer s s.writer)

  -- A cleared pipe with nobody in it.
  abbrev pub start : (ℕ → T) → System T
  start b = record {
    pipe = record {
      buffer = b;
      write_index = 0;
      read_count = 0;
      flags = λ i. can_write;
      read_index = 0;
    };
    readers = λ j. away;
    writer = idle;
    written = [];
    taken = [];
  }

  pub data Reach (n : ℕ) (b : ℕ → T) : System T → Type 0 where
    begin : Reach n b (start b)
    later : {s t : System T} → Reach n b s → Step n s t → Reach n b t
