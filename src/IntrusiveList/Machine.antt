-- ===== src/IntrusiveList/Machine.antt =====
-- src/LockLessMultiReadPipe.h, class LocklessMultiWriteIntrusiveList, one access to pHead or to a pNext
-- at a time: any number of threads in WriterWriteFront and the owner in ReaderReadBack, interleaved in
-- any order. Every access is taken to be sequentially consistent.
pub mod Invariant
pub mod Writers
pub mod Exchange
pub mod Link
pub mod Readers
pub mod Cut
pub mod Take
pub mod Safety
pub mod Queue
pub mod Alone
use enki_ts.Base.{ℕ, ◌+◌, ◌<◌, ◌≤◌, ◌≡◌, ◌≢◌, ◌==◌, if◌then◌else◌, update}
use enki_ts.IntrusiveList.{null, tail, IntrusiveList, init}

-- A thread in WriterWriteFront( node ): before `pNode_->pNext = NULL`, before the exchange of pHead,
-- and before the write of pNode_ through pPrev.
pub data Writer : Type 0 where
  away : Writer
  clear : (node : ℕ) → Writer
  exchange : (node : ℕ) → Writer
  link : (prev node : ℕ) → Writer

-- The owner in ReaderReadBack, `first` being pTailPlus1, once it was loaded.
pub data Reader : Type 0 where
  resting : Reader
  load_first : Reader  -- before the load of tail.pNext
  load_second : (first : ℕ) → Reader  -- before the load of pTailPlus1->pNext
  advance : (first second : ℕ) → Reader  -- before `tail.pNext = pTailPlus2`
  cut : (first : ℕ) → Reader  -- before `tail.pNext = NULL`
  swap : (first : ℕ) → Reader  -- before the compare and exchange of pHead
  await : (first : ℕ) → Reader  -- in the `while` that waits for pTailPlus1->pNext
  reload : (first : ℕ) → Reader  -- before the load of pTailPlus1->pNext after the `while`
  join : (first second : ℕ) → Reader  -- before the store to tail.pNext that follows
  reset : (first : ℕ) → Reader  -- before `pTailPlus1->pNext = NULL`

-- The list and the threads at work on it. Nodes are numbered in the order of the exchanges of pHead:
-- `nth k` is the `k`-th of the `added` nodes, and `returned k` the `k`-th of the `taken` nodes that
-- ReaderReadBack has returned.
pub record System : Type 0 where
  pub list : IntrusiveList
  pub writers : ℕ → Writer
  pub reader : Reader
  pub nth : ℕ → ℕ
  pub added : ℕ
  pub returned : ℕ → ℕ
  pub taken : ℕ

abbrev pub start : (ℕ → ℕ) → System
start next = record {
  list = record { head = tail; next = update next tail null };
  writers = λ i. away;
  reader = resting;
  nth = λ k. null;
  added = 0;
  returned = λ k. null;
  taken = 0;
}

abbrev pub set_next : ℕ → ℕ → System → System
set_next a b s = record s { list = record { head = s.list.head; next = update s.list.next a b } }

abbrev pub set_writer : ℕ → Writer → System → System
set_writer i w s = record s { writers = update s.writers i w }

abbrev pub set_reader : Reader → System → System
set_reader r s = record s { reader = r }

-- ReaderReadBack returns `node`.
abbrev pub give : ℕ → System → System
give node s = record s {
  reader = resting;
  returned = update s.returned s.taken node;
  taken = s.taken + 1;
}

-- The next access of the thread `i`, in WriterWriteFront.
unfoldable pub write : System → ℕ → Writer → System
write s i away = s
write s i (clear node) = set_next node null (set_writer i (exchange node) s)
write s i (exchange node) = record s {
  list = record { head = node; next = s.list.next };
  writers = update s.writers i (link s.list.head node);
  nth = update s.nth s.added node;
  added = s.added + 1;
}
write s i (link prev node) = set_next prev node (set_writer i away s)

-- The next access of the owner, in ReaderReadBack.
unfoldable pub read : System → Reader → System
read s resting = s
read s load_first =
    if s.list.next tail == null
    then set_reader resting s
    else set_reader (load_second (s.list.next tail)) s
read s (load_second first) =
    if s.list.next first == null
    then set_reader (cut first) s
    else set_reader (advance first (s.list.next first)) s
read s (advance first second) = give first (set_next tail second s)
read s (cut first) = set_next tail null (set_reader (swap first) s)
read s (swap first) =
    if s.list.head == first
    then give first (record s { list = record { head = tail; next = s.list.next } })
    else set_reader (await first) s
read s (await first) = if s.list.next first == null then s else set_reader (reload first) s
read s (reload first) = set_reader (join first (s.list.next first)) s
read s (join first second) = set_next tail second (set_reader (reset first) s)
read s (reset first) = give first (set_next first null s)

-- The node that a thread is adding.
abbrev pub node_of : Writer → ℕ
node_of away = null
node_of (clear node) = node
node_of (exchange node) = node
node_of (link prev node) = node

-- A node that is in the list no more, or was never.
abbrev pub Fresh : System → ℕ → Type 0
Fresh s x = (x ≢ null) × (x ≢ tail) × ((j : ℕ) → s.taken ≤ j → j < s.added → s.nth j ≢ x)

pub data Step (n : ℕ) (s : System) : System → Type 0 where
  writes : (i : ℕ) → i < n → Step n s (write s i (s.writers i))
  reads : Step n s (read s s.reader)
  -- A call of WriterWriteFront, on a node that neither is in the list nor is being added.
  call_write :
      (i x : ℕ)
      → i < n
      → s.writers i ≡ away
      → Fresh s x
      → ((k : ℕ) → k < n → node_of (s.writers k) ≢ x)
      → Step n s (set_writer i (clear x) s)
  call_read : s.reader ≡ resting → Step n s (set_reader load_first s)

pub data Reach (n : ℕ) (next : ℕ → ℕ) : System → Type 0 where
  begin : Reach n next (start next)
  later : {s t : System} → Reach n next s → Step n s t → Reach n next t
