-- ===== src/Scheduler/Sleep.antt =====
-- src/TaskScheduler.cpp, WaitForNewTasks, HaveTasks and WakeThreadsForNewTasks, one atomic access at
-- a time: any number of threads, interleaved in any order. The pipes count their pieces and are
-- numbered in the order in which HaveTasks reads them. Every access is taken to be sequentially
-- consistent. WakeThreadsForNewTasks also wakes the threads that wait for a completion, which
-- touches nothing that is here: `Scheduler/Completing.antt` has them.
pub mod Counts
pub mod Invariant
pub mod Safety
use enki_ts.Base.{
  ℕ, zero, suc, ◌+◌, ◌-◌, ◌<◌, ◌≤◌, ◌≡◌, Option, none, some, ℤ, pos, negsuc, ◌+ℤ◌, leb, ◌==◌,
  if◌then◌else◌, Bool, true, false, update,
}

-- Where a thread stands, with its locals.
pub data Pc : Type 0 where
  working : Pc  -- in none of these functions
  load : Option ℕ → Pc  -- WakeThreadsForNewTasks, before the load; the pipe that was written to
  swap : Option ℕ → ℕ → Pc  -- `waiting`, positive; before the compare and exchange
  signal : ℕ → Pc  -- `waiting`; before SemaphoreSignal
  scan : ℕ → Pc  -- HaveTasks, after the fetch_add; before the look at this pipe
  leave : Pc  -- WaitForNewTasks, before the fetch_sub
  asleep : Pc  -- WaitForNewTasks, before SemaphoreWait

-- `pieces` counts what is in each pipe, `waiting` is m_NumThreadsWaitingForNewTasks and `semaphore`
-- the count of m_pNewTaskSemaphore.
pub record System : Type 0 where
  pub pieces : ℕ → ℕ
  pub waiting : ℤ
  pub semaphore : ℕ
  pub threads : ℕ → Pc

-- The `while` of WakeThreadsForNewTasks on the value that was read: it swaps a positive one.
abbrev pub loaded : Option ℕ → ℤ → Pc
loaded o (pos zero) = working
loaded o (pos (suc v)) = swap o (suc v)
loaded o (negsuc v) = working

-- The compare and exchange on the value `v`.
abbrev pub is_value : ℤ → ℕ → Bool
is_value (pos a) v = a == v
is_value (negsuc a) v = false

abbrev pub idle : System
idle = record { pieces = λ k. 0; waiting = pos 0; semaphore = 0; threads = λ i. working }

module _ (pipes : ℕ) where
  -- One access of a thread.
  unfoldable pub move : System → ℕ → Pc → System
  move s i working = s
  move s i (load o) = record s { threads = update s.threads i (loaded o s.waiting) }
  move s i (swap o v) =
      if is_value s.waiting v
      then record s { waiting = pos 0; threads = update s.threads i (signal v) }
      else record s { threads = update s.threads i (load o) }
  move s i (signal v) = record s {
    semaphore = s.semaphore + v;
    threads = update s.threads i working;
  }
  move s i (scan x) = record s {
    threads =
        update s.threads i
          (if leb pipes x then asleep else if s.pieces x == 0 then scan (x + 1) else leave);
  }
  move s i leave = record s {
    waiting = s.waiting +ℤ negsuc 0;
    threads = update s.threads i working;
  }
  -- SemaphoreWait: on a count of 0 the thread stays where it is.
  move s i asleep =
      if s.semaphore == 0
      then s
      else record s { semaphore = s.semaphore - 1; threads = update s.threads i working }

  -- Thread `i` of `n` makes its next access, or enters one of the functions, or a piece is written or
  -- taken.
  pub data Step (n : ℕ) (s : System) : System → Type 0 where
    access : (i : ℕ) → i < n → Step n s (move s i (s.threads i))
    -- SplitAndAddTask writes a piece and will call WakeThreadsForNewTasks; it may write several first.
    write :
        (i k : ℕ)
        → i < n
        → s.threads i ≡ working
        → Step n s (record s {
          pieces = update s.pieces k (s.pieces k + 1);
          threads = update s.threads i (load (some k));
        })
    write_more :
        (i k : ℕ)
        → i < n
        → s.threads i ≡ load (some k)
        → Step n s (record s { pieces = update s.pieces k (s.pieces k + 1) })
    -- A call without a piece, as in WakeSuspendedThreadsWithPinnedTasks.
    wake :
        (i : ℕ)
        → i < n
        → s.threads i ≡ working
        → Step n s (record s { threads = update s.threads i (load none) })
    take : (k : ℕ) → Step n s (record s { pieces = update s.pieces k (s.pieces k - 1) })
    -- WaitForNewTasks, its fetch_add.
    wait :
        (i : ℕ)
        → i < n
        → s.threads i ≡ working
        → Step n s
            (record s { waiting = s.waiting +ℤ pos 1; threads = update s.threads i (scan 0) })
    -- HaveTasks finds a pinned task of the thread.
    pinned :
        (i x : ℕ)
        → i < n
        → s.threads i ≡ scan x
        → Step n s (record s { threads = update s.threads i leave })
    -- compare_exchange_weak fails without a reason.
    spurious :
        (i v : ℕ) (o : Option ℕ)
        → i < n
        → s.threads i ≡ swap o v
        → Step n s (record s { threads = update s.threads i (load o) })

  pub data Reach (n : ℕ) : System → Type 0 where
    begin : Reach n idle
    later : {s t : System} → Reach n s → Step n s t → Reach n t
