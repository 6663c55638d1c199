-- ===== src/Scheduler/Completing.antt =====
-- src/TaskScheduler.cpp, WaitForTaskCompletion, TaskComplete and WakeThreadsForTaskCompletion, one
-- atomic access at a time: any number of threads and tasks, interleaved in any order. What HaveTasks
-- finds is left open. Every access is taken to be sequentially consistent.
pub mod Counts
pub mod Invariant
pub mod Moves
pub mod Safety
use enki_ts.Base.{
  ℕ, zero, suc, ◌+◌, ◌-◌, ◌<◌, ◌≤◌, ◌≡◌, Option, none, some, ℤ, pos, negsuc, ◌+ℤ◌, leb, ◌==◌,
  if◌then◌else◌, Bool, true, false, not, update,
}
use enki_ts.Scheduler.{task_start_count, task_almost_complete_count}
use enki_ts.Scheduler.Sleep.{is_value}

-- Where a thread stands, with its locals; `t` is the task that it waits for or completes.
pub data Pc : Type 0 where
  working : Pc  -- in none of these functions
  enter : (t : ℕ) → Pc  -- WaitForTaskCompletion, before the fetch_add on m_WaitingForTaskCount
  test : (t : ℕ) → Pc  -- before the load of m_RunningCount
  scan : (t : ℕ) → Pc  -- in HaveTasks
  leave : (t : ℕ) → Pc  -- before the fetch_sub on m_NumThreadsWaitingForTaskCompletion
  asleep : (t : ℕ) → Pc  -- before SemaphoreWait
  check : (t : ℕ) → Pc  -- after it, before GetIsComplete
  quit : (t : ℕ) → Pc  -- before the fetch_sub on m_WaitingForTaskCount
  -- WakeThreadsForTaskCompletion: before the load, before the compare and exchange of `waiting`, which
  -- is positive, and before SemaphoreSignal. It was called by WaitForTaskCompletion on a task, or not.
  load : (caller : Option ℕ) → Pc
  swap : (caller : Option ℕ) (waiting : ℕ) → Pc
  signal : (caller : Option ℕ) (waiting : ℕ) → Pc
  look : (t : ℕ) → Pc  -- TaskComplete, before the load of m_WaitingForTaskCount
  store : (t : ℕ) (wake : Bool) → Pc  -- before the store of 0; `wake` is bCallWakeThreads

-- `count` is m_RunningCount and `waiters` m_WaitingForTaskCount of each task, `waiting` is
-- m_NumThreadsWaitingForTaskCompletion, and `semaphore` the count of m_pTaskCompleteSemaphore.
pub record System : Type 0 where
  pub count : ℕ → ℕ
  pub waiters : ℕ → ℕ
  pub waiting : ℤ
  pub semaphore : ℕ
  pub threads : ℕ → Pc

-- What follows WakeThreadsForTaskCompletion.
abbrev pub return_to : Option ℕ → Pc
return_to none = working
return_to (some t) = quit t

-- The `while` of WakeThreadsForTaskCompletion on the value that was read: it swaps a positive one.
abbrev pub loaded : Option ℕ → ℤ → Pc
loaded o (pos zero) = return_to o
loaded o (pos (suc v)) = swap o (suc v)
loaded o (negsuc v) = return_to o

abbrev pub idle : System
idle = record {
  count = λ t. 0;
  waiters = λ t. 0;
  waiting = pos 0;
  semaphore = 0;
  threads = λ i. working;
}

-- One access of a thread. Where HaveTasks goes on is not said here.
unfoldable pub move : System → ℕ → Pc → System
move s i working = s
move s i (enter t) = record s {
  waiters = update s.waiters t (s.waiters t + 1);
  threads = update s.threads i (test t);
}
move s i (test t) = record s {
  threads =
      update s.threads i (if leb (s.count t) task_almost_complete_count then leave t else scan t);
}
move s i (scan t) = s
move s i (leave t) = record s {
  waiting = s.waiting +ℤ negsuc 0;
  threads = update s.threads i (quit t);
}
-- SemaphoreWait: on a count of 0 the thread stays where it is.
move s i (asleep t) =
    if s.semaphore == 0
    then s
    else record s { semaphore = s.semaphore - 1; threads = update s.threads i (check t) }
move s i (check t) = record s {
  threads = update s.threads i (if s.count t == 0 then quit t else load (some t));
}
move s i (quit t) = record s {
  waiters = update s.waiters t (s.waiters t - 1);
  threads = update s.threads i working;
}
move s i (load o) = record s { threads = update s.threads i (loaded o s.waiting) }
move s i (swap o v) =
    if is_value s.waiting v
    then record s { waiting = pos 0; threads = update s.threads i (signal o v) }
    else record s { threads = update s.threads i (load o) }
move s i (signal o v) = record s {
  semaphore = s.semaphore + v;
  threads = update s.threads i (return_to o);
}
move s i (look t) = record s { threads = update s.threads i (store t (not (s.waiters t == 0))) }
move s i (store t wake) = record s {
  count = update s.count t 0;
  threads = update s.threads i (if wake then load none else working);
}

-- Thread `i` of `n` makes its next access, or enters one of the functions, or a task's count changes.
pub data Step (n : ℕ) (s : System) : System → Type 0 where
  access : (i : ℕ) → i < n → Step n s (move s i (s.threads i))
  found_tasks :
      (i t : ℕ)
      → i < n
      → s.threads i ≡ scan t
      → Step n s (record s { threads = update s.threads i (leave t) })
  found_none :
      (i t : ℕ)
      → i < n
      → s.threads i ≡ scan t
      → Step n s (record s { threads = update s.threads i (asleep t) })
  -- WaitForTaskCompletion, its fetch_add on m_NumThreadsWaitingForTaskCompletion.
  wait :
      (i t : ℕ)
      → i < n
      → s.threads i ≡ working
      → Step n s (record s { waiting = s.waiting +ℤ pos 1; threads = update s.threads i (enter t) })
  -- The fetch_sub that finds gc_TaskStartCount: of TryRunTask, AddTaskSetToPipeInt or RunPinnedTasks,
  -- which call TaskComplete with bWakeThreads_, and of SplitAndAddTask, which calls it without and
  -- then wakes threads in any case.
  last :
      (i t : ℕ)
      → i < n
      → s.threads i ≡ working
      → s.count t ≡ task_start_count
      → Step n s (record s {
        count = update s.count t task_almost_complete_count;
        threads = update s.threads i (look t);
      })
  last_adding :
      (i t : ℕ)
      → i < n
      → s.threads i ≡ working
      → s.count t ≡ task_start_count
      → Step n s (record s {
        count = update s.count t task_almost_complete_count;
        threads = update s.threads i (store t true);
      })
  -- Pieces of a task are added or run, but for the last.
  counts :
      (t m : ℕ)
      → task_start_count ≤ s.count t
      → Step n s (record s { count = update s.count t (task_start_count + m) })
  -- A complete task is added again.
  start :
      (t : ℕ) → s.count t ≡ 0 → Step n s (record s { count = update s.count t task_start_count })
  -- A call of WakeThreadsForTaskCompletion by WakeThreadsForNewTasks.
  wake :
      (i : ℕ)
      → i < n
      → s.threads i ≡ working
      → Step n s (record s { threads = update s.threads i (load none) })
  -- compare_exchange_weak fails without a reason.
  spurious :
      (i v : ℕ) (o : Option ℕ)
      → i < n
      → s.threads i ≡ swap o v
      → Step n s (record s { threads = update s.threads i (load o) })

pub data Reach (n : ℕ) : System → Type 0 where
  begin : Reach n idle
  later : {s t : System} → Reach n s → Step n s t → Reach n t
