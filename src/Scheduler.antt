-- ===== src/Scheduler.antt =====
-- src/TaskScheduler.h and src/TaskScheduler.cpp: the data of the scheduler, and the commands that
-- act on it. Its operations are in the modules below.
pub mod Split
pub mod Wake
pub mod Add
pub mod Work
pub mod Hash
pub mod Running
pub mod Threads
pub mod Waiting
pub mod Sleep
pub mod Drain
pub mod Completing
use enki_ts.Base.{ℕ, ◌+◌, ◌-◌, ◌%◌, ◌^◌, Bool, List, ◌∷◌, ℤ, ◌==◌, if◌then◌else◌}

-- `gc_TaskStartCount`, `gc_TaskAlmostCompleteCount`, `gc_PipeSizeLog2`, `gc_SpinCount`,
-- `gc_MaxNumInitialPartitions`, `gc_MaxStolenPartitions` and `NO_THREAD_NUM`.
abbrev pub task_start_count : ℕ
task_start_count = 2

abbrev pub task_almost_complete_count : ℕ
task_almost_complete_count = 1

abbrev pub pipe_size_log2 : ℕ
pipe_size_log2 = 8

abbrev pub spin_count : ℕ
spin_count = 10

abbrev pub max_num_initial_partitions : ℕ
max_num_initial_partitions = 8

abbrev pub max_stolen_partitions : ℕ
max_stolen_partitions = 2 ^ pipe_size_log2

abbrev pub no_thread_num : ℕ
no_thread_num = 0xffff_ffff

-- `TASK_PRIORITY_NUM`, with the default of ENKITS_TASK_PRIORITIES_NUM: high is 0, low is 2.
abbrev pub priority_num : ℕ
priority_num = 3

-- Sums and differences of uint32_t, and of int32_t kept as their bit patterns.
abbrev pub add32 : ℕ → ℕ → ℕ
add32 a b = (a + b) % 2 ^ 32

abbrev pub sub32 : ℕ → ℕ → ℕ
sub32 a b = (a + 2 ^ 32 - b) % 2 ^ 32

-- `TaskSetPartition`
pub record Partition : Type 0 where
  pub start : ℕ
  pub end : ℕ

-- `SubTaskSet`: the task is named by its address.
pub record SubTaskSet : Type 0 where
  pub task : ℕ
  pub partition : Partition

pub data ThreadState : Type 0 where
  none_state not_launched running_state primary_registered external_registered external_unregistered
        wait_task_completion wait_new_tasks wait_new_pinned_tasks stopped :
      ThreadState

-- Which class a completable is of, for its `OnDependenciesComplete`.
pub data Kind : Type 0 where
  task_set pinned_task completable : Kind
  completion_action : (pre post : Bool) → Kind  -- whether it has the functions to call before and after

-- `ICompletable`, with the members of `ITaskSet` and `IPinnedTask`. The dependents are the tasks to
-- run on completion, in the order of the list that starts at `m_pDependents`; the list itself, with
-- its links, is in `Dependency.antt`.
pub record Task : Type 0 where
  pub kind : Kind
  pub priority : ℕ
  pub running_count : ℕ  -- m_RunningCount, an int32_t
  pub dependencies_completed_count : ℕ
  pub dependencies_count : ℕ
  pub waiting_for_task_count : ℕ
  pub dependents : List ℕ
  pub set_size : ℕ
  pub min_range : ℕ
  pub range_to_run : ℕ
  pub thread_num : ℕ

-- The counts of waiting threads and the semaphores that they wait on.
pub record Waiters : Type 0 where
  pub new_tasks : ℤ  -- m_NumThreadsWaitingForNewTasks
  pub task_completion : ℤ  -- m_NumThreadsWaitingForTaskCompletion
  pub new_task_semaphore : ℕ
  pub task_complete_semaphore : ℕ
  pub pinned_semaphore : ℕ → ℕ

-- What a run of the scheduler did, latest first: calls of the user's code, and completions.
pub data Event : Type 0 where
  executed : ℕ → Partition → ℕ → Event  -- ExecuteRange: task, range, thread
  executed_pinned : ℕ → ℕ → Event  -- Execute: task, thread
  completed : ℕ → Event  -- the store of 0 in TaskComplete
  pre_complete post_complete : ℕ → ℕ → Event  -- the functions of a completion action
  suspend_start suspend_stop wait_start wait_stop : ℕ → Event  -- profiler callbacks: thread

-- `TaskSchedulerConfig`, without its callbacks and its allocator.
pub record Config : Type 0 where
  pub num_task_threads_to_create : ℕ
  pub num_external_task_threads : ℕ

-- `TaskScheduler`. A pipe is the list of what it holds and a pinned list the list of its nodes,
-- oldest first: `Pipe.Refine` and `IntrusiveList.Refine` show that the real ones serve as such.
pub record Scheduler : Type 0 where
  pub num_threads : ℕ
  pub num_partitions : ℕ
  pub num_initial_partitions : ℕ
  pub config : Config
  pub tasks : ℕ → Task
  pub pipes : ℕ → ℕ → List SubTaskSet  -- m_pPipesPerThread[ priority ][ thread ]
  pub pinned : ℕ → ℕ → List ℕ  -- m_pPinnedTaskListPerThread[ priority ][ thread ]
  pub thread_state : ℕ → ThreadState
  pub rnd_seed : ℕ → ℕ
  pub waiters : Waiters
  pub is_running : Bool
  pub shutdown_requested : Bool
  pub waitforall_called : Bool
  pub have_threads : Bool
  pub num_internal_running : ℤ
  pub num_external_registered : ℤ
  pub log : List Event

-- What a command comes to. `blocked` waits for another thread, `out_of_fuel` is a loop that used up
-- the rounds that it was given.
pub data Run (A : Type 0) : Type 0 where
  done : A → Scheduler → Run A
  blocked : Run A
  out_of_fuel : Run A

abbrev pub Command : Type 0 → Type 0
Command A = Scheduler → Run A

abbrev pub Action : Type 0
Action = Command (Unit {0})

abbrev pub pure : {A : Type 0} → A → Command A
pure a s = done a s

abbrev pub and_then : {A B : Type 0} → Run A → (A → Command B) → Run B
and_then (done a s) k = k a s
and_then blocked k = blocked
and_then out_of_fuel k = out_of_fuel

infixl 5 ◌>>=◌ ◌>>◌
abbrev pub ◌>>=◌ : {A B : Type 0} → Command A → (A → Command B) → Command B
m >>= k = λ s. and_then (m s) k

abbrev pub ◌>>◌ : {B : Type 0} → Action → Command B → Command B
m >> k = m >>= λ _. k

abbrev pub gets : {A : Type 0} → (Scheduler → A) → Command A
gets f s = done (f s) s

abbrev pub modify : (Scheduler → Scheduler) → Action
modify f s = done tt (f s)

abbrev pub skip : Action
skip s = done tt s

abbrev pub when : Bool → Action → Action
when b m = if b then m else skip

abbrev pub record_event : Event → Action
record_event e = modify (λ s. record s { log = e ∷ s.log })

-- A write to the task at address `t`.
abbrev pub set_task : ℕ → Task → Scheduler → Scheduler
set_task t task s = record s { tasks = λ a. if t == a then task else s.tasks a }

-- `fetch_add` and `fetch_sub` on `m_RunningCount`: the value before.
abbrev pub fetch_add_running : ℕ → ℕ → Command ℕ
fetch_add_running t n s =
    done (s.tasks t).running_count
      (set_task t (record (s.tasks t) { running_count = add32 (s.tasks t).running_count n }) s)

abbrev pub fetch_sub_running : ℕ → ℕ → Command ℕ
fetch_sub_running t n s =
    done (s.tasks t).running_count
      (set_task t (record (s.tasks t) { running_count = sub32 (s.tasks t).running_count n }) s)
