-- ===== src/Memory.antt =====
-- src/TaskScheduler.cpp and src/TaskScheduler.h: the memory of the scheduler. NewArray, DeleteArray,
-- Alloc, Free, SemaphoreNew and SemaphoreDelete, and the parts of StartThreads, StopThreads and
-- Initialize that call them. The functions of a CustomAllocator are the user's.
pub mod Balance
pub mod Members
pub mod Lifetime
pub mod Clients
use enki_ts.Base.{
  ℕ, zero, suc, ◌+◌, ◌-◌, ◌*◌, ◌%◌, ◌^◌, ◌==◌, ◌&&◌, not, Bool, true, false, List, [], ◌∷◌,
  if◌then◌else◌, update,
}
use enki_ts.Scheduler.{add32, sub32}

-- `CustomAllocator`: the functions are named by their addresses.
pub record CustomAllocator : Type 0 where
  pub alloc : ℕ
  pub free : ℕ
  pub user_data : ℕ

-- `ProfilerCallbacks`: the functions by their addresses, `null` for none.
pub record ProfilerCallbacks : Type 0 where
  pub thread_start : ℕ
  pub thread_stop : ℕ
  pub wait_for_new_task_suspend_start : ℕ
  pub wait_for_new_task_suspend_stop : ℕ
  pub wait_for_task_complete_start : ℕ
  pub wait_for_task_complete_stop : ℕ
  pub wait_for_task_complete_suspend_start : ℕ
  pub wait_for_task_complete_suspend_stop : ℕ

abbrev pub null : ℕ
null = 0

abbrev pub no_callbacks : ProfilerCallbacks
no_callbacks = record {
  thread_start = null;
  thread_stop = null;
  wait_for_new_task_suspend_start = null;
  wait_for_new_task_suspend_stop = null;
  wait_for_task_complete_start = null;
  wait_for_task_complete_stop = null;
  wait_for_task_complete_suspend_start = null;
  wait_for_task_complete_suspend_stop = null;
}

pub record TaskSchedulerConfig : Type 0 where
  pub num_task_threads_to_create : ℕ
  pub num_external_task_threads : ℕ
  pub profiler_callbacks : ProfilerCallbacks
  pub custom_allocator : CustomAllocator

-- TaskSchedulerConfig(), with DefaultAllocFunc and DefaultFreeFunc in `default`; `hardware` is
-- GetNumHardwareThreads().
abbrev pub default_config : CustomAllocator → ℕ → TaskSchedulerConfig
default_config default hardware = record {
  num_task_threads_to_create = sub32 hardware 1;
  num_external_task_threads = 0;
  profiler_callbacks = no_callbacks;
  custom_allocator = default;
}

-- A block as it was asked for, or as it is given back.
pub record Block : Type 0 where
  pub allocator : CustomAllocator
  pub address : ℕ
  pub size : ℕ

pub data Call : Type 0 where
  allocated : Block → (align : ℕ) → Call
  freed : Block → Call

-- What the scheduler and the C interface allocate.
pub data Item : Type 0 where
  task_pipe pinned_task_list thread_data_store std_thread semaphore : Item
  enki_task_scheduler enki_task_set enki_pinned_task enki_completable enki_dependency
        enki_completion_action :
      Item

-- The members of TaskScheduler that point to memory, those that say how much of it, and the calls of
-- allocators, the latest first.
pub record Memory : Type 0 where
  pub config : TaskSchedulerConfig
  pub num_threads : ℕ
  pub have_threads : Bool
  pub pipes : ℕ → ℕ  -- m_pPipesPerThread, of each priority
  pub pinned : ℕ → ℕ  -- m_pPinnedTaskListPerThread, of each priority
  pub thread_data : ℕ
  pub threads : ℕ
  pub new_task_semaphore : ℕ
  pub task_complete_semaphore : ℕ
  pub pinned_semaphore : ℕ → ℕ  -- pWaitNewPinnedTaskSemaphore, of each thread
  pub log : List Call

abbrev pub Act : Type 0 → Type 0
Act A = Memory → A × Memory

infixl 5 ◌>>=◌ ◌>>◌
abbrev pub ◌>>=◌ : {A B : Type 0} → Act A → (A → Act B) → Act B
m >>= k = λ s. k (m s).0 (m s).1

abbrev pub ◌>>◌ : {A B : Type 0} → Act A → Act B → Act B
m >> k = m >>= λ _. k

abbrev pub modify : (Memory → Memory) → Act (Unit {0})
modify f s = (tt, f s)

abbrev pub gets : {A : Type 0} → (Memory → A) → Act A
gets f s = (f s, s)

abbrev pub skip : Act (Unit {0})
skip s = (tt, s)

-- The TaskScheduler that the constructor leaves, after the calls in `log`.
abbrev pub construct : TaskSchedulerConfig → List Call → Memory
construct config log = record {
  config = config;
  num_threads = 0;
  have_threads = false;
  pipes = λ p. null;
  pinned = λ p. null;
  thread_data = null;
  threads = null;
  new_task_semaphore = null;
  task_complete_semaphore = null;
  pinned_semaphore = λ t. null;
  log = log;
}

abbrev pub block : CustomAllocator → ℕ → ℕ → Block
block a p n = record { allocator = a; address = p; size = n }

-- `place` is the address that an allocator gives, after the calls so far, for an alignment and a size;
-- `size_of` and `align_of` are sizeof and alignof.
module _ (place : CustomAllocator → List Call → ℕ → ℕ → ℕ) (size_of align_of : Item → ℕ) where
  unfoldable pub alloc_block : ℕ → ℕ → Act ℕ
  alloc_block align size m =
      let p = place m.config.custom_allocator m.log align size in
      (p, record m { log = allocated (block m.config.custom_allocator p size) align ∷ m.log })

  unfoldable pub free_block : ℕ → ℕ → Act (Unit {0})
  free_block p size m =
      (tt, record m { log = freed (block m.config.custom_allocator p size) ∷ m.log })

  -- NewArray and DeleteArray. What the constructors of the elements write is in the models of their classes.
  abbrev pub new_array : Item → ℕ → Act ℕ
  new_array item num = alloc_block (align_of item) (num * size_of item % 2 ^ 64)

  abbrev pub delete_array : Item → ℕ → ℕ → Act (Unit {0})
  delete_array item p num = free_block p (size_of item * num % 2 ^ 64)

  -- Alloc and Free.
  abbrev pub alloc_item : Item → Act ℕ
  alloc_item item = alloc_block (align_of item) (size_of item)

  abbrev pub free_item : Item → ℕ → Act (Unit {0})
  free_item item p = free_block p (size_of item)

  -- SemaphoreNew and SemaphoreDelete, without the operating system's part.
  abbrev pub semaphore_new : Act ℕ
  semaphore_new = alloc_item semaphore

  abbrev pub semaphore_delete : ℕ → Act (Unit {0})
  semaphore_delete p = free_item semaphore p

  -- The first `for` of StartThreads, for one priority.
  unfoldable pub new_lists : ℕ → Act (Unit {0})
  new_lists priority = do
    num ← gets (λ m. m.num_threads)
    p ← new_array task_pipe num
    modify (λ m. record m { pipes = update m.pipes priority p })
    q ← new_array pinned_task_list num
    modify (λ m. record m { pinned = update m.pinned priority q })

  -- The `for` of StartThreads that creates the semaphores of `left` threads from `thread` on.
  unfoldable pub new_semaphores : ℕ → ℕ → Act (Unit {0})
  new_semaphores zero thread = skip
  new_semaphores (suc left) thread =
      let rest = new_semaphores left (thread + 1) in
      (do
        p ← semaphore_new
        modify (λ m. record m { pinned_semaphore = update m.pinned_semaphore thread p })
        rest)

  -- StartThreads up to the threads' semaphores, and from there on.
  unfoldable pub new_arrays : Act (Unit {0})
  unfolding new_lists
  new_arrays = do
    modify (λ m. record m {
      num_threads =
          add32 (add32 m.config.num_task_threads_to_create m.config.num_external_task_threads) 1;
    })
    new_lists 0
    new_lists 1
    new_lists 2
    p ← semaphore_new
    modify (λ m. record m { new_task_semaphore = p })
    q ← semaphore_new
    modify (λ m. record m { task_complete_semaphore = q })
    num ← gets (λ m. m.num_threads)
    d ← new_array thread_data_store num
    modify (λ m. record m { thread_data = d })
    r ← new_array std_thread num
    modify (λ m. record m { threads = r })

  unfoldable pub new_threads : Act (Unit {0})
  unfolding new_arrays new_semaphores
  new_threads = do
    new_arrays
    num ← gets (λ m. m.num_threads)
    new_semaphores num 0
    modify (λ m. record m { have_threads = true })

  unfoldable pub start_threads : Act (Unit {0})
  unfolding new_threads
  start_threads m = if m.have_threads then skip m else new_threads m

  -- The `for` of StopThreads that deletes the semaphores of `left` threads from `thread` on.
  unfoldable pub delete_semaphores : ℕ → ℕ → Act (Unit {0})
  delete_semaphores zero thread = skip
  delete_semaphores (suc left) thread =
      let rest = delete_semaphores left (thread + 1) in
      (do p ← gets (λ m. m.pinned_semaphore thread); semaphore_delete p; rest)

  -- The last `for` of StopThreads, for one priority.
  unfoldable pub delete_lists : ℕ → Act (Unit {0})
  delete_lists priority = do
    num ← gets (λ m. m.num_threads)
    p ← gets (λ m. m.pipes priority)
    delete_array task_pipe p num
    modify (λ m. record m { pipes = update m.pipes priority null })
    q ← gets (λ m. m.pinned priority)
    delete_array pinned_task_list q num
    modify (λ m. record m { pinned = update m.pinned priority null })

  -- StopThreads after the threads' semaphores are deleted, and all of it once the threads have ended.
  unfoldable pub delete_arrays : Act (Unit {0})
  unfolding delete_lists
  delete_arrays = do
    num ← gets (λ m. m.num_threads)
    d ← gets (λ m. m.thread_data)
    delete_array thread_data_store d num
    r ← gets (λ m. m.threads)
    delete_array std_thread r num
    modify (λ m. record m { thread_data = null; threads = null })
    p ← gets (λ m. m.new_task_semaphore)
    semaphore_delete p
    modify (λ m. record m { new_task_semaphore = null })
    q ← gets (λ m. m.task_complete_semaphore)
    semaphore_delete q
    modify (λ m. record m { task_complete_semaphore = null; have_threads = false })
    delete_lists 0
    delete_lists 1
    delete_lists 2
    modify (λ m. record m { num_threads = 0 })

  unfoldable pub delete_threads : Act (Unit {0})
  unfolding delete_arrays delete_semaphores
  delete_threads = do num ← gets (λ m. m.num_threads); delete_semaphores num 0; delete_arrays

  unfoldable pub stop_threads : Act (Unit {0})
  unfolding delete_threads
  stop_threads m = if m.have_threads then delete_threads m else skip m

  -- Initialize( config_ ) and Initialize( numThreadsTotal_ ).
  unfoldable pub initialize_config : TaskSchedulerConfig → Act (Unit {0})
  unfolding start_threads stop_threads
  initialize_config config = do
    stop_threads
    modify (λ m. record m { config = config })
    start_threads

  unfoldable pub initialize : ℕ → Act (Unit {0})
  unfolding start_threads stop_threads
  initialize total = do
    stop_threads
    modify (λ m. record m {
      config = record m.config {
        num_task_threads_to_create = sub32 total 1;
        num_external_task_threads = 0;
      };
    })
    start_threads
