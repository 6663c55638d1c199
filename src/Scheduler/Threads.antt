-- ===== src/Scheduler/Threads.antt =====
-- src/TaskScheduler.cpp: starting and stopping the scheduler's threads, and registering threads of
-- the user. `gtl_threadNum` is an argument or a result; memory and the threads of the operating
-- system are not modelled.
pub mod Starting
pub mod Registering
use enki_ts.Base.{
  ℕ, zero, suc, ◌+◌, ◌-◌, ◌*◌, ◌%◌, ◌^◌, min, max, not, Bool, true, false, ◌&&◌, Option, none, some,
  List, [], ◌∷◌, ℤ, pos, negsuc, ◌+ℤ◌, ltb_ℤ, ltb, ◌==◌, if◌then◌else◌, update,
}
use enki_ts.Scheduler.{
  ThreadState, none_state, not_launched, running_state, primary_registered, external_registered,
  external_unregistered, stopped, Task, Waiters, Config, Scheduler, done, blocked, out_of_fuel,
  Command, Action, pure, ◌>>=◌, ◌>>◌, gets, modify, skip, when, priority_num, no_thread_num, add32,
  sub32, max_num_initial_partitions,
}
use enki_ts.Scheduler.Wake.{set_state, signal_pinned, wake_threads_for_new_tasks}

-- GetNumFirstExternalTaskThread.
abbrev pub first_external : ℕ
first_external = 1

abbrev pub no_waiters : Waiters
no_waiters = record {
  new_tasks = pos 0;
  task_completion = pos 0;
  new_task_semaphore = 0;
  task_complete_semaphore = 0;
  pinned_semaphore = λ t. 0;
}

-- TaskScheduler(), over the tasks that there are.
abbrev pub construct : Config → (ℕ → Task) → Scheduler
construct config tasks = record {
  num_threads = 0;
  num_partitions = 0;
  num_initial_partitions = 0;
  config = config;
  tasks = tasks;
  pipes = λ p t. [];
  pinned = λ p t. [];
  thread_state = λ t. none_state;
  rnd_seed = λ t. 0;
  waiters = no_waiters;
  is_running = false;
  shutdown_requested = false;
  waitforall_called = false;
  have_threads = false;
  num_internal_running = pos 0;
  num_external_registered = pos 0;
  log = [];
}

-- A `for` that sets `count` cells of an array from `first` on.
unfoldable pub fill {ℓ} : {A : Type ℓ} → ℕ → ℕ → A → (ℕ → A) → ℕ → A
fill zero first x f = f
fill (suc count) first x f = fill count (first + 1) x (update f first x)

-- m_NumPartitions and m_NumInitialPartitions; `hardware` is GetNumHardwareThreads().
unfoldable pub partitions_for : ℕ → ℕ → ℕ × ℕ
partitions_for hardware num_threads =
    let used = min num_threads hardware in
    if 1 == num_threads then (1, 1) else (
      max (used * sub32 used 1 % 2 ^ 32) 1,
      min (max (sub32 used 1) 1) max_num_initial_partitions,
    )

-- The threads' states before any is launched, of `count` threads with `external` ones of the user.
abbrev pub initial_states : ℕ → ℕ → ℕ → ThreadState
initial_states count external =
    let internal = first_external + external in
    let primary = update (λ t. none_state) 0 primary_registered in
    fill (count - internal) internal not_launched
      (fill external first_external external_unregistered primary)

-- StartThreads, without the distribution over processor groups. A thread that is launched has not
-- yet run.
unfoldable pub start_threads : ℕ → Action
unfolding fill partitions_for
start_threads hardware = do
  started ← gets (λ s. s.have_threads)
  when (not started) (
      modify (λ s.
        let c = s.config in
        let count = add32 (add32 c.num_task_threads_to_create c.num_external_task_threads) 1 in
        let internal = first_external + c.num_external_task_threads in
        record s {
          num_threads = count;
          pipes = λ p t. [];
          pinned = λ p t. [];
          waiters = record s.waiters {
            new_task_semaphore = 0;
            task_complete_semaphore = 0;
            pinned_semaphore = λ t. 0;
          };
          is_running = true;
          waitforall_called = false;
          shutdown_requested = false;
          thread_state = initial_states count c.num_external_task_threads;
          rnd_seed = λ t. t;
          num_internal_running = s.num_internal_running +ℤ pos (count - internal);
          num_partitions = (partitions_for hardware count).0;
          num_initial_partitions = (partitions_for hardware count).1;
          have_threads = true;
        }))

-- The end of TaskingThreadFunction.
abbrev pub leave_thread : ℕ → Action
leave_thread thread = do
  modify (λ s. record s { num_internal_running = s.num_internal_running +ℤ negsuc 0 })
  set_state thread stopped

abbrev pub leave_threads : List ℕ → Action
leave_threads [] = skip
leave_threads (t ∷ ts) = leave_thread t >> leave_threads ts

abbrev pub signal_all : ℕ → Action
signal_all zero = skip
signal_all (suc n) = signal_all n >> signal_pinned n

-- The `while` of StopThreads: `leaving` says which threads end after each of its rounds; when no
-- further thread ends it goes on for ever, `blocked`.
unfoldable pub stop_loop : Bool → List (List ℕ) → Action
unfolding wake_threads_for_new_tasks
stop_loop wait [] s = if wait && ltb_ℤ (pos 0) s.num_internal_running then blocked else done tt s
stop_loop wait (leaving ∷ rounds) s =
    let again = (do
      wake_threads_for_new_tasks
      count ← gets (λ s'. s'.num_threads)
      signal_all count
      leave_threads leaving
      stop_loop wait rounds) in
    if wait && ltb_ℤ (pos 0) s.num_internal_running then again s else done tt s

-- StopThreads, after the `while`: the threads have ended and their data is deleted.
abbrev pub reset_threads : Scheduler → Scheduler
reset_threads s = record s {
  thread_state = λ t. none_state;
  waiters = no_waiters;
  have_threads = false;
  num_internal_running = pos 0;
  num_external_registered = pos 0;
  pipes = λ p t. [];
  pinned = λ p t. [];
  num_threads = 0;
}

-- StopThreads.
unfoldable pub stop_threads : Bool → List (List ℕ) → Action
unfolding stop_loop
stop_threads wait rounds = do
  modify (λ s. record s { waitforall_called = true; shutdown_requested = true; is_running = false })
  started ← gets (λ s. s.have_threads)
  when started (stop_loop wait rounds >> modify reset_threads)

-- ShutdownNow.
unfoldable pub shutdown_now : List (List ℕ) → Action
unfolding stop_threads
shutdown_now rounds = do
  modify (λ s. record s { waitforall_called = true; shutdown_requested = true })
  started ← gets (λ s. s.have_threads)
  when started (stop_threads true rounds)

-- Initialize( config_ ) and Initialize( numThreadsTotal_ ).
unfoldable pub initialize_config : ℕ → List (List ℕ) → Config → Action
unfolding stop_threads start_threads
initialize_config hardware rounds config = do
  stop_threads true rounds
  modify (λ s. record s { config = config })
  start_threads hardware

unfoldable pub initialize : ℕ → List (List ℕ) → ℕ → Action
unfolding stop_threads start_threads
initialize hardware rounds total = do
  stop_threads true rounds
  modify (λ s. record s {
    config = record { num_task_threads_to_create = sub32 total 1; num_external_task_threads = 0 };
  })
  start_threads hardware

abbrev pub is_unregistered : ThreadState → Bool
is_unregistered external_unregistered = true
is_unregistered _ = false

abbrev pub is_registered : ThreadState → Bool
is_registered external_registered = true
is_registered _ = false

-- RegisterExternalTaskThread( threadNumToRegister_ ): whether it is the caller's now.
unfoldable pub register_external_task_thread_num : ℕ → Command Bool
register_external_task_thread_num thread s =
    if is_unregistered (s.thread_state thread)
    then done true (record s {
      thread_state = update s.thread_state thread external_registered;
      num_external_registered = s.num_external_registered +ℤ pos 1;
    })
    else done false s

-- The `for` of RegisterExternalTaskThread: the thread that it registered, if any.
unfoldable pub register_first : ℕ → ℕ → Command (Option ℕ)
unfolding register_external_task_thread_num
register_first zero thread = pure none
register_first (suc left) thread =
    let rest = register_first left (thread + 1) in
    (do won ← register_external_task_thread_num thread; if won then pure (some thread) else rest)

abbrev pub or_again : Command (Option ℕ) → Option ℕ → Command (Option ℕ)
or_again again (some t) = pure (some t)
or_again again none = again

-- RegisterExternalTaskThread: the new gtl_threadNum, if it registered.
unfoldable pub register_external_task_thread : ℕ → Command (Option ℕ)
unfolding register_first
register_external_task_thread zero s = out_of_fuel
register_external_task_thread (suc fuel) s =
    let count = s.config.num_external_task_threads in
    let again = (do
      won ← register_first count first_external
      or_again (register_external_task_thread fuel) won) in
    if ltb_ℤ s.num_external_registered (pos count) then again s else done none s

-- DeRegisterExternalTaskThread of the thread `gtl_threadNum`, with its new value.
unfoldable pub deregister_external_task_thread : ℕ → Command ℕ
deregister_external_task_thread thread s =
    if is_registered (s.thread_state thread)
    then done no_thread_num (record s {
      thread_state = update s.thread_state thread external_unregistered;
      num_external_registered = s.num_external_registered +ℤ negsuc 0;
    })
    else done thread s
