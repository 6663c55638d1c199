-- ===== src/Scheduler/Waiting.antt =====
-- src/TaskScheduler.cpp: adding tasks from outside, waiting for tasks, and what a thread that the
-- scheduler started does. A command runs with no other thread in between; one that would wait for
-- another thread is `blocked`, and loops are bounded by fuel.
pub mod Adding
pub mod Pinned
pub mod Others
use enki_ts.Base.{
  ℕ, zero, suc, ◌+◌, ◌-◌, ◌%◌, max, not, ◌&&◌, ◌||◌, Bool, true, false, Option, none, some, List,
  [], ◌∷◌, ltb, ◌==◌, if◌then◌else◌, any_below,
}
use enki_ts.Scheduler.{
  ThreadState, not_launched, running_state, wait_task_completion, wait_new_pinned_tasks, wait_start,
  wait_stop, suspend_start, suspend_stop, Scheduler, done, out_of_fuel, Command, Action, pure,
  ◌>>=◌, ◌>>◌, gets, modify, skip, when, record_event, set_task, task_start_count, priority_num,
  spin_count,
}
use enki_ts.Scheduler.Wake.{
  is_nil, set_state, is_complete, wait_pinned_semaphore, signal_pinned, have_tasks,
  wait_for_new_tasks, wait_for_task_completion,
}
use enki_ts.Scheduler.Add.{add_task_set_to_pipe_int, add_pinned_task_int, task_complete}
use enki_ts.Scheduler.Running.{try_priorities, try_run_task}
use enki_ts.Scheduler.Threads.{leave_thread, stop_threads}

abbrev set_running_count : ℕ → ℕ → Action
set_running_count t n = modify (λ s. set_task t (record (s.tasks t) { running_count = n }) s)

-- The `while` of InitDependencies, `init` being the function itself.
abbrev init_each : (ℕ → Action) → List ℕ → Action
init_each init [] = skip
init_each init (d ∷ ds) = init d >> set_running_count d task_start_count >> init_each init ds

-- InitDependencies: `depth` bounds the chains of dependents.
unfoldable pub init_dependencies : ℕ → ℕ → Action
init_dependencies zero t s = out_of_fuel
init_dependencies (suc depth) t s =
    let each = init_each (init_dependencies depth) (s.tasks t).dependents in
    if is_complete s t then each s else done tt s

module _ (depth fuel : ℕ) where
  -- AddTaskSetToPipe, by the thread `thread`.
  unfoldable pub add_task_set_to_pipe : ℕ → ℕ → Action
  unfolding init_dependencies add_task_set_to_pipe_int task_complete
  add_task_set_to_pipe t thread =
      init_dependencies depth t
      >> set_running_count t task_start_count
      >> add_task_set_to_pipe_int (task_complete depth fuel) fuel t thread

  -- AddPinnedTask.
  unfoldable pub add_pinned_task : ℕ → Action
  unfolding init_dependencies add_pinned_task_int
  add_pinned_task t =
      init_dependencies depth t >> set_running_count t task_start_count >> add_pinned_task_int t

  -- The `while` of WaitforTask; `spins` is spinCount.
  unfoldable pub wait_loop : ℕ → ℕ → ℕ → ℕ → ℕ → ℕ → Action
  unfolding try_priorities wait_for_task_completion
  wait_loop zero t thread lowest hint spins s = out_of_fuel
  wait_loop (suc rounds) t thread lowest hint spins s =
      let again = (do
        ran ← try_priorities depth fuel (lowest + 1) 0 thread hint
        let now = if ran.0 then 0 else spins + 1
        when (ltb spin_count now) (wait_for_task_completion t thread)
        wait_loop rounds t thread lowest ran.1 (if ltb spin_count now then 0 else now)) in
      if not (is_complete s t) && s.is_running then again s else done tt s

  -- WaitforTask, with `none` for the null pointer.
  unfoldable pub waitfor_task : Option ℕ → ℕ → ℕ → Action
  unfolding wait_loop try_priorities
  waitfor_task waited thread lowest = do
    before ← gets (λ s. s.thread_state thread)
    set_state thread running_state
    elim waited [
      | none ↦ (do _ ← try_priorities depth fuel (lowest + 1) 0 thread (thread + 1); skip)
      | some t ↦ (do
        finished ← gets (λ s. is_complete s t)
        priority ← gets (λ s. (s.tasks t).priority)
        when (not finished) (
            record_event (wait_start thread)
            >> wait_loop fuel t thread (max lowest priority) (thread + 1) 0
            >> record_event (wait_stop thread)))
    ]
    set_state thread before

  abbrev waits_on : ThreadState → Bool
  waits_on running_state = true
  waits_on wait_task_completion = true
  waits_on _ = false

  -- The `do` of WaitforAll that looks for a thread to wait on: the number of dummyWaitTask's thread,
  -- and whether it was found. With one thread WaitforAll ends before it spins, so that the test
  -- `while( countThreadsToCheck )` starts with at least 1.
  unfoldable pub find_thread : ℕ → ℕ → ℕ → Scheduler → ℕ × Bool
  find_thread zero our at s = (at, false)
  find_thread (suc left) our at s =
      let next = (at + 1) % s.num_threads in
      let rest = find_thread left our next s in
      if not (next == our)
        && ltb s.config.num_external_task_threads next
        && waits_on (s.thread_state next)
      then (next, true)
      else rest

  -- The `for` and `switch` of WaitforAll that looks for running threads from `thread` on.
  unfoldable pub others_running : ℕ → ℕ → ℕ → Command Bool
  others_running zero our thread s = done false s
  others_running (suc left) our thread s =
      let rest = others_running left our (thread + 1) in
      if thread == our then rest s else elim (s.thread_state thread) [
        | not_launched ↦ done true s
        | running_state ↦ done true s
        | wait_task_completion ↦ done true s
        | wait_new_pinned_tasks ↦ (signal_pinned thread >> pure true) s
        | _ ↦ rest s
      ]

  -- The `if` of WaitforAll on spinCount: `dummy` is the address of dummyWaitTask.
  unfoldable pub wait_on_other : ℕ → ℕ → Action
  unfolding find_thread add_pinned_task waitfor_task
  wait_on_other dummy our = do
    found ← gets (λ s. find_thread (s.num_threads - 1) our (s.tasks dummy).thread_num s)
    modify (λ s. set_task dummy (record (s.tasks dummy) { thread_num = found.0 }) s)
    when found.1 (add_pinned_task dummy >> waitfor_task (some dummy) our (priority_num - 1))

  -- The `while` of WaitforAll.
  unfoldable pub wait_all_loop : ℕ → ℕ → ℕ → ℕ → ℕ → Bool → Action
  unfolding try_run_task wait_on_other others_running have_tasks any_below
  wait_all_loop zero dummy our hint spins busy s = out_of_fuel
  wait_all_loop (suc rounds) dummy our hint spins busy s =
      let again = (do
        ran ← try_run_task depth fuel our hint
        let now = if ran.0 then 0 else spins + 1
        when (ltb spin_count now) (wait_on_other dummy our)
        count ← gets (λ s'. s'.num_threads)
        others ← others_running count our 0
        queued ← gets (λ s'. any_below count (λ t. not (t == our) && have_tasks s' t))
        wait_all_loop rounds dummy our ran.1 (if ltb spin_count now then 0 else now)
            (ran.0 || others || queued)) in
      if s.is_running && busy then again s else done tt s

  -- WaitforAll, on the thread `our`.
  unfoldable pub waitfor_all : ℕ → ℕ → Action
  unfolding wait_all_loop
  waitfor_all dummy our = do
    modify (λ s. record s { waitforall_called = true })
    modify (λ s. set_task dummy (record (s.tasks dummy) { thread_num = 0 }) s)
    wait_all_loop fuel dummy our (our + 1) 0 true
    modify (λ s. record s { waitforall_called = false })

  -- WaitforAllAndShutdown.
  unfoldable pub waitfor_all_and_shutdown : ℕ → ℕ → List (List ℕ) → Action
  unfolding waitfor_all stop_threads
  waitfor_all_and_shutdown dummy our leaving = do
    modify (λ s. record s { waitforall_called = true; shutdown_requested = true })
    started ← gets (λ s. s.have_threads)
    when started (waitfor_all dummy our >> stop_threads true leaving)

  -- The `while` of TaskingThreadFunction.
  unfoldable pub tasking_loop : ℕ → ℕ → ℕ → ℕ → Action
  unfolding try_run_task wait_for_new_tasks
  tasking_loop zero thread hint spins s = out_of_fuel
  tasking_loop (suc rounds) thread hint spins s =
      let again = (do
        ran ← try_run_task depth fuel thread hint
        let now = if ran.0 then 0 else spins + 1
        when (ltb spin_count now) (wait_for_new_tasks thread)
        tasking_loop rounds thread ran.1 now) in
      if s.is_running then again s else done tt s

  -- TaskingThreadFunction.
  unfoldable pub tasking_thread_function : ℕ → Action
  unfolding tasking_loop
  tasking_thread_function thread = do
    set_state thread running_state
    tasking_loop fuel thread (thread + 1) 0
    leave_thread thread

-- WaitForNewPinnedTasks.
unfoldable pub wait_for_new_pinned_tasks : ℕ → Action
unfolding any_below wait_pinned_semaphore
wait_for_new_pinned_tasks thread = do
  before ← gets (λ s. s.thread_state thread)
  set_state thread wait_new_pinned_tasks
  have ← gets (λ s. any_below priority_num (λ priority. not (is_nil (s.pinned priority thread))))
  when (not have) (
      record_event (suspend_start thread)
      >> wait_pinned_semaphore thread
      >> record_event (suspend_stop thread))
  set_state thread before
