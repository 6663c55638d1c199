-- ===== src/Scheduler/Wake.antt =====
-- src/TaskScheduler.cpp: waking and suspending threads. A semaphore is its count; a thread that
-- waits on a count of 0 is blocked.
pub mod Suspending
use enki_ts.Base.{
  ℕ, ◌+◌, ◌-◌, ◌%◌, Bool, true, false, ◌||◌, ◌&&◌, not, List, [], ◌∷◌, ℤ, pos, negsuc, pos_part,
  ◌+ℤ◌, ltb_ℤ, leb, ◌==◌, if◌then◌else◌, update, any_below,
}
use enki_ts.Scheduler.{
  ThreadState, wait_task_completion, wait_new_tasks, Waiters, suspend_start, suspend_stop,
  Scheduler, done, blocked, Command, Action, pure, ◌>>=◌, ◌>>◌, gets, modify, when, record_event,
  set_task, priority_num, task_almost_complete_count, add32, sub32,
}

-- WakeThreadsForTaskCompletion: the count goes to the semaphore, if there is any. Nothing else runs
-- between the load and the compare and exchange, so the loop ends in its first round.
unfoldable pub wake_task_completion : Waiters → Waiters
wake_task_completion v =
    if ltb_ℤ (pos 0) v.task_completion
    then record v {
      task_completion = pos 0;
      task_complete_semaphore = v.task_complete_semaphore + pos_part v.task_completion;
    }
    else v

-- WakeThreadsForNewTasks.
unfoldable pub wake_new_tasks : Waiters → Waiters
unfolding wake_task_completion
wake_new_tasks v = wake_task_completion (
    if ltb_ℤ (pos 0) v.new_tasks
    then record v {
      new_tasks = pos 0;
      new_task_semaphore = v.new_task_semaphore + pos_part v.new_tasks;
    }
    else v)

unfoldable pub wake_threads_for_task_completion : Action
wake_threads_for_task_completion =
    modify (λ s. record s { waiters = wake_task_completion s.waiters })

unfoldable pub wake_threads_for_new_tasks : Action
wake_threads_for_new_tasks = modify (λ s. record s { waiters = wake_new_tasks s.waiters })

abbrev pub is_nil : {A : Type 0} → List A → Bool
is_nil [] = true
is_nil (_ ∷ _) = false

-- HaveTasks.
unfoldable pub have_tasks : Scheduler → ℕ → Bool
unfolding any_below
have_tasks s thread = any_below priority_num (λ priority.
    any_below s.num_threads (λ t. not (is_nil (s.pipes priority t)))
    || not (is_nil (s.pinned priority thread)))

abbrev pub is_suspended : ThreadState → Bool
is_suspended wait_new_tasks = true
is_suspended wait_task_completion = true
is_suspended _ = false

-- The test of WakeSuspendedThreadsWithPinnedTasks on the thread `t + 1` places after `thread`.
unfoldable pub suspended_with_pinned : Scheduler → ℕ → ℕ → Bool
unfolding any_below
suspended_with_pinned s thread t =
    let other = (thread + (t + 1)) % s.num_threads in
    is_suspended (s.thread_state other)
    && any_below priority_num (λ priority. not (is_nil (s.pinned priority other)))

-- WakeSuspendedThreadsWithPinnedTasks.
unfoldable pub wake_suspended_threads_with_pinned_tasks : ℕ → Command Bool
unfolding suspended_with_pinned wake_threads_for_new_tasks
wake_suspended_threads_with_pinned_tasks thread = do
  found ← gets (λ s. any_below (s.num_threads - 1) (suspended_with_pinned s thread))
  when found wake_threads_for_new_tasks
  pure found

abbrev pub set_state : ℕ → ThreadState → Action
set_state thread st = modify (λ s. record s { thread_state = update s.thread_state thread st })

abbrev pub add_new_tasks_waiter : ℤ → Action
add_new_tasks_waiter n =
    modify
      (λ s. let v = s.waiters in record s { waiters = record v { new_tasks = v.new_tasks +ℤ n } })

abbrev pub add_completion_waiter : ℤ → Action
add_completion_waiter n = modify (λ s.
    let v = s.waiters in
    record s { waiters = record v { task_completion = v.task_completion +ℤ n } })

-- SemaphoreWait on each of the semaphores.
unfoldable pub wait_new_task_semaphore : Action
wait_new_task_semaphore s =
    let v = s.waiters in
    if v.new_task_semaphore == 0
    then blocked
    else done tt (record s { waiters = record v { new_task_semaphore = v.new_task_semaphore - 1 } })

unfoldable pub wait_task_complete_semaphore : Action
wait_task_complete_semaphore s =
    let v = s.waiters in
    if v.task_complete_semaphore == 0
    then blocked
    else done tt (record s {
      waiters = record v { task_complete_semaphore = v.task_complete_semaphore - 1 };
    })

unfoldable pub wait_pinned_semaphore : ℕ → Action
wait_pinned_semaphore thread s =
    let v = s.waiters in
    if v.pinned_semaphore thread == 0
    then blocked
    else done tt (record s {
      waiters = record v {
        pinned_semaphore = update v.pinned_semaphore thread (v.pinned_semaphore thread - 1);
      };
    })

-- SemaphoreSignal on the semaphore of a thread that waits for pinned tasks.
abbrev pub signal_pinned : ℕ → Action
signal_pinned thread = modify (λ s.
    let v = s.waiters in
    record s {
      waiters = record v {
        pinned_semaphore = update v.pinned_semaphore thread (v.pinned_semaphore thread + 1);
      };
    })

-- `GetIsComplete()`.
abbrev pub is_complete : Scheduler → ℕ → Bool
is_complete s t = (s.tasks t).running_count == 0

-- WaitForNewTasks.
unfoldable pub wait_for_new_tasks : ℕ → Action
unfolding wake_suspended_threads_with_pinned_tasks have_tasks wait_new_task_semaphore
wait_for_new_tasks thread = do
  woken ← wake_suspended_threads_with_pinned_tasks thread
  when (not woken) (do
    add_new_tasks_waiter (pos 1)
    before ← gets (λ s. s.thread_state thread)
    set_state thread wait_new_tasks
    busy ← gets (λ s. have_tasks s thread)
    if busy
        then add_new_tasks_waiter (negsuc 0)
        else (record_event (suspend_start thread)
            >> wait_new_task_semaphore
            >> record_event (suspend_stop thread))
    set_state thread before)

abbrev pub add_waiting_for_task : ℕ → (ℕ → ℕ) → Action
add_waiting_for_task t f = modify (λ s.
    set_task t
      (record (s.tasks t) { waiting_for_task_count = f (s.tasks t).waiting_for_task_count }) s)

-- WaitForTaskCompletion.
unfoldable pub wait_for_task_completion : ℕ → ℕ → Action
unfolding wake_suspended_threads_with_pinned_tasks have_tasks wait_task_complete_semaphore
    wake_threads_for_task_completion
wait_for_task_completion t thread = do
  woken ← wake_suspended_threads_with_pinned_tasks thread
  when (not woken) (do
    add_completion_waiter (pos 1)
    add_waiting_for_task t (λ n. add32 n 1)
    before ← gets (λ s. s.thread_state thread)
    set_state thread wait_task_completion
    busy ←
        gets (λ s. leb (s.tasks t).running_count task_almost_complete_count || have_tasks s thread)
    if busy then add_completion_waiter (negsuc 0) else (do
      record_event (suspend_start thread)
      wait_task_complete_semaphore
      finished ← gets (λ s. is_complete s t)
      when (not finished) wake_threads_for_task_completion
      record_event (suspend_stop thread))
    set_state thread before
    add_waiting_for_task t (λ n. sub32 n 1))
