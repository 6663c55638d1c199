-- ===== src/Scheduler/Add.antt =====
-- src/TaskScheduler.cpp: adding task sets and pinned tasks, completion, and the dependents that it
-- starts. ExecuteRange and Execute are user code: a call is an event of the log.
pub mod Loop
pub mod Tiling
pub mod Count
pub mod Launch
pub mod Joining
pub mod Onward
pub mod Dependents
pub mod JoinAll
pub mod Bounds
use enki_ts.Base.{
  ℕ, zero, suc, ◌+◌, ◌-◌, ◌/◌, ◌%◌, max, Bool, true, false, ◌&&◌, not, Option, List, [], ◌∷◌, ◌++◌,
  ltb, ◌==◌, if◌then◌else◌, update,
}
use enki_ts.Pipe.Deque.{put_front}
use enki_ts.Scheduler.{
  Partition, SubTaskSet, Kind, task_set, pinned_task, completable, completion_action, Task,
  ThreadState, running_state, wait_new_pinned_tasks, Event, executed, executed_pinned, completed,
  pre_complete, post_complete, Scheduler, Run, done, out_of_fuel, Command, Action, pure, and_then,
  ◌>>=◌, ◌>>◌, gets, modify, skip, when, record_event, set_task, fetch_add_running,
  fetch_sub_running, add32, sub32, task_start_count, max_num_initial_partitions, pipe_size_log2,
}
use enki_ts.Pipe.{pipe_size}
use enki_ts.Scheduler.Split.{split_task}
use enki_ts.Scheduler.Wake.{
  wake_threads_for_task_completion, wake_threads_for_new_tasks, set_state, signal_pinned,
}

-- A write to the pipe of one priority and thread.
abbrev pub set_pipe : ℕ → ℕ → List SubTaskSet → Scheduler → Scheduler
set_pipe priority thread q s = record s {
  pipes = update s.pipes priority (update (s.pipes priority) thread q);
}

abbrev pub set_pinned : ℕ → ℕ → List ℕ → Scheduler → Scheduler
set_pinned priority thread q s = record s {
  pinned = update s.pinned priority (update (s.pinned priority) thread q);
}

-- WriterTryWriteFront on the pipe of the task's priority.
abbrev pub try_write_front : ℕ → SubTaskSet → Command Bool
try_write_front thread sub s =
    let priority = (s.tasks sub.task).priority in
    let ((added, _), q) = put_front (pipe_size pipe_size_log2) sub (s.pipes priority thread) in
    done added (set_pipe priority thread q s)

-- The range to run when the pipe is full: at most m_RangeToRun indexes of `add`; `rest` is the new
-- `subTask_`.
abbrev pub cut_to_run : ℕ → SubTaskSet → SubTaskSet → SubTaskSet × SubTaskSet
cut_to_run range_to_run add rest =
    let p = add.partition in
    let r = rest.partition in
    let middle = add32 p.start range_to_run in
    if ltb range_to_run (sub32 p.end p.start)
    then (
      record add { partition = record p { end = middle } },
      record rest { partition = record r { start = middle } },
    )
    else (add, rest)

-- The loop of SplitAndAddTask; `added` is numAdded and `since` numNewTasksSinceNotification.
unfoldable pub add_loop : ℕ → ℕ → SubTaskSet → ℕ → ℕ → ℕ → Command ℕ
unfolding split_task wake_threads_for_new_tasks
add_loop zero thread sub range added since s = out_of_fuel
add_loop (suc fuel) thread sub range added since s =
    let (add, rest) = split_task sub range in
    let again = (do
      written ← try_write_front thread add
      if written then add_loop fuel thread rest range (added + 1) (since + 1) else (do
        when (ltb 1 (since + 1)) wake_threads_for_new_tasks
        task ← gets (λ s'. s'.tasks add.task)
        let cut = cut_to_run task.range_to_run add rest
        record_event (executed cut.0.task cut.0.partition thread)
        add_loop fuel thread cut.1 range added 0)) in
    if sub.partition.start == sub.partition.end then done added s else again s

-- SplitAndAddTask. `complete` is TaskComplete, with its arguments `bWakeThreads_` and `threadNum_`.
unfoldable pub split_and_add_task : (ℕ → Bool → ℕ → Action) → ℕ → ℕ → SubTaskSet → ℕ → Action
split_and_add_task complete fuel thread sub range = do
  let upper = 2 + sub32 sub.partition.end sub.partition.start / range
  _ ← fetch_add_running sub.task upper
  added ← add_loop fuel thread sub range 0 0
  let to_remove = sub32 upper added
  before ← fetch_sub_running sub.task to_remove
  when (add32 (sub32 to_remove 1) task_start_count == before) (complete sub.task false thread)
  wake_threads_for_new_tasks

-- AddTaskSetToPipeInt.
unfoldable pub add_task_set_to_pipe_int : (ℕ → Bool → ℕ → Action) → ℕ → ℕ → ℕ → Action
unfolding split_and_add_task
add_task_set_to_pipe_int complete fuel t thread = do
  before ← gets (λ s. s.thread_state thread)
  set_state thread running_state
  task ← gets (λ s. s.tasks t)
  modify (λ s.
      set_task t
        (record task { range_to_run = max (task.set_size / s.num_partitions) task.min_range }) s)
  initial ← gets (λ s. s.num_initial_partitions)
  split_and_add_task complete fuel thread
      (record { task = t; partition = record { start = 0; end = task.set_size } })
      (max (task.set_size / initial) task.min_range)
  count ← fetch_sub_running t 1
  when (task_start_count == count) (complete t true thread)
  set_state thread before

abbrev pub is_waiting_for_pinned : ThreadState → Bool
is_waiting_for_pinned wait_new_pinned_tasks = true
is_waiting_for_pinned _ = false

-- AddPinnedTaskInt.
unfoldable pub add_pinned_task_int : ℕ → Action
unfolding wake_threads_for_new_tasks
add_pinned_task_int t = do
  task ← gets (λ s. s.tasks t)
  modify (λ s.
      set_pinned task.priority task.thread_num (s.pinned task.priority task.thread_num ++ t ∷ []) s)
  st ← gets (λ s. s.thread_state task.thread_num)
  if is_waiting_for_pinned st then signal_pinned task.thread_num else wake_threads_for_new_tasks

-- `OnDependenciesComplete` of each class, ICompletable's, ITaskSet's, IPinnedTask's and
-- enkiCompletionAction's.
unfoldable pub on_dependencies_complete : (ℕ → Bool → ℕ → Action) → ℕ → Kind → ℕ → ℕ → Action
unfolding add_task_set_to_pipe_int add_pinned_task_int
on_dependencies_complete complete fuel completable t thread = do
  _ ← fetch_sub_running t 1
  complete t true thread
on_dependencies_complete complete fuel task_set t thread =
    add_task_set_to_pipe_int complete fuel t thread
on_dependencies_complete complete fuel pinned_task t thread = add_pinned_task_int t
on_dependencies_complete complete fuel (completion_action pre post) t thread = do
  when pre (record_event (pre_complete t thread))
  _ ← fetch_sub_running t 1
  complete t true thread
  when post (record_event (post_complete t thread))

-- The loop of TaskComplete over the dependents; `start` is OnDependenciesComplete.
unfoldable pub run_dependents : (ℕ → ℕ → Action) → List ℕ → ℕ → Action
run_dependents start [] thread = skip
run_dependents start (d ∷ ds) thread = do
  task ← gets (λ s. s.tasks d)
  modify (
      set_task d
        (record task { dependencies_completed_count = add32 task.dependencies_completed_count 1 }))
  when (task.dependencies_count == add32 task.dependencies_completed_count 1) (do
    modify (λ s. set_task d (record (s.tasks d) { dependencies_completed_count = 0 }) s)
    start d thread)
  run_dependents start ds thread

-- TaskComplete. `depth` bounds the chain of tasks that one completion starts, `fuel` each loop.
unfoldable pub task_complete : ℕ → ℕ → ℕ → Bool → ℕ → Action
unfolding wake_threads_for_task_completion
task_complete zero fuel t wake thread s = out_of_fuel
task_complete (suc depth) fuel t wake thread s =
    let start = λ (d th : ℕ) (s' : Scheduler).
      on_dependencies_complete (task_complete depth fuel) fuel (s'.tasks d).kind d th s' in
    let task = s.tasks t in
    let body = (do
      modify (λ s'. set_task t (record (s'.tasks t) { running_count = 0 }) s')
      record_event (completed t)
      when (wake && not (task.waiting_for_task_count == 0)) wake_threads_for_task_completion
      run_dependents start task.dependents thread) in
    body s
