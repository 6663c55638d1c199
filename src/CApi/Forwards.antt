-- ===== src/CApi/Forwards.antt =====
-- src/TaskScheduler_c.cpp: the functions that pass their arguments on to the scheduler or to a task.
-- The thread that calls is the argument `thread`; the return values are those of C.
use enki_ts.Base.{ℕ, ◌-◌, Bool, true, false, Option, none, some, List}
use enki_ts.Scheduler.{Task, Config, Scheduler, pure, Command, Action, ◌>>=◌, priority_num}
use enki_ts.Scheduler.Wake.{is_complete}
use enki_ts.Scheduler.Running.{run_pinned_tasks}
use enki_ts.Scheduler.Threads.{
  first_external, initialize, initialize_config, register_external_task_thread,
  register_external_task_thread_num, deregister_external_task_thread,
}
use enki_ts.Scheduler.Waiting.{
  add_task_set_to_pipe, add_pinned_task, waitfor_task, waitfor_all, waitfor_all_and_shutdown,
  wait_for_new_pinned_tasks,
}
use enki_ts.Dependency.{Store, set_dependency}
use enki_ts.CApi.{to_int}

-- `enkiParamsPinnedTask`
pub record ParamsPinnedTask : Type 0 where
  pub priority : ℕ

-- enkiSetPriorityTaskSet, enkiSetSetSizeTaskSet, enkiSetMinRangeTaskSet.
abbrev enki_set_priority_task_set : ℕ → Task → Task
enki_set_priority_task_set priority t = record t { priority = priority }

abbrev enki_set_set_size_task_set : ℕ → Task → Task
enki_set_set_size_task_set set_size t = record t { set_size = set_size }

abbrev enki_set_min_range_task_set : ℕ → Task → Task
enki_set_min_range_task_set min_range t = record t { min_range = min_range }

-- enkiGetParamsPinnedTask, enkiSetParamsPinnedTask, enkiSetPriorityPinnedTask.
abbrev enki_get_params_pinned_task : Task → ParamsPinnedTask
enki_get_params_pinned_task t = record { priority = t.priority }

abbrev enki_set_params_pinned_task : ParamsPinnedTask → Task → Task
enki_set_params_pinned_task p t = record t { priority = p.priority }

abbrev enki_set_priority_pinned_task : ℕ → Task → Task
enki_set_priority_pinned_task priority t = record t { priority = priority }

-- enkiIsPinnedTaskComplete.
abbrev enki_is_pinned_task_complete : ℕ → Scheduler → ℕ
enki_is_pinned_task_complete t s = to_int (is_complete s t)

-- enkiGetNumFirstExternalTaskThread, enkiGetNumTaskThreads.
abbrev enki_get_num_first_external_task_thread : ℕ
enki_get_num_first_external_task_thread = first_external

abbrev enki_get_num_task_threads : Scheduler → ℕ
enki_get_num_task_threads s = s.num_threads

-- enkiInitTaskSchedulerNumThreads; enkiInitTaskSchedulerWithConfig, without its callbacks and
-- allocator.
abbrev enki_init_task_scheduler_num_threads : ℕ → List (List ℕ) → ℕ → Action
unfolding initialize
enki_init_task_scheduler_num_threads hardware leaving n = initialize hardware leaving n

abbrev enki_init_task_scheduler_with_config : ℕ → List (List ℕ) → Config → Action
unfolding initialize_config
enki_init_task_scheduler_with_config hardware leaving c = initialize_config hardware leaving c

module _ (depth fuel : ℕ) where
  -- enkiAddTaskSet, enkiAddPinnedTask, enkiAddPinnedTaskArgs, enkiRunPinnedTasks.
  abbrev enki_add_task_set : ℕ → ℕ → Action
  unfolding add_task_set_to_pipe
  enki_add_task_set t thread = add_task_set_to_pipe depth fuel t thread

  abbrev enki_add_pinned_task : ℕ → Action
  unfolding add_pinned_task
  enki_add_pinned_task t = add_pinned_task depth fuel t

  abbrev enki_add_pinned_task_args : ℕ → Action
  unfolding add_pinned_task
  enki_add_pinned_task_args t = add_pinned_task depth fuel t

  abbrev enki_run_pinned_tasks : ℕ → Action
  unfolding run_pinned_tasks
  enki_run_pinned_tasks thread = run_pinned_tasks depth fuel thread

  -- enkiWaitForPinnedTask and enkiWaitForCompletable, with the default of WaitforTask, and
  -- enkiWaitForPinnedTaskPriority and enkiWaitForCompletablePriority.
  abbrev enki_wait_for_pinned_task : ℕ → ℕ → Action
  unfolding waitfor_task
  enki_wait_for_pinned_task t thread = waitfor_task depth fuel (some t) thread (priority_num - 1)

  abbrev enki_wait_for_pinned_task_priority : ℕ → ℕ → ℕ → Action
  unfolding waitfor_task
  enki_wait_for_pinned_task_priority t max_priority thread =
      waitfor_task depth fuel (some t) thread max_priority

  abbrev enki_wait_for_completable : ℕ → ℕ → Action
  unfolding waitfor_task
  enki_wait_for_completable t thread = waitfor_task depth fuel (some t) thread (priority_num - 1)

  abbrev enki_wait_for_completable_priority : ℕ → ℕ → ℕ → Action
  unfolding waitfor_task
  enki_wait_for_completable_priority t max_priority thread =
      waitfor_task depth fuel (some t) thread max_priority

  -- enkiWaitForAll and enkiWaitforAllAndShutdown; `dummy` is the address of WaitforAll's own task.
  abbrev enki_wait_for_all : ℕ → ℕ → Action
  unfolding waitfor_all
  enki_wait_for_all dummy thread = waitfor_all depth fuel dummy thread

  abbrev enki_waitfor_all_and_shutdown : ℕ → ℕ → List (List ℕ) → Action
  unfolding waitfor_all_and_shutdown
  enki_waitfor_all_and_shutdown dummy thread leaving =
      waitfor_all_and_shutdown depth fuel dummy thread leaving

-- enkiWaitForNewPinnedTasks.
abbrev enki_wait_for_new_pinned_tasks : ℕ → Action
unfolding wait_for_new_pinned_tasks
enki_wait_for_new_pinned_tasks thread = wait_for_new_pinned_tasks thread

-- enkiRegisterExternalTaskThread, enkiRegisterExternalTaskThreadNum, enkiDeRegisterExternalTaskThread.
abbrev is_some : Option ℕ → Bool
is_some none = false
is_some (some _) = true

abbrev enki_register_external_task_thread : ℕ → Command ℕ
unfolding register_external_task_thread
enki_register_external_task_thread rounds = do
  registered ← register_external_task_thread rounds
  pure (to_int (is_some registered))

abbrev enki_register_external_task_thread_num : ℕ → Command ℕ
unfolding register_external_task_thread_num
enki_register_external_task_thread_num thread = do
  registered ← register_external_task_thread_num thread
  pure (to_int registered)

abbrev enki_deregister_external_task_thread : ℕ → Command ℕ
unfolding deregister_external_task_thread
enki_deregister_external_task_thread thread = deregister_external_task_thread thread

-- enkiSetDependency: `t` is the address of the task to run on completion.
abbrev enki_set_dependency : ℕ → ℕ → ℕ → ℕ → Store → Option Store
unfolding set_dependency
enki_set_dependency fuel dependency dependency_task t s =
    set_dependency fuel dependency dependency_task t s
