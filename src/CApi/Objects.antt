-- ===== src/CApi/Objects.antt =====
-- src/TaskScheduler_c.cpp: the functions that create and delete objects, and those on the
-- configuration and on `pArgs`. The functions of tasks are named by their addresses.
pub mod Session
use enki_ts.Base.{not, ◌==◌, ℕ, List, [], ◌∷◌}
use enki_ts.Scheduler.{Task, Kind, task_set, pinned_task, completable, completion_action}
use enki_ts.Memory.{
  enki_task_scheduler, enki_task_set, enki_pinned_task, enki_completable, enki_dependency,
  enki_completion_action, CustomAllocator, ProfilerCallbacks, TaskSchedulerConfig, Block, Call,
  allocated, freed, Memory, Act, null, block, ◌>>=◌, construct, default_config, initialize,
  initialize_config, stop_threads, free_item, alloc_item, Item,
}

-- `enkiTaskSchedulerConfig`
pub record EnkiTaskSchedulerConfig : Type 0 where
  pub num_task_threads_to_create : ℕ
  pub num_external_task_threads : ℕ
  pub profiler_callbacks : ProfilerCallbacks
  pub custom_allocator : CustomAllocator

-- enkiGetTaskSchedulerConfig.
abbrev pub enki_get_task_scheduler_config : Memory → EnkiTaskSchedulerConfig
enki_get_task_scheduler_config m =
    let config = m.config in
    let callbacks = config.profiler_callbacks in
    let allocator = config.custom_allocator in
    record {
      num_external_task_threads = config.num_external_task_threads;
      num_task_threads_to_create = config.num_task_threads_to_create;
      profiler_callbacks = record {
        thread_start = callbacks.thread_start;
        thread_stop = callbacks.thread_stop;
        wait_for_new_task_suspend_start = callbacks.wait_for_new_task_suspend_start;
        wait_for_new_task_suspend_stop = callbacks.wait_for_new_task_suspend_stop;
        wait_for_task_complete_start = callbacks.wait_for_task_complete_start;
        wait_for_task_complete_stop = callbacks.wait_for_task_complete_stop;
        wait_for_task_complete_suspend_start = callbacks.wait_for_task_complete_suspend_start;
        wait_for_task_complete_suspend_stop = callbacks.wait_for_task_complete_suspend_stop;
      };
      custom_allocator = record {
        alloc = allocator.alloc;
        free = allocator.free;
        user_data = allocator.user_data;
      };
    }

-- The configuration that enkiInitTaskSchedulerWithConfig makes of its argument.
abbrev pub to_config : EnkiTaskSchedulerConfig → TaskSchedulerConfig
to_config c =
    let callbacks = c.profiler_callbacks in
    let allocator = c.custom_allocator in
    record {
      num_external_task_threads = c.num_external_task_threads;
      num_task_threads_to_create = c.num_task_threads_to_create;
      profiler_callbacks = record {
        thread_start = callbacks.thread_start;
        thread_stop = callbacks.thread_stop;
        wait_for_new_task_suspend_start = callbacks.wait_for_new_task_suspend_start;
        wait_for_new_task_suspend_stop = callbacks.wait_for_new_task_suspend_stop;
        wait_for_task_complete_start = callbacks.wait_for_task_complete_start;
        wait_for_task_complete_stop = callbacks.wait_for_task_complete_stop;
        wait_for_task_complete_suspend_start = callbacks.wait_for_task_complete_suspend_start;
        wait_for_task_complete_suspend_stop = callbacks.wait_for_task_complete_suspend_stop;
      };
      custom_allocator = record {
        alloc = allocator.alloc;
        free = allocator.free;
        user_data = allocator.user_data;
      };
    }

-- The members that ICompletable, ITaskSet and IPinnedTask start with.
abbrev pub new_task : Kind → ℕ → Task
new_task kind thread_num = record {
  kind = kind;
  priority = 0;
  running_count = 0;
  dependencies_completed_count = 0;
  dependencies_count = 0;
  waiting_for_task_count = 0;
  dependents = [];
  set_size = 1;
  min_range = 1;
  range_to_run = 1;
  thread_num = thread_num;
}

-- `enkiTaskSet` and `enkiPinnedTask`.
pub record EnkiTask : Type 0 where
  pub base : Task
  pub task_fun : ℕ
  pub args : ℕ

-- `enkiCompletionAction`, without its dependency.
pub record EnkiCompletionAction : Type 0 where
  pub base : Task
  pub pre_complete : ℕ
  pub post_complete : ℕ
  pub args_pre_complete : ℕ
  pub args_post_complete : ℕ

-- enkiSetArgsTaskSet and enkiSetArgsPinnedTask.
abbrev enki_set_args_task_set : ℕ → EnkiTask → EnkiTask
enki_set_args_task_set args t = record t { args = args }

abbrev enki_set_args_pinned_task : ℕ → EnkiTask → EnkiTask
enki_set_args_pinned_task args t = record t { args = args }

module _ (place : CustomAllocator → List Call → ℕ → ℕ → ℕ) (size_of align_of : Item → ℕ)
    (default : CustomAllocator) (hardware : ℕ) where
  -- enkiNewTaskScheduler and enkiNewTaskSchedulerWithCustomAllocator, after the calls in `log`: the
  -- address, and the scheduler.
  unfoldable pub enki_new_task_scheduler : List Call → ℕ × Memory
  enki_new_task_scheduler log =
      let size = size_of enki_task_scheduler in
      let p = place default log (align_of enki_task_scheduler) size in
      let calls = allocated (block default p size) (align_of enki_task_scheduler) ∷ log in
      (p, construct (default_config default hardware) calls)

  unfoldable pub enki_new_task_scheduler_with_custom_allocator :
      CustomAllocator → List Call → ℕ × Memory
  enki_new_task_scheduler_with_custom_allocator custom log =
      let size = size_of enki_task_scheduler in
      let p = place custom log (align_of enki_task_scheduler) size in
      let calls = allocated (block custom p size) (align_of enki_task_scheduler) ∷ log in
      let m = construct (default_config default hardware) calls in
      (p, record m { config = record m.config { custom_allocator = custom } })

  -- enkiInitTaskSchedulerNumThreads, enkiInitTaskScheduler, where `concurrency` is
  -- std::thread::hardware_concurrency(), and enkiInitTaskSchedulerWithConfig: their memory.
  abbrev pub enki_init_num_threads : ℕ → Act (Unit {0})
  enki_init_num_threads n = initialize place size_of align_of n

  abbrev pub enki_init : ℕ → Act (Unit {0})
  enki_init concurrency = initialize place size_of align_of concurrency

  abbrev pub enki_init_with_config : EnkiTaskSchedulerConfig → Act (Unit {0})
  enki_init_with_config c = initialize_config place size_of align_of (to_config c)

  -- enkiDeleteTaskScheduler of the scheduler at `p`, once its threads have ended: all calls up to then.
  unfoldable pub enki_delete_task_scheduler : ℕ → Memory → List Call
  enki_delete_task_scheduler p m =
      let allocator = m.config.custom_allocator in
      let m' = (stop_threads place size_of align_of m).1 in
      freed (block allocator p (size_of enki_task_scheduler)) ∷ m'.log

  -- enkiCreateTaskSet and enkiDeleteTaskSet; what the destructor does to dependencies is in
  -- `Dependency.antt`.
  abbrev pub enki_create_task_set : ℕ → Act (ℕ × EnkiTask)
  enki_create_task_set fun = do
    p ← alloc_item place size_of align_of enki_task_set
    (λ m. ((p, record { base = new_task task_set 0; task_fun = fun; args = null }), m))

  abbrev pub enki_delete_task_set : ℕ → Act (Unit {0})
  enki_delete_task_set p = free_item place size_of align_of enki_task_set p

  -- enkiCreatePinnedTask and enkiDeletePinnedTask.
  abbrev pub enki_create_pinned_task : ℕ → ℕ → Act (ℕ × EnkiTask)
  enki_create_pinned_task fun thread_num = do
    p ← alloc_item place size_of align_of enki_pinned_task
    (λ m. ((p, record { base = new_task pinned_task thread_num; task_fun = fun; args = null }), m))

  abbrev pub enki_delete_pinned_task : ℕ → Act (Unit {0})
  enki_delete_pinned_task p = free_item place size_of align_of enki_pinned_task p

  -- enkiCreateCompletable and enkiDeleteCompletable.
  abbrev pub enki_create_completable : Act (ℕ × Task)
  enki_create_completable = do
    p ← alloc_item place size_of align_of enki_completable
    (λ m. ((p, new_task completable 0), m))

  abbrev pub enki_delete_completable : ℕ → Act (Unit {0})
  enki_delete_completable p = free_item place size_of align_of enki_completable p

  -- enkiCreateDependency, whose members are all null, and enkiDeleteDependency.
  abbrev pub enki_create_dependency : Act ℕ
  enki_create_dependency = alloc_item place size_of align_of enki_dependency

  abbrev pub enki_delete_dependency : ℕ → Act (Unit {0})
  enki_delete_dependency p = free_item place size_of align_of enki_dependency p

  -- enkiCreateCompletionAction and enkiDeleteCompletionAction.
  abbrev pub enki_create_completion_action : ℕ → ℕ → Act (ℕ × EnkiCompletionAction)
  enki_create_completion_action pre post = do
    p ← alloc_item place size_of align_of enki_completion_action
    (λ m. (
      (
        p,
        record {
          base = new_task (completion_action (not (pre == null)) (not (post == null))) 0;
          pre_complete = pre;
          post_complete = post;
          args_pre_complete = null;
          args_post_complete = null;
        },
      ),
      m,
    ))

  abbrev pub enki_delete_completion_action : ℕ → Act (Unit {0})
  enki_delete_completion_action p = free_item place size_of align_of enki_completion_action p
