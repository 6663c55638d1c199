-- ===== src/CApi.antt =====
-- src/TaskScheduler_c.cpp: the functions of the C interface that do more than pass their arguments
-- on. `pArgs`, which only the user's functions read, is not kept here.
pub mod Launching
pub mod Forwards
pub mod Objects
use enki_ts.Base.{ℕ, ◌-◌, not, Bool, true, false, Option, some, none, if◌then◌else◌, ◌==◌, update}
use enki_ts.Scheduler.{
  Task, Config, Scheduler, done, Command, Action, ◌>>=◌, ◌>>◌, modify, set_task, priority_num,
}
use enki_ts.Scheduler.Wake.{is_complete}
use enki_ts.Scheduler.Waiting.{add_task_set_to_pipe, add_pinned_task, waitfor_task}
use enki_ts.Dependency.{Store, set_dependency}

-- `enkiParamsTaskSet`
pub record ParamsTaskSet : Type 0 where
  pub set_size : ℕ
  pub min_range : ℕ
  pub priority : ℕ

abbrev pub to_int : Bool → ℕ
to_int b = if b then 1 else 0

-- enkiGetIsRunning, enkiGetIsShutdownRequested and enkiGetIsWaitforAllCalled.
pub get_is_running : Scheduler → ℕ
get_is_running s = to_int (not s.shutdown_requested)

pub get_is_shutdown_requested : Scheduler → ℕ
get_is_shutdown_requested s = to_int s.shutdown_requested

pub get_is_waitforall_called : Scheduler → ℕ
get_is_waitforall_called s = to_int s.waitforall_called

-- enkiGetParamsTaskSet and enkiSetParamsTaskSet.
pub get_params_task_set : Task → ParamsTaskSet
get_params_task_set t = record {
  set_size = t.set_size;
  min_range = t.min_range;
  priority = t.priority;
}

pub set_params_task_set : ParamsTaskSet → Task → Task
set_params_task_set p t = record t {
  set_size = p.set_size;
  min_range = p.min_range;
  priority = p.priority;
}

-- enkiIsTaskSetComplete.
pub is_task_set_complete : ℕ → Scheduler → ℕ
is_task_set_complete t s = to_int (is_complete s t)

module _ (depth fuel : ℕ) where
  -- enkiAddTaskSetArgs and enkiAddTaskSetMinRange, by the thread `thread`.
  unfoldable pub add_task_set_args : ℕ → ℕ → ℕ → Action
  unfolding add_task_set_to_pipe
  add_task_set_args t set_size thread =
      modify (λ s. set_task t (record (s.tasks t) { set_size = set_size }) s)
      >> add_task_set_to_pipe depth fuel t thread

  unfoldable pub add_task_set_min_range : ℕ → ℕ → ℕ → ℕ → Action
  unfolding add_task_set_to_pipe
  add_task_set_min_range t set_size min_range thread =
      modify (λ s. set_task t (record (s.tasks t) { set_size = set_size; min_range = min_range }) s)
      >> add_task_set_to_pipe depth fuel t thread

  -- enkiWaitForTaskSet, with the default of WaitforTask, and enkiWaitForTaskSetPriority.
  wait_for_task_set : ℕ → ℕ → Action
  unfolding waitfor_task
  wait_for_task_set t thread = waitfor_task depth fuel (some t) thread (priority_num - 1)

  wait_for_task_set_priority : ℕ → ℕ → ℕ → Action
  unfolding waitfor_task
  wait_for_task_set_priority t max_priority thread =
      waitfor_task depth fuel (some t) thread max_priority

-- `enkiCompletionAction`: the address of its dependency, and its arguments.
pub record CompletionAction : Type 0 where
  pub address : ℕ
  pub dependency : ℕ
  pub args_pre_complete : ℕ
  pub args_post_complete : ℕ

-- `enkiParamsCompletionAction`
pub record ParamsCompletionAction : Type 0 where
  pub args_pre_complete : ℕ
  pub args_post_complete : ℕ
  pub dependency : ℕ

-- enkiGetParamsCompletionAction and enkiSetParamsCompletionAction.
pub get_params_completion_action : CompletionAction → Store → ParamsCompletionAction
get_params_completion_action a s = record {
  args_pre_complete = a.args_pre_complete;
  args_post_complete = a.args_post_complete;
  dependency = s.dependency_task a.dependency;
}

pub set_params_completion_action :
    ℕ → ParamsCompletionAction → CompletionAction → Store → Option (CompletionAction × Store)
unfolding set_dependency
set_params_completion_action fuel p a s =
    elim (set_dependency fuel a.dependency p.dependency a.address s) [
      | none ↦ none
      | some s' ↦ some (
        record a {
          args_pre_complete = p.args_pre_complete;
          args_post_complete = p.args_post_complete;
        },
        s',
      )
    ]
