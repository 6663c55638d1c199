-- ===== src/Tests/Waiting.antt =====
-- Waiting and adding from outside, on the idle scheduler of `Tests/Adding.antt`.
use enki_ts.Base.{◌≡◌, ◌↔◌, false, refl, [], ◌∷◌, arith, sum_below, list_sum, update}
use enki_ts.Scheduler.{Scheduler, blocked, wait_new_pinned_tasks}
use enki_ts.Scheduler.Work.{pieces}
use enki_ts.Scheduler.Wake.{have_tasks, wait_for_new_tasks}
use enki_ts.Scheduler.Wake.Suspending.{
  Idle, Resumed, have_tasks-Idle, wait_for_new_tasks-Idle, wait_for_new_tasks-Resumed,
}
use enki_ts.Scheduler.Add.{add_pinned_task_int}
use enki_ts.Scheduler.Add.Loop.{Ends}
use enki_ts.Scheduler.Add.Launch.{Launched}
use enki_ts.Scheduler.Waiting.{add_task_set_to_pipe, others_running}
use enki_ts.Scheduler.Waiting.Others.{Looked, others_running-Looked}
use enki_ts.Scheduler.Waiting.Adding.{add_task_set_to_pipe-Launched}
use enki_ts.Scheduler.Waiting.Pinned.{Wakes, add_pinned_task_int-Wakes}
use enki_ts.Tests.Adding.{ten, whole, idle_scheduler}

idle_blocks : wait_for_new_tasks 1 idle_scheduler ≡ blocked
unfolding wait_for_new_tasks
idle_blocks = refl

wait_for_new_tasks-Idle_example : Idle idle_scheduler 1
wait_for_new_tasks-Idle_example = wait_for_new_tasks-Idle 1 idle_scheduler idle_blocks

-- The piece `whole` waits in the pipes of all threads.
abbrev busy_scheduler : Scheduler
busy_scheduler = record idle_scheduler { pipes = λ priority thread. whole ∷ [] }

wait_for_new_tasks-Resumed_example :
    Ends (λ _ s'. Resumed busy_scheduler s') (wait_for_new_tasks 1 busy_scheduler)
wait_for_new_tasks-Resumed_example =
    wait_for_new_tasks-Resumed 1 2 0 busy_scheduler (omega arith) (omega arith) (λ e. ground arith)

-- The scheduler with tasks that are complete.
abbrev complete_tasks : Scheduler
complete_tasks = record idle_scheduler { tasks = λ t. record ten { running_count = 0 } }

none_queued : pieces 4 complete_tasks ≡ 0
unfolding sum_below list_sum
none_queued = refl

add_task_set_to_pipe-Launched_example :
    Ends (λ _ s'. Launched 4 complete_tasks s') (add_task_set_to_pipe 1 20 4 0 complete_tasks)
add_task_set_to_pipe-Launched_example =
    add_task_set_to_pipe-Launched 0 20 4 0 complete_tasks refl refl (omega arith) (omega arith)
      (omega arith) none_queued (omega arith) (omega arith)

add_pinned_task_int-Wakes_example :
    Ends (λ _ s'. Wakes 0 idle_scheduler s') (add_pinned_task_int 4 idle_scheduler)
add_pinned_task_int-Wakes_example = add_pinned_task_int-Wakes 4 idle_scheduler (omega arith)

have_tasks-Idle_example : (have_tasks idle_scheduler 1 ≡ false) ↔ Idle idle_scheduler 1
have_tasks-Idle_example = have_tasks-Idle idle_scheduler 1

-- Thread 1 waits for pinned tasks.
abbrev one_waits : Scheduler
one_waits = record idle_scheduler {
  thread_state = update idle_scheduler.thread_state 1 wait_new_pinned_tasks;
}

others_running-Looked_example :
    Ends (λ found s'. Looked 0 2 0 one_waits found s') (others_running 1 20 2 0 0 one_waits)
others_running-Looked_example = others_running-Looked 1 20 0 2 0 one_waits
