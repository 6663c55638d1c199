-- ===== src/Tests/Threads.antt =====
-- Starting a scheduler with two threads of its own and two of the user, and registering one.
use enki_ts.Base.{◌≡◌, ◌+ℤ◌, refl, arith, pos, sum_below}
use enki_ts.Scheduler.{Config, Scheduler, no_thread_num, external_registered, external_unregistered}
use enki_ts.Scheduler.Add.Loop.{Ends}
use enki_ts.Scheduler.Threads.{
  construct, fill, start_threads, register_external_task_thread, initial_states,
  deregister_external_task_thread,
}
use enki_ts.Scheduler.Threads.Starting.{Started, start_threads-Started}
use enki_ts.Scheduler.Threads.Registering.{
  Counted, Registers, register_external_task_thread-Registers,
  deregister_external_task_thread-Counted,
}
use enki_ts.Tests.Adding.{ten}

abbrev config : Config
config = record { num_task_threads_to_create = 2; num_external_task_threads = 2 }

abbrev new_scheduler : Scheduler
new_scheduler = construct config (λ t. ten)

start_threads-Started_example : Ends (λ _ s'. Started config s') (start_threads 8 new_scheduler)
start_threads-Started_example = start_threads-Started 8 new_scheduler refl refl (omega arith)

-- The scheduler after that, and with both of the user's threads registered.
abbrev open_scheduler : Scheduler
open_scheduler = record new_scheduler { num_threads = 5; thread_state = initial_states 5 2 }

open-Counted : Counted open_scheduler
unfolding sum_below fill
open-Counted = refl

register_external_task_thread-Registers_example :
    Ends (Registers open_scheduler) (register_external_task_thread 1 open_scheduler)
register_external_task_thread-Registers_example =
    register_external_task_thread-Registers 0 open_scheduler open-Counted

abbrev all_registered : Scheduler
all_registered = record open_scheduler {
  thread_state = λ t. external_registered;
  num_external_registered = pos 2;
}

all-Counted : Counted all_registered
unfolding sum_below
all-Counted = refl

deregister_external_task_thread-Counted_example :
    Ends
      (λ n s'.
        (n ≡ no_thread_num)
        × (s'.thread_state 1 ≡ external_unregistered)
        × (s'.num_external_registered +ℤ pos 1 ≡ all_registered.num_external_registered)
        × Counted s')
      (deregister_external_task_thread 1 all_registered)
deregister_external_task_thread-Counted_example =
    deregister_external_task_thread-Counted all_registered 1 all-Counted (omega arith) (omega arith)
      refl
