-- ===== src/Tests/Adding.antt =====
-- A scheduler of two threads with one task set of ten indexes.
use enki_ts.Base.{
  ◌+◌, ◌*◌, ◌≤◌, ◌-◌, ◌≡◌, refl, true, false, [], arith, pos, min, sum_below, list_sum,
}
use enki_ts.Scheduler.{SubTaskSet, task_set, Task, running_state, Scheduler}
use enki_ts.Scheduler.Split.{split_task, split_task_lem, weight, IsRange}
use enki_ts.Scheduler.Add.{split_and_add_task, add_task_set_to_pipe_int, task_complete}
use enki_ts.Scheduler.Add.Loop.{Ends}
use enki_ts.Scheduler.Add.Count.{AddedAll, split_and_add_task-AddedAll}
use enki_ts.Scheduler.Add.Bounds.{add_task_set_to_pipe_int_bound}
use enki_ts.Scheduler.Add.Launch.{Launched, add_task_set_to_pipe_int-Launched}
use enki_ts.Scheduler.Work.{pieces}
use enki_ts.Scheduler.Running.{run_sub_task}
use enki_ts.Scheduler.Running.Piece.{Settled, run_sub_task-Settled}

abbrev pub ten : Task
ten = record {
  kind = task_set;
  priority = 1;
  running_count = 2;
  dependencies_completed_count = 0;
  dependencies_count = 0;
  waiting_for_task_count = 0;
  dependents = [];
  set_size = 10;
  min_range = 1;
  range_to_run = 1;
  thread_num = 0;
}

abbrev pub idle_scheduler : Scheduler
idle_scheduler = record {
  num_threads = 2;
  num_partitions = 2;
  num_initial_partitions = 1;
  config = record { num_task_threads_to_create = 1; num_external_task_threads = 0 };
  tasks = λ t. ten;
  pipes = λ priority thread. [];
  pinned = λ priority thread. [];
  thread_state = λ t. running_state;
  rnd_seed = λ t. t;
  waiters = record {
    new_tasks = pos 0;
    task_completion = pos 0;
    new_task_semaphore = 0;
    task_complete_semaphore = 0;
    pinned_semaphore = λ t. 0;
  };
  is_running = true;
  shutdown_requested = false;
  waitforall_called = false;
  have_threads = true;
  num_internal_running = pos 1;
  num_external_registered = pos 0;
  log = [];
}

abbrev pub whole : SubTaskSet
whole = record { task = 4; partition = record { start = 0; end = 10 } }

whole-IsRange : IsRange whole.partition
whole-IsRange = omega arith

split_task_lem_example :
    let (first, rest) = split_task whole 3 in
    (first.task ≡ whole.task)
    × (rest.task ≡ whole.task)
    × (first.partition.start ≡ whole.partition.start)
    × (first.partition.end ≡ rest.partition.start)
    × (rest.partition.end ≡ whole.partition.end)
    × (first.partition.end - first.partition.start
        ≡ min 3 (whole.partition.end - whole.partition.start))
    × IsRange first.partition
    × IsRange rest.partition
    × (weight (λ i. i) first.partition + weight (λ i. i) rest.partition
        ≡ weight (λ i. i) whole.partition)
split_task_lem_example = split_task_lem whole 3 (λ i. i) whole-IsRange

split_and_add_task-AddedAll_example :
    Ends
      (λ _ s'. AddedAll whole idle_scheduler s')
      (split_and_add_task (task_complete 1 20) 20 0 whole 4 idle_scheduler)
split_and_add_task-AddedAll_example =
    split_and_add_task-AddedAll (task_complete 1 20) 0 4 (omega arith) 20 whole idle_scheduler
      (record {
        is_range = whole-IsRange;
        runs = omega arith;
        priority_ok = omega arith;
        thread_ok = omega arith;
      })
      (omega arith) (omega arith) (omega arith)

none_queued : pieces 4 idle_scheduler ≡ 0
unfolding sum_below list_sum
none_queued = refl

add_task_set_to_pipe_int-Launched_example :
    Ends
      (λ _ s'. Launched 4 idle_scheduler s')
      (add_task_set_to_pipe_int (task_complete 1 20) 20 4 0 idle_scheduler)
add_task_set_to_pipe_int-Launched_example =
    add_task_set_to_pipe_int-Launched 0 20 4 0 idle_scheduler refl (omega arith) (omega arith)
      (omega arith) refl none_queued (omega arith) (omega arith)

-- The piece `whole` in hand, just taken from a pipe.
run_sub_task-Settled_example :
    Ends
      (λ _ s'. Settled 4 (λ w. weight w whole.partition) idle_scheduler s')
      (run_sub_task 1 20 0 1 whole idle_scheduler)
run_sub_task-Settled_example =
    run_sub_task-Settled 0 20 0 1 whole idle_scheduler
      (record {
        is_range = whole-IsRange;
        runs = omega arith;
        priority_ok = omega arith;
        thread_ok = omega arith;
      })
      refl (omega (arith, none_queued)) (omega (arith, none_queued)) (omega arith)

add_task_set_to_pipe_int_bound_example :
    Ends
      (λ _ s'. pieces 4 s' ≤ 2 * 1)
      (add_task_set_to_pipe_int (task_complete 1 20) 20 4 0 idle_scheduler)
add_task_set_to_pipe_int_bound_example =
    add_task_set_to_pipe_int_bound 0 20 4 0 idle_scheduler refl (omega arith) (omega arith)
      (omega arith) refl none_queued (omega arith) (omega arith) (omega arith)
