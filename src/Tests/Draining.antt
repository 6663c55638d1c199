-- ===== src/Tests/Draining.antt =====
-- A thread that runs a task set of ten indexes to its end, on the scheduler of `Tests/Adding.antt`.
use enki_ts.Base.{◌≡◌, refl, some, [], ◌∷◌, arith, ◌==◌, if◌then◌else◌, sum_below, list_sum}
use enki_ts.Scheduler.{Scheduler}
use enki_ts.Scheduler.Split.{weight-one}
use enki_ts.Scheduler.Add.Loop.{Ends}
use enki_ts.Scheduler.Work.{pieces}
use enki_ts.Scheduler.Waiting.{waitfor_task}
use enki_ts.Scheduler.Drain.Round.{Drains}
use enki_ts.Scheduler.Drain.Loop.{Finished, waitfor_task-Finished}
use enki_ts.Scheduler.Drain.Launch.{Quiet}
use enki_ts.Scheduler.Drain.Complete.{ExecutedOnce, run_task_set, run_task_set-ExecutedOnce}
use enki_ts.Tests.Adding.{ten, whole, idle_scheduler}

-- The scheduler with tasks that are complete.
abbrev at_rest : Scheduler
at_rest = record idle_scheduler { tasks = λ t. record ten { running_count = 0 } }

none_queued : pieces 4 at_rest ≡ 0
unfolding sum_below list_sum
none_queued = refl

quiet : Quiet 0 4 at_rest
quiet = record { own_empty = refl; above = λ p u h. refl; no_pinned = λ p h. refl; running = refl }

run_task_set-ExecutedOnce_example :
    Ends (λ _ s'. ExecutedOnce 4 at_rest s') (run_task_set 1 20 4 0 2 at_rest)
run_task_set-ExecutedOnce_example =
    run_task_set-ExecutedOnce 0 19 4 0 2 at_rest refl refl (omega arith) (omega arith) (omega arith)
      none_queued (omega arith) (omega arith) quiet

-- The piece `whole` of task 4 waits in the pipe of thread 0.
abbrev queued_scheduler : Scheduler
queued_scheduler = record idle_scheduler {
  pipes = λ priority thread. if priority == 1 then (if thread == 0 then whole ∷ [] else []) else [];
}

one_queued : pieces 4 queued_scheduler ≡ 1
unfolding sum_below list_sum
one_queued = refl

queued-Drains : Drains 0 4 20 queued_scheduler
unfolding list_sum
queued-Drains = record {
  idle = λ e. absurd (omega (arith, e, one_queued));
  busy = λ e. omega (arith, one_queued);
  good = (
    record {
      same_task = refl;
      is_range = record { ordered = omega arith; in_word = omega arith };
      some_index = omega arith;
    },
    tt,
  );
  located = ground (arith, one_queued);
  above = λ p u h. ground arith;
  no_pinned = λ p h. refl;
  leaf = refl;
  runs = omega arith;
  priority_ok = omega arith;
  thread_ok = omega arith;
  running = refl;
  small = omega (arith, weight-one whole.partition);
  enough = omega (arith, weight-one whole.partition);
}

waitfor_task-Finished_example :
    Ends
      (λ _ s'. Finished 0 4 queued_scheduler s')
      (waitfor_task 1 20 (some 4) 0 2 queued_scheduler)
waitfor_task-Finished_example = waitfor_task-Finished 0 4 0 19 2 queued_scheduler queued-Drains
