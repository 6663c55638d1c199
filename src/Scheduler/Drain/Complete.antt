-- ===== src/Scheduler/Drain/Complete.antt =====
-- src/TaskScheduler.cpp: AddTaskSetToPipe and then WaitforTask, by one thread.
use enki_ts.Base.{ℕ, suc, ◌+◌, ◌^◌, ◌≤◌, ◌<◌, ◌≡◌, ap, ◌∙◌, arith, some, [], list_sum}
use enki_ts.Scheduler.{Scheduler, Action, set_task, priority_num, task_start_count, ◌>>◌}
use enki_ts.Scheduler.Split.{weight}
use enki_ts.Scheduler.Add.{add_task_set_to_pipe_int, task_complete}
use enki_ts.Scheduler.Add.Loop.{Ends}
use enki_ts.Scheduler.Add.Tiling.{Ends-bind, Ends-map}
use enki_ts.Scheduler.Add.Launch.{Launched}
use enki_ts.Scheduler.Work.{pieces, event_weight}
use enki_ts.Scheduler.Waiting.{add_task_set_to_pipe, waitfor_task}
use enki_ts.Scheduler.Waiting.Adding.{add_task_set_to_pipe-leaf}
use enki_ts.Scheduler.Drain.Adding.{Kept}
use enki_ts.Scheduler.Drain.Queue.{no_pieces-queued}
use enki_ts.Scheduler.Drain.Launch.{Quiet, at_start, add_task_set_to_pipe_int-Kept, Launched-Drains}
use enki_ts.Scheduler.Drain.Loop.{Finished, waitfor_task-Finished}

-- The task set was executed once: whatever an index is counted as, the log has grown by the count of
-- the indexes below the set size.
pub record ExecutedOnce (t : ℕ) (s s' : Scheduler) : Type 0 where
  pub complete : (s'.tasks t).running_count ≡ 0
  pub none_queued : pieces t s' ≡ 0
  pub once :
      (w : ℕ → ℕ)
      → list_sum (event_weight w t) s'.log
        ≡ list_sum (event_weight w t) s.log
          + weight w (record { start = 0; end = (s.tasks t).set_size })

-- AddTaskSetToPipe( t ); WaitforTask( t, lowest ), by the thread `thread`.
abbrev pub run_task_set : ℕ → ℕ → ℕ → ℕ → ℕ → Action
run_task_set depth fuel t thread lowest =
    add_task_set_to_pipe depth fuel t thread >> waitfor_task depth fuel (some t) thread lowest

-- A thread of the scheduler adds a task set that is complete, on which nothing depends, whose priority is
-- one of the scheduler's, whose m_MinRange is positive, whose size is below 2 ^ 31 - 8 and of which no
-- piece is left in a pipe, and then waits for it. The scheduler is running, and no pipe holds a piece
-- of higher priority; the thread's own pipe of the set's priority is empty, and it has no pinned task of
-- that priority or above. Then it returns from both calls, given a fuel above the set size; the task is
-- then complete, nothing of it waits in a pipe, and each index below its set size was executed just once.
pub run_task_set-ExecutedOnce :
    (depth fuel t thread lowest : ℕ) (s : Scheduler)
    → (s.tasks t).running_count ≡ 0
    → (s.tasks t).dependents ≡ []
    → 0 < (s.tasks t).min_range
    → (s.tasks t).priority < priority_num
    → thread < s.num_threads
    → pieces t s ≡ 0
    → (s.tasks t).set_size + 8 < 2 ^ 31
    → (s.tasks t).set_size ≤ fuel
    → Quiet thread t s
    → Ends (λ _ s'. ExecutedOnce t s s') (run_task_set (suc depth) (suc fuel) t thread lowest s)
run_task_set-ExecutedOnce depth fuel t thread lowest s idle leaf min_pos prio thread_ok none_queued
      small enough quiet =
    rw (add_task_set_to_pipe-leaf depth (suc fuel) t thread s idle leaf) (
      Ends-bind (λ _ m. Launched t started m × Kept thread (started.tasks t).priority t start m)
        (λ _ s'. ExecutedOnce t s s')
        (add_task_set_to_pipe_int (task_complete (suc depth) (suc fuel)) (suc fuel) t thread
          started)
        (λ _. waitfor_task (suc depth) (suc fuel) (some t) thread lowest)
        (add_task_set_to_pipe_int-Kept depth (suc fuel) t thread started leaf' min' prio' thread_ok
          new none_queued small' enough')
        (λ _ m b.
          Ends-map (waitfor_task (suc depth) (suc fuel) (some t) thread lowest m)
            (λ _ s' f. executed_once m s' b.0 f)
            (waitfor_task-Finished thread t depth fuel lowest m (
              Launched-Drains depth (suc fuel) t thread started leaf' min' prio' thread_ok new
                none_queued small' enough' quiet' m b.0 b.1))))
  where
    started : Scheduler
    started = set_task t (record (s.tasks t) { running_count = task_start_count }) s

    leaf' : (started.tasks t).dependents ≡ []
    leaf' = ground (arith, leaf)

    min' : 0 < (started.tasks t).min_range
    min' = ground (arith, min_pos)

    prio' : (started.tasks t).priority < priority_num
    prio' = ground (arith, prio)

    new : (started.tasks t).running_count ≡ task_start_count
    new = ground arith

    small' : (started.tasks t).set_size + 8 < 2 ^ 31
    small' = ground (arith, small)

    enough' : (started.tasks t).set_size < suc fuel
    enough' = ground (arith, enough)

    same_priority : (started.tasks t).priority ≡ (s.tasks t).priority
    same_priority = ground arith

    quiet' : Quiet thread t started
    quiet' = record {
      own_empty = ap (λ (p : ℕ). s.pipes p thread) same_priority ∙ quiet.own_empty;
      above = λ p u h. quiet.above p u (omega (arith, same_priority));
      no_pinned = λ p h. quiet.no_pinned p (omega (arith, same_priority));
      running = quiet.running;
    }

    start : Scheduler
    start =
        at_start depth (suc fuel) t thread started leaf' min' prio' thread_ok new none_queued small'
          enough'

    executed_once :
        (m s' : Scheduler) → Launched t started m → Finished thread t m s' → ExecutedOnce t s s'
    executed_once m s' l f = record {
      complete = f.complete;
      none_queued = f.none_queued;
      once = λ w. ground (arith, f.all_executed w, l.total w, no_pieces-queued w t s none_queued);
    }
