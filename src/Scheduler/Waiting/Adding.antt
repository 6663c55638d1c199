-- ===== src/Scheduler/Waiting/Adding.antt =====
-- src/TaskScheduler.cpp, AddTaskSetToPipe: what the caller may count on.
use enki_ts.Base.{ℕ, suc, ◌+◌, ◌^◌, ◌<◌, ◌≡◌, refl, ap, [], arith}
use enki_ts.Scheduler.{Scheduler, Run, done, and_then, set_task, priority_num, task_start_count}
use enki_ts.Scheduler.Work.{pieces}
use enki_ts.Scheduler.Add.{add_task_set_to_pipe_int, task_complete}
use enki_ts.Scheduler.Add.Loop.{Ends}
use enki_ts.Scheduler.Add.Tiling.{Ends-map}
use enki_ts.Scheduler.Add.Launch.{Launched, add_task_set_to_pipe_int-Launched}
use enki_ts.Scheduler.Waiting.{set_running_count, init_dependencies, add_task_set_to_pipe}

-- A complete task on which nothing depends has no dependents to prepare.
init_dependencies-leaf :
    (depth t : ℕ) (s : Scheduler)
    → (s.tasks t).running_count ≡ 0
    → (s.tasks t).dependents ≡ []
    → init_dependencies (suc depth) t s ≡ done tt s
unfolding init_dependencies
init_dependencies-leaf depth t s idle leaf = rw (idle, leaf) refl

pub add_task_set_to_pipe-leaf :
    (depth fuel t thread : ℕ) (s : Scheduler)
    → (s.tasks t).running_count ≡ 0
    → (s.tasks t).dependents ≡ []
    → add_task_set_to_pipe (suc depth) fuel t thread s
      ≡ add_task_set_to_pipe_int
          (task_complete (suc depth) fuel)
          fuel
          t
          thread
          (set_task t (record (s.tasks t) { running_count = task_start_count }) s)
unfolding add_task_set_to_pipe
add_task_set_to_pipe-leaf depth fuel t thread s idle leaf =
    ap
      (λ (r : Run (Unit {0})).
        and_then (and_then r (λ _. set_running_count t task_start_count))
          (λ _. add_task_set_to_pipe_int (task_complete (suc depth) fuel) fuel t thread))
      (init_dependencies-leaf depth t s idle leaf)

-- AddTaskSetToPipe by a thread of the scheduler, given a fuel above the set size, on a task set that is
-- complete, of which no piece is left in a pipe and on which nothing depends, whose priority is one of
-- the scheduler's, whose m_MinRange is positive and whose size is below 2 ^ 31 - 8: it ends; each index
-- of the set is executed or waits in a pipe, and the task is complete exactly when no piece of it
-- waits.
pub add_task_set_to_pipe-Launched :
    (depth fuel t thread : ℕ) (s : Scheduler)
    → (s.tasks t).running_count ≡ 0
    → (s.tasks t).dependents ≡ []
    → 0 < (s.tasks t).min_range
    → (s.tasks t).priority < priority_num
    → thread < s.num_threads
    → pieces t s ≡ 0
    → (s.tasks t).set_size + 8 < 2 ^ 31
    → (s.tasks t).set_size < fuel
    → Ends (λ _ s'. Launched t s s') (add_task_set_to_pipe (suc depth) fuel t thread s)
add_task_set_to_pipe-Launched depth fuel t thread s idle leaf min_pos prio thread_ok none_queued
      small enough =
    rw (add_task_set_to_pipe-leaf depth fuel t thread s idle leaf) (
      Ends-map (add_task_set_to_pipe_int (task_complete (suc depth) fuel) fuel t thread started)
        (λ _ s'. back s')
        (add_task_set_to_pipe_int-Launched depth fuel t thread started (ground (arith, leaf))
          (ground (arith, min_pos)) (ground (arith, prio)) thread_ok (ground arith) none_queued
          (ground (arith, small)) (ground (arith, enough))))
  where
    started : Scheduler
    started = set_task t (record (s.tasks t) { running_count = task_start_count }) s

    back : (s' : Scheduler) → Launched t started s' → Launched t s s'
    back s' l = record {
      total = λ w. ground (arith, l.total w);
      complete = l.complete;
      incomplete = l.incomplete;
    }
