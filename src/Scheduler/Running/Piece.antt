-- ===== src/Scheduler/Running/Piece.antt =====
-- src/TaskScheduler.cpp, the tail of TryRunTask: a piece of a task set is executed, or split, and
-- the last one completes the task.
use enki_ts.Base.{
  ℕ, suc, ◌+◌, ◌/◌, ◌^◌, ◌<◌, ◌≡◌, ap, ◌∙◌, true, arith, max, min, not, ltb, ◌==◌, if◌then◌else◌,
  [], ◌∷◌, list_sum, Bool-cases, inl, inr,
}
use enki_ts.Scheduler.{
  SubTaskSet, Scheduler, Action, Task, add32, sub32, set_task, task_start_count,
  max_stolen_partitions, executed, record_event, ◌>>◌,
}
use enki_ts.Scheduler.Split.{weight, weight-tiles}
use enki_ts.Scheduler.Add.{split_and_add_task, task_complete}
use enki_ts.Scheduler.Add.Loop.{Ends, size_of}
use enki_ts.Scheduler.Add.Tiling.{Fit, Ends-bind}
use enki_ts.Scheduler.Add.Count.{AddedAll, split_and_add_task-AddedAll}
use enki_ts.Scheduler.Add.Launch.{task_complete_leaf}
use enki_ts.Scheduler.Work.{work, pieces}
use enki_ts.Scheduler.Running.{complete, piece_done, run_sub_task}

-- The state of a task after a piece of it, of which an index counts as `gain`, was taken care of:
-- each index is executed or waits in a pipe, and the task is complete exactly when nothing waits.
pub record Settled (t : ℕ) (gain : (ℕ → ℕ) → ℕ) (s s' : Scheduler) : Type 0 where
  pub total : (w : ℕ → ℕ) → work w t s' ≡ work w t s + gain w
  pub complete : pieces t s' ≡ 0 → (s'.tasks t).running_count ≡ 0
  pub incomplete : 0 < pieces t s' → (s'.tasks t).running_count ≡ 1 + pieces t s'

module _ (depth fuel thread t : ℕ) where
  -- What follows an ExecuteRange, in a state `m` in which the piece is still counted.
  piece_done-Settled :
      (gain : (ℕ → ℕ) → ℕ) (s m : Scheduler)
      → (m.tasks t).dependents ≡ []
      → (m.tasks t).running_count ≡ 2 + pieces t m
      → pieces t m < 2 ^ 31
      → ((w : ℕ → ℕ) → work w t m ≡ work w t s + gain w)
      → Ends (λ _ s'. Settled t gain s s') (piece_done (suc depth) fuel t thread m)
  unfolding complete list_sum
  piece_done-Settled gain s m leaf count small total =
      elim (Bool-cases (task_start_count == (m.tasks t).running_count)) [
        | inl last ↦
            rw (last, task_complete_leaf depth fuel t true thread down (ground (arith, leaf)))
              (record {
                total = λ w. omega (arith, total w);
                complete = λ e. ground arith;
                incomplete = λ e. ground (arith, count);
              })
        | inr more ↦ rw more (record {
          total = total;
          complete = λ e. ground (arith, count);
          incomplete = λ e. ground (arith, count, small);
        })
      ]
    where
      down : Scheduler
      down = set_task t (record (m.tasks t) { running_count = sub32 (m.tasks t).running_count 1 }) m

module _ (depth fuel thread found : ℕ) (sub : SubTaskSet) (s : Scheduler) (fit : Fit thread sub s)
    (leaf : (s.tasks sub.task).dependents ≡ [])
    (counted : (s.tasks sub.task).running_count ≡ 2 + pieces sub.task s)
    (small : pieces sub.task s + size_of sub + 8 < 2 ^ 31) (enough : size_of sub < fuel) where
  abbrev pub to_run : ℕ
  to_run = (s.tasks sub.task).range_to_run

  abbrev pub middle : ℕ
  middle = sub.partition.start + min to_run (size_of sub)

  abbrev pub first : SubTaskSet
  first = record {
    task = sub.task;
    partition = record { start = sub.partition.start; end = middle };
  }

  abbrev pub rest : SubTaskSet
  rest = record { task = sub.task; partition = record { start = middle; end = sub.partition.end } }

  -- The range that the rest is split by.
  abbrev pub range : ℕ
  range =
      if not (thread == found)
      then max to_run (sub32 rest.partition.end rest.partition.start / max_stolen_partitions)
      else to_run

  pub range_pos : 0 < range
  range_pos = elim (Bool-cases (not (thread == found))) [
    | inl stolen ↦ rw stolen (omega (arith, fit.runs))
    | inr own ↦ rw own fit.runs
  ]

  -- The sum of SplitTask does not wrap.
  pub middle_eq :
      add32 sub.partition.start (min to_run (sub32 sub.partition.end sub.partition.start)) ≡ middle
  middle_eq = omega (arith, fit.is_range.ordered, fit.is_range.in_word)

  pub Fit-rest : Fit thread rest s
  Fit-rest = record {
    is_range = record {
      ordered = omega (arith, fit.is_range.ordered);
      in_word = fit.is_range.in_word;
    };
    runs = fit.runs;
    priority_ok = fit.priority_ok;
    thread_ok = fit.thread_ok;
  }

  -- What follows SplitAndAddTask.
  unfoldable pub rest_of : Action
  unfolding complete
  rest_of = do
    record_event (executed sub.task first.partition thread)
    piece_done (suc depth) fuel sub.task thread

  rest_of-Settled :
      (s' : Scheduler)
      → AddedAll rest s s'
      → Ends (λ _ s''. Settled sub.task (λ w. weight w sub.partition) s s'') (rest_of s')
  unfolding rest_of list_sum
  rest_of-Settled s' d =
      piece_done-Settled depth fuel thread sub.task (λ w. weight w sub.partition) s
        (record s' { log = executed sub.task first.partition thread ∷ s'.log })
        (ap (λ (task : Task). task.dependents) d.same_task ∙ ground (arith, leaf))
        (omega (arith, d.count, counted)) (omega (arith, d.few, small))
        (λ w. ground (
          arith,
          d.total w sub.task,
          weight-tiles w sub.partition.start middle sub.partition.end (omega arith)
              (omega (arith, fit.is_range.ordered)),
        ))

  -- Running a piece that was just taken from a pipe, by a thread of the scheduler, given a fuel above its
  -- size, a range of uint32_t with start <= end, where nothing depends on its task, the task's priority is one of the scheduler's, its
  -- m_RangeToRun is positive, its m_RunningCount is two more than the pieces of it that still wait, and
  -- these with the size of the piece and 8 are below 2 ^ 31: it ends, each index of the piece is executed
  -- or put back to wait, and the task is complete exactly when nothing of it waits any more.
  pub run_sub_task-Settled :
      Ends
        (λ _ s'. Settled sub.task (λ w. weight w sub.partition) s s')
        (run_sub_task (suc depth) fuel thread found sub s)
  unfolding run_sub_task complete rest_of list_sum
  run_sub_task-Settled =
      elim (Bool-cases (ltb to_run (sub32 sub.partition.end sub.partition.start))) [
        | inl large ↦
            rw (middle_eq, large)
              (Ends-bind (λ _ s'. AddedAll rest s s')
                (λ _ s'. Settled sub.task (λ w. weight w sub.partition) s s')
                (split_and_add_task (task_complete (suc depth) fuel) fuel thread rest range s)
                (λ _. rest_of)
                (split_and_add_task-AddedAll (task_complete (suc depth) fuel) thread range range_pos
                  fuel rest s Fit-rest (omega (arith, enough)) (omega (arith, counted))
                  (omega (arith, counted, small)))
                (λ _. rest_of-Settled))
        | inr small_enough ↦ rw small_enough (
            piece_done-Settled depth fuel thread sub.task (λ w. weight w sub.partition) s
              (record s { log = executed sub.task sub.partition thread ∷ s.log }) leaf counted
              (omega (arith, small)) (λ w. ground arith))
      ]
