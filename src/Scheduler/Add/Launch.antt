-- ===== src/Scheduler/Add/Launch.antt =====
-- src/TaskScheduler.cpp, AddTaskSetToPipeInt, for a task set on which no other task depends.
use enki_ts.Base.{
  ℕ, suc, ◌+◌, ◌/◌, ◌^◌, ◌<◌, ◌≡◌, ap, ◌∙◌, Bool, true, arith, ◌==◌, if◌then◌else◌, [], ◌∷◌, max,
  not, ◌&&◌, list_sum, update, Bool-cases, inl, inr,
}
use enki_ts.Scheduler.{
  SubTaskSet, Scheduler, done, Action, Task, sub32, set_task, priority_num, task_start_count,
  fetch_sub_running, when, ◌>>=◌, ◌>>◌, completed, running_state,
}
use enki_ts.Scheduler.Split.{weight}
use enki_ts.Scheduler.Wake.{set_state, wake_task_completion}
use enki_ts.Scheduler.Add.{
  split_and_add_task, add_task_set_to_pipe_int, task_complete, run_dependents,
}
use enki_ts.Scheduler.Work.{work, pieces}
use enki_ts.Scheduler.Add.Loop.{Ends}
use enki_ts.Scheduler.Add.Tiling.{Fit, Ends-bind}
use enki_ts.Scheduler.Add.Count.{AddedAll, split_and_add_task-AddedAll}

-- TaskComplete on a task with no dependents.
abbrev pub after_complete : ℕ → Bool → Scheduler → Scheduler
after_complete t wake s =
    let s' = set_task t (record (s.tasks t) { running_count = 0 }) s in
    record s' {
      log = completed t ∷ s.log;
      waiters =
          if wake && not ((s.tasks t).waiting_for_task_count == 0)
          then wake_task_completion s.waiters
          else s.waiters;
    }

pub task_complete_leaf :
    (depth fuel t : ℕ) (wake : Bool) (thread : ℕ) (s : Scheduler)
    → (s.tasks t).dependents ≡ []
    → task_complete (suc depth) fuel t wake thread s ≡ done tt (after_complete t wake s)
unfolding task_complete run_dependents
task_complete_leaf depth fuel t wake thread s e =
    elim (Bool-cases (wake && not ((s.tasks t).waiting_for_task_count == 0))) [
      | inl h ↦ rw (e, h)
      | inr h ↦ rw (e, h)
    ]

-- A task set after it was added: every index of it is executed or waits in a pipe, and it is
-- complete exactly when nothing of it waits; its count is else one more than the pieces that wait.
pub record Launched (t : ℕ) (s s' : Scheduler) : Type 0 where
  pub total :
      (w : ℕ → ℕ)
      → work w t s' ≡ work w t s + weight w (record { start = 0; end = (s.tasks t).set_size })
  pub complete : pieces t s' ≡ 0 → (s'.tasks t).running_count ≡ 0
  pub incomplete : 0 < pieces t s' → (s'.tasks t).running_count ≡ 1 + pieces t s'

module _ (depth fuel t thread : ℕ) (s : Scheduler) (leaf : (s.tasks t).dependents ≡ [])
    (min_range_pos : 0 < (s.tasks t).min_range) (priority_ok : (s.tasks t).priority < priority_num)
    (thread_ok : thread < s.num_threads) (new : (s.tasks t).running_count ≡ task_start_count)
    (none_queued : pieces t s ≡ 0) (small : (s.tasks t).set_size + 8 < 2 ^ 31)
    (enough : (s.tasks t).set_size < fuel) where
  -- The state in which SplitAndAddTask is called.
  abbrev pub ready : Scheduler
  ready =
      let s' = record s { thread_state = update s.thread_state thread running_state } in
      set_task t
        (record (s.tasks t) {
          range_to_run = max ((s.tasks t).set_size / s.num_partitions) (s.tasks t).min_range;
        })
        s'

  unfoldable pub whole : SubTaskSet
  whole = record { task = t; partition = record { start = 0; end = (s.tasks t).set_size } }

  pub ready-Fit : Fit thread whole ready
  unfolding whole
  ready-Fit = record {
    is_range = record { ordered = omega arith; in_word = omega arith };
    runs = ground (arith, min_range_pos);
    priority_ok = ground (arith, priority_ok);
    thread_ok = thread_ok;
  }

  -- What follows SplitAndAddTask.
  unfoldable pub rest_of : Action
  rest_of = do
    count ← fetch_sub_running t 1
    when (task_start_count == count) (task_complete (suc depth) fuel t true thread)
    set_state thread (s.thread_state thread)

  module _ (s' : Scheduler) (d : AddedAll whole ready s') where
    pub count_after : (s'.tasks t).running_count ≡ 2 + pieces t s'
    unfolding whole
    count_after = ground (arith, d.count, none_queued, new)

    pub leaf_after : (s'.tasks t).dependents ≡ []
    unfolding whole
    leaf_after = ap (λ (task : Task). task.dependents) d.same_task ∙ ground (arith, leaf)

    total_after :
        (w : ℕ → ℕ)
        → work w t s' ≡ work w t s + weight w (record { start = 0; end = (s.tasks t).set_size })
    unfolding whole
    total_after w = ground (arith, d.total w t)

    pieces_small : pieces t s' < 2 ^ 31
    unfolding whole
    pieces_small = omega (arith, d.few, none_queued, small)

    abbrev counted_down : Scheduler
    counted_down =
        set_task t (record (s'.tasks t) { running_count = sub32 (s'.tasks t).running_count 1 }) s'

    pub rest_of-Launched : Ends (λ _ s''. Launched t s s'') (rest_of s')
    unfolding rest_of list_sum
    rest_of-Launched = elim (Bool-cases (task_start_count == (s'.tasks t).running_count)) [
      | inl last ↦
          rw
            (
              last,
              task_complete_leaf depth fuel t true thread counted_down (ground (arith, leaf_after)),
            )
            (record {
              total = λ w. omega (arith, total_after w);
              complete = λ e. ground arith;
              incomplete = λ e. ground (arith, count_after);
            })
      | inr more ↦ rw more (record {
        total = total_after;
        complete = λ e. ground (arith, count_after);
        incomplete = λ e. ground (arith, count_after, pieces_small);
      })
    ]

  -- AddTaskSetToPipeInt by a thread of the scheduler, given a fuel above the set size, on a task of which
  -- m_RunningCount is gc_TaskStartCount, no piece is queued and on which nothing depends, whose priority
  -- is one of the scheduler's, whose m_MinRange is positive and whose size is below 2 ^ 31 - 8: it ends;
  -- each index of the set is executed or waits in a pipe, and the task is complete exactly when no piece
  -- of it waits.
  pub add_task_set_to_pipe_int-Launched :
      Ends
        (λ _ s'. Launched t s s')
        (add_task_set_to_pipe_int (task_complete (suc depth) fuel) fuel t thread s)
  unfolding add_task_set_to_pipe_int whole rest_of
  add_task_set_to_pipe_int-Launched =
      Ends-bind (λ _ s'. AddedAll whole ready s') (λ _ s'. Launched t s s')
        (split_and_add_task (task_complete (suc depth) fuel) fuel thread whole
          (max ((s.tasks t).set_size / s.num_initial_partitions) (s.tasks t).min_range) ready)
        (λ _. rest_of)
        (split_and_add_task-AddedAll (task_complete (suc depth) fuel) thread
          (max ((s.tasks t).set_size / s.num_initial_partitions) (s.tasks t).min_range)
          (omega (arith, min_range_pos)) fuel whole ready ready-Fit (omega (arith, enough))
          (ground (arith, new)) (ground (arith, new, small)))
        (λ _. rest_of-Launched)
