-- ===== src/Scheduler/Add/Count.antt =====
-- src/TaskScheduler.cpp, SplitAndAddTask: m_RunningCount grows by the number of pieces that it puts
-- into the pipe, and cannot reach its completing value on the way.
use enki_ts.Base.{
  ℕ, ◌+◌, ◌*◌, ◌/◌, ◌^◌, ◌≤◌, ◌<◌, ◌≡◌, ◌≢◌, refl, ap, ◌∙◌, Bool, false, arith, ◌==◌,
}
use native.Mathlib.Nat.{div-add-mod, div-le_self}
use enki_ts.Scheduler.{
  SubTaskSet, Scheduler, Action, Task, add32, sub32, set_task, task_start_count, fetch_sub_running,
  when, ◌>>=◌, ◌>>◌,
}
use enki_ts.Scheduler.Wake.{wake_threads_for_new_tasks}
use enki_ts.Scheduler.Add.{add_loop, split_and_add_task}
use enki_ts.Scheduler.Work.{sub_weight, work, pieces}
use enki_ts.Scheduler.Add.Loop.{Ends, size_of, Added}
use enki_ts.Scheduler.Add.Tiling.{Fit, Ends-bind, add_loop-Added}

-- What SplitAndAddTask has done to `s`, with the task at hand counted.
pub record AddedAll (sub : SubTaskSet) (s s' : Scheduler) : Type 0 where
  pub total : (w : ℕ → ℕ) (t : ℕ) → work w t s' ≡ work w t s + sub_weight w t sub
  pub count :
      (s'.tasks sub.task).running_count + pieces sub.task s
      ≡ (s.tasks sub.task).running_count + pieces sub.task s'
  pub few : pieces sub.task s' ≤ pieces sub.task s + size_of sub + 2
  pub same_task :
      s'.tasks sub.task
      ≡ record (s.tasks sub.task) { running_count = (s'.tasks sub.task).running_count }
  pub others : (t : ℕ) → t ≢ sub.task → (pieces t s' ≡ pieces t s) × (s'.tasks t ≡ s.tasks t)
  pub same_threads : s'.num_threads ≡ s.num_threads

-- The loop adds fewer than the upper bound that the count was raised by.
added-lt-upper : (n range size : ℕ) → 0 < range → n * range < size + range → n < 2 + size / range
added-lt-upper n range size hr h = grind (arith, div-add-mod size range)

module _ (complete : ℕ → Bool → ℕ → Action) (thread range : ℕ) (hr : 0 < range) where
  -- `upperBoundNumToAdd`
  abbrev pub upper : SubTaskSet → ℕ
  upper sub = 2 + sub32 sub.partition.end sub.partition.start / range

  abbrev pub raised : SubTaskSet → Scheduler → Scheduler
  raised sub s =
      set_task sub.task
        (record (s.tasks sub.task) {
          running_count = add32 (s.tasks sub.task).running_count (upper sub);
        })
        s

  abbrev pub lowered : SubTaskSet → ℕ → Scheduler → Scheduler
  lowered sub n s =
      set_task sub.task
        (record (s.tasks sub.task) {
          running_count = sub32 (s.tasks sub.task).running_count (sub32 (upper sub) n);
        })
        s

  -- What follows the loop, if the count does not reach its completing value.
  unfoldable pub rest_of : SubTaskSet → ℕ → Action
  unfolding wake_threads_for_new_tasks
  rest_of sub n = do
    before ← fetch_sub_running sub.task (sub32 (upper sub) n)
    when (add32 (sub32 (sub32 (upper sub) n) 1) task_start_count == before)
        (complete sub.task false thread)
    wake_threads_for_new_tasks

  module _ (sub : SubTaskSet) (s : Scheduler) (fit : Fit thread sub s) (fuel : ℕ)
      (enough : size_of sub < fuel) (two : 2 ≤ (s.tasks sub.task).running_count)
      (small : (s.tasks sub.task).running_count + size_of sub + 4 < 2 ^ 31) where
    upper_small : (upper sub ≤ 2 + size_of sub) × (upper sub ≡ 2 + size_of sub / range)
    upper_small =
        let e : sub32 sub.partition.end sub.partition.start ≡ size_of sub =
          omega (arith, fit.is_range.ordered, fit.is_range.in_word) in
        rw e (omega (arith, div-le_self (size_of sub) range), refl)

    pub Fit-raised : Fit thread sub (raised sub s)
    Fit-raised = record {
      is_range = fit.is_range;
      runs = ground (arith, fit.runs);
      priority_ok = ground (arith, fit.priority_ok);
      thread_ok = fit.thread_ok;
    }

    module _ (n : ℕ) (s' : Scheduler) (d : Added range sub 0 (raised sub s) n s') where
      n_small : n < upper sub
      n_small =
          omega
            (arith, upper_small, added-lt-upper n range (size_of sub) hr (omega (arith, d.bound)))

      count_after : (s'.tasks sub.task).running_count ≡ (s.tasks sub.task).running_count + upper sub
      count_after =
          ap (λ (f : ℕ → Task). (f sub.task).running_count) d.same_tasks
          ∙ ground (arith, upper_small)

      pub not_last :
          (add32 (sub32 (sub32 (upper sub) n) 1) task_start_count
            == (s'.tasks sub.task).running_count)
          ≡ false
      not_last = rw count_after (ground (arith, n_small, upper_small))

      pub rest_of-AddedAll : Ends (λ _ s''. AddedAll sub s s'') (rest_of sub n s')
      unfolding rest_of
      rest_of-AddedAll = rw not_last (record {
        total = λ w t. d.total w t;
        count = ground (arith, count_after, n_small, upper_small, d.counted sub.task);
        few = ground (arith, n_small, upper_small, d.counted sub.task);
        same_task = ground (arith, ap (λ (f : ℕ → Task). f sub.task) d.same_tasks);
        others = λ t ne.
            (ground (arith, d.counted t), ground (arith, ap (λ (f : ℕ → Task). f t) d.same_tasks));
        same_threads = d.same_threads;
      })

  -- SplitAndAddTask by a thread of the scheduler, given a fuel above the size of the partition, a range
  -- of uint32_t with start <= end, with a positive rangeToSplit_, on a task whose m_RangeToRun is positive, whose priority is one of the
  -- scheduler's, and whose m_RunningCount is at least 2 and with the size of the partition and 4 below
  -- 2 ^ 31: it ends, each index of the partition is executed once or waits in a pipe, the count grows by
  -- the number of pieces that were put into the pipe, and the task is not completed on the way. It
  -- changes no other task.
  pub split_and_add_task-AddedAll :
      (fuel : ℕ) (sub : SubTaskSet) (s : Scheduler)
      → Fit thread sub s
      → size_of sub < fuel
      → 2 ≤ (s.tasks sub.task).running_count
      → (s.tasks sub.task).running_count + size_of sub + 4 < 2 ^ 31
      → Ends (λ _ s'. AddedAll sub s s') (split_and_add_task complete fuel thread sub range s)
  unfolding split_and_add_task rest_of
  split_and_add_task-AddedAll fuel sub s fit enough two small =
      Ends-bind (Added range sub 0 (raised sub s)) (λ _ s'. AddedAll sub s s')
        (add_loop fuel thread sub range 0 0 (raised sub s)) (rest_of sub)
        (add_loop-Added thread range hr fuel sub 0 0 (raised sub s)
          (Fit-raised sub s fit fuel enough two small) enough)
        (rest_of-AddedAll sub s fit fuel enough two small)
