-- ===== src/Scheduler/Add/Bounds.antt =====
-- src/TaskScheduler.cpp, AddTaskSetToPipeInt: how many pieces it puts into the pipe.
use enki_ts.Base.{
  ℕ, suc, ◌+◌, ◌*◌, ◌/◌, ◌^◌, ◌≤◌, ◌<◌, ◌≡◌, refl, Bool, true, arith, [], ◌==◌, max, Bool-cases,
  inl, inr, dec_lt,
}
use native.Mathlib.Nat.{div-add-mod, mod-lt, mul-le-mul_right, mul-le-mul_left}
use enki_ts.Scheduler.{
  SubTaskSet, Scheduler, Action, Run, done, blocked, out_of_fuel, sub32, set_task, priority_num,
  task_start_count,
}
use enki_ts.Scheduler.Add.{add_loop, split_and_add_task, add_task_set_to_pipe_int, task_complete}
use enki_ts.Scheduler.Work.{pieces}
use enki_ts.Scheduler.Add.Loop.{Ends, size_of, Added}
use enki_ts.Scheduler.Add.Tiling.{Fit, Ends-bind, Ends-map, add_loop-Added}
use enki_ts.Scheduler.Add.Count.{AddedAll, raised, rest_of, Fit-raised, not_last, rest_of-AddedAll}
use enki_ts.Scheduler.Add.Launch
use enki_ts.Scheduler.Add.Launch.{
  after_complete, task_complete_leaf, ready, whole, ready-Fit, leaf_after,
}

-- The pieces that were put into a pipe are at least `range` long, but for the last.
pub record Few (range : ℕ) (sub : SubTaskSet) (s s' : Scheduler) : Type 0 where
  pub number : ℕ
  pub counted : pieces sub.task s' ≡ pieces sub.task s + number
  pub bound : number * range < size_of sub + range

Ends-and :
    {A : Type 0} (P Q : A → Scheduler → Type 0) (r : Run A)
    → Ends P r
    → Ends Q r
    → Ends (λ a s. P a s × Q a s) r
Ends-and P Q (done a s) p q = (p, q)
Ends-and P Q blocked p q = p
Ends-and P Q out_of_fuel p q = p

few_pieces :
    (n size initial at_least : ℕ)
    → 0 < initial
    → 0 < at_least
    → n * max (size / initial) at_least < size + max (size / initial) at_least
    → n ≤ 2 * initial
few_pieces n size initial at_least some_initial positive bound = elim (dec_lt (2 * initial) n) [
  | yes many ↦
      let r = max (size / initial) at_least in
      let at_least_one : 1 ≤ r = omega arith in
      let at_least_share : size / initial ≤ r = omega arith in
      absurd (
        omega (
          arith,
          div-add-mod size initial,
          mod-lt size some_initial,
          mul-le-mul_right r many,
          mul-le-mul_left initial at_least_share,
          mul-le-mul_left initial at_least_one,
        ))
  | no few ↦ omega arith
]

module _ (complete : ℕ → Bool → ℕ → Action) (thread range : ℕ) (hr : 0 < range) where
  -- SplitAndAddTask, as in `Scheduler/Add/Count.antt`.
  pub split_and_add_task-Few :
      (fuel : ℕ) (sub : SubTaskSet) (s : Scheduler)
      → Fit thread sub s
      → size_of sub < fuel
      → 2 ≤ (s.tasks sub.task).running_count
      → (s.tasks sub.task).running_count + size_of sub + 4 < 2 ^ 31
      → Ends
          (λ _ s'. AddedAll sub s s' × Few range sub s s')
          (split_and_add_task complete fuel thread sub range s)
  unfolding split_and_add_task rest_of
  split_and_add_task-Few fuel sub s fit enough two small =
      Ends-bind (Added range sub 0 raised_s) (λ _ s'. AddedAll sub s s' × Few range sub s s')
        (add_loop fuel thread sub range 0 0 raised_s) (rest_of complete thread range hr sub)
        (add_loop-Added thread range hr fuel sub 0 0 raised_s
          (Fit-raised complete thread range hr sub s fit fuel enough two small) enough)
        (λ n m d.
          Ends-and (λ _ s'. AddedAll sub s s') (λ _ s'. Few range sub s s')
            (rest_of complete thread range hr sub n m)
            (rest_of-AddedAll complete thread range hr sub s fit fuel enough two small n m d)
            (rw (not_last complete thread range hr sub s fit fuel enough two small n m d) (record {
              number = n;
              counted = ground (arith, d.counted sub.task);
              bound = omega (arith, d.bound);
            })))
    where
      raised_s : Scheduler
      raised_s = raised complete thread range hr sub s

module _ (depth fuel t thread : ℕ) (s : Scheduler) (leaf : (s.tasks t).dependents ≡ [])
    (min_range_pos : 0 < (s.tasks t).min_range) (priority_ok : (s.tasks t).priority < priority_num)
    (thread_ok : thread < s.num_threads) (new : (s.tasks t).running_count ≡ task_start_count)
    (none_queued : pieces t s ≡ 0) (small : (s.tasks t).set_size + 8 < 2 ^ 31)
    (enough : (s.tasks t).set_size < fuel) where
  abbrev at_start : Scheduler
  at_start =
      ready depth fuel t thread s leaf min_range_pos priority_ok thread_ok new none_queued small
        enough

  abbrev all : SubTaskSet
  all =
      whole depth fuel t thread s leaf min_range_pos priority_ok thread_ok new none_queued small
        enough

  -- What follows SplitAndAddTask leaves the pipes alone.
  same_pieces :
      (m : Scheduler)
      → AddedAll all at_start m
      → Ends
          (λ _ s'. pieces t s' ≡ pieces t m)
          (Launch.rest_of depth fuel t thread s leaf min_range_pos priority_ok thread_ok new
            none_queued small enough m)
  unfolding Launch.rest_of
  same_pieces m d = elim (Bool-cases (task_start_count == (m.tasks t).running_count)) [
    | inl last ↦
        rw
          (
            last,
            task_complete_leaf depth fuel t true thread
                (set_task t
                  (record (m.tasks t) { running_count = sub32 (m.tasks t).running_count 1 }) m)
                (ground (
                  arith,
                  leaf_after depth fuel t thread s leaf min_range_pos priority_ok thread_ok new
                      none_queued small enough m d,
                )),
          )
          refl
    | inr more ↦ rw more refl
  ]

  -- AddTaskSetToPipeInt by a thread of the scheduler, given a fuel above the set size, on a task of which
  -- m_RunningCount is gc_TaskStartCount, no piece is queued and on which nothing depends, whose priority
  -- is one of the scheduler's, whose m_MinRange is positive and whose size is below 2 ^ 31 - 8, where
  -- m_NumInitialPartitions is positive: it ends and leaves at most twice m_NumInitialPartitions pieces of
  -- the task in the pipes.
  pub add_task_set_to_pipe_int_bound :
      0 < s.num_initial_partitions
      → Ends
          (λ _ s'. pieces t s' ≤ 2 * s.num_initial_partitions)
          (add_task_set_to_pipe_int (task_complete (suc depth) fuel) fuel t thread s)
  unfolding add_task_set_to_pipe_int whole Launch.rest_of
  add_task_set_to_pipe_int_bound some_initial =
      Ends-bind (λ _ m. AddedAll all at_start m × Few range all at_start m)
        (λ _ s'. pieces t s' ≤ 2 * s.num_initial_partitions)
        (split_and_add_task (task_complete (suc depth) fuel) fuel thread all range at_start)
        (λ _.
          Launch.rest_of depth fuel t thread s leaf min_range_pos priority_ok thread_ok new
            none_queued small enough)
        (split_and_add_task-Few (task_complete (suc depth) fuel) thread range
          (omega (arith, min_range_pos)) fuel all at_start
          (ready-Fit depth fuel t thread s leaf min_range_pos priority_ok thread_ok new none_queued
            small enough)
          (omega (arith, enough)) (ground (arith, new)) (ground (arith, new, small)))
        (λ _ m b.
          Ends-map
            (Launch.rest_of depth fuel t thread s leaf min_range_pos priority_ok thread_ok new
              none_queued small enough m)
            (λ _ s' e. omega (
              arith,
              e,
              b.1.counted,
              none_queued,
              few_pieces b.1.number (s.tasks t).set_size s.num_initial_partitions
                  (s.tasks t).min_range some_initial min_range_pos (omega (arith, b.1.bound)),
            ))
            (same_pieces m b.0))
    where
      range : ℕ
      range = max ((s.tasks t).set_size / s.num_initial_partitions) (s.tasks t).min_range
