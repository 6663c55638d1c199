-- ===== src/Scheduler/Drain/Launch.antt =====
-- AddTaskSetToPipe leaves the pieces of the task where WaitforTask looks for them first.
use enki_ts.Base.{
  ℕ, suc, subst, sym, ◌+◌, ◌/◌, ◌^◌, ◌≤◌, ◌<◌, ◌≡◌, refl, ap, ◌∙◌, arith, true, List, [], inl, max,
  list_sum, update,
}
use enki_ts.Scheduler.{SubTaskSet, Scheduler, Task, Action, priority_num, task_start_count}
use enki_ts.Scheduler.Split.{weight-one}
use enki_ts.Scheduler.Wake.{set_state}
use enki_ts.Scheduler.Add.{split_and_add_task, add_task_set_to_pipe_int, task_complete}
use enki_ts.Scheduler.Add.Loop.{Ends}
use enki_ts.Scheduler.Add.Tiling.{Ends-bind}
use enki_ts.Scheduler.Add.Count.{AddedAll}
use enki_ts.Scheduler.Add.Launch.{
  Launched, ready, whole, ready-Fit, rest_of, leaf_after, rest_of-Launched,
}
use enki_ts.Scheduler.Work.{queued, pieces, is_piece, sub_weight}
use enki_ts.Scheduler.Running.{piece_done, complete}
use enki_ts.Scheduler.Drain.{Frame, AllGood, Leaves}
use enki_ts.Scheduler.Drain.Rounds.{Ends-both, Leaves-map, Leaves-then}
use enki_ts.Scheduler.Drain.Adding.{Kept, Kept-trans, piece_done-Kept, split_and_add_task-Frame}
use enki_ts.Scheduler.Drain.Queue.{queued-others, size_left}
use enki_ts.Scheduler.Drain.Round.{Drains, own}

module _ (depth fuel t thread : ℕ) (s : Scheduler) (leaf : (s.tasks t).dependents ≡ [])
    (min_range_pos : 0 < (s.tasks t).min_range) (priority_ok : (s.tasks t).priority < priority_num)
    (thread_ok : thread < s.num_threads) (new : (s.tasks t).running_count ≡ task_start_count)
    (none_queued : pieces t s ≡ 0) (small : (s.tasks t).set_size + 8 < 2 ^ 31)
    (enough : (s.tasks t).set_size < fuel) where
  -- The state in which SplitAndAddTask is called, the piece that it is called on, and what follows.
  abbrev pub at_start : Scheduler
  at_start =
      ready depth fuel t thread s leaf min_range_pos priority_ok thread_ok new none_queued small
        enough

  abbrev all : SubTaskSet
  all =
      whole depth fuel t thread s leaf min_range_pos priority_ok thread_ok new none_queued small
        enough

  abbrev tail : Action
  tail =
      rest_of depth fuel t thread s leaf min_range_pos priority_ok thread_ok new none_queued small
        enough

  tail-Kept :
      (m : Scheduler)
      → (m.tasks t).dependents ≡ []
      → Leaves (λ _ s'. Kept thread (s.tasks t).priority t m s') (tail m)
  unfolding rest_of complete
  tail-Kept m leaf_m =
      Leaves-then (λ _ s'. Kept thread (s.tasks t).priority t m s')
        (piece_done (suc depth) fuel t thread m) (λ _. set_state thread (s.thread_state thread))
        (Leaves-map (λ _ s'. Kept thread (s.tasks t).priority t m s')
          (λ _ s'.
            Kept thread (s.tasks t).priority t m
              (record s' { thread_state = update s'.thread_state thread (s.thread_state thread) }))
          (piece_done (suc depth) fuel t thread m)
          (λ _ s' k. record {
            frame = record {
              others = k.frame.others;
              same_pinned = k.frame.same_pinned;
              same_running = k.frame.same_running;
              good = k.frame.good;
              grows = k.frame.grows;
            };
            same_task = k.same_task;
            same_threads = k.same_threads;
          })
          (piece_done-Kept thread (s.tasks t).priority t depth fuel thread m leaf_m))

  -- AddTaskSetToPipeInt on a new task does what `Launched` says, and keeps what `Kept` says.
  pub add_task_set_to_pipe_int-Kept :
      Ends
        (λ _ s'. Launched t s s' × Kept thread (s.tasks t).priority t at_start s')
        (add_task_set_to_pipe_int (task_complete (suc depth) fuel) fuel t thread s)
  unfolding add_task_set_to_pipe_int whole rest_of
  add_task_set_to_pipe_int-Kept =
      Ends-bind (λ _ m. AddedAll all at_start m × Frame thread (s.tasks t).priority t at_start m)
        (λ _ s'. Launched t s s' × Kept thread (s.tasks t).priority t at_start s')
        (split_and_add_task (task_complete (suc depth) fuel) fuel thread all
          (max ((s.tasks t).set_size / s.num_initial_partitions) (s.tasks t).min_range) at_start)
        (λ _. tail)
        (split_and_add_task-Frame (task_complete (suc depth) fuel) thread (s.tasks t).priority t
          (max ((s.tasks t).set_size / s.num_initial_partitions) (s.tasks t).min_range)
          (omega (arith, min_range_pos)) all at_start
          (ready-Fit depth fuel t thread s leaf min_range_pos priority_ok thread_ok new none_queued
            small enough)
          fuel (omega (arith, enough)) (ground (arith, new)) (ground (arith, new, small)) refl
          (ground arith))
        (λ _ m b.
          Ends-both (λ _ s'. Launched t s s')
            (λ _ s'. Kept thread (s.tasks t).priority t at_start s') (tail m)
            (rest_of-Launched depth fuel t thread s leaf min_range_pos priority_ok thread_ok new
              none_queued small enough m b.0)
            (Leaves-map (λ _ s'. Kept thread (s.tasks t).priority t m s')
              (λ _ s'. Kept thread (s.tasks t).priority t at_start s') (tail m)
              (λ _ s' k.
                Kept-trans thread (s.tasks t).priority t at_start m s'
                  (record {
                    frame = b.1;
                    same_task = b.0.same_task;
                    same_threads = b.0.same_threads;
                  })
                  k)
              (tail-Kept m (
                leaf_after depth fuel t thread s leaf min_range_pos priority_ok thread_ok new
                  none_queued small enough m b.0))))

-- A scheduler at work in which `thread` has nothing to do at the priority of task `t` or above, and
-- no other thread at a priority above.
pub record Quiet (thread t : ℕ) (s : Scheduler) : Type 0 where
  pub own_empty : s.pipes (s.tasks t).priority thread ≡ []
  pub above : (p u : ℕ) → p < (s.tasks t).priority → s.pipes p u ≡ []
  pub no_pinned : (p : ℕ) → p ≤ (s.tasks t).priority → s.pinned p thread ≡ []
  pub running : s.is_running ≡ true

module _ (depth fuel t thread : ℕ) (s : Scheduler) (leaf : (s.tasks t).dependents ≡ [])
    (min_range_pos : 0 < (s.tasks t).min_range) (priority_ok : (s.tasks t).priority < priority_num)
    (thread_ok : thread < s.num_threads) (new : (s.tasks t).running_count ≡ task_start_count)
    (none_queued : pieces t s ≡ 0) (small : (s.tasks t).set_size + 8 < 2 ^ 31)
    (enough : (s.tasks t).set_size < fuel) (quiet : Quiet thread t s) (s' : Scheduler)
    (l : Launched t s s')
    (k : Kept thread
      (s.tasks t).priority
      t
      (at_start depth fuel t thread s leaf min_range_pos priority_ok thread_ok new none_queued small
        enough)
      s') where
  priority_after : (s'.tasks t).priority ≡ (s.tasks t).priority
  priority_after = ground (arith, ap (λ (task : Task). task.priority) k.same_task)

  own_after : own thread t s' ≡ s'.pipes (s.tasks t).priority thread
  own_after = ap (λ (p : ℕ). s'.pipes p thread) priority_after

  sums_to_own :
      (m : SubTaskSet → ℕ)
      → queued m s' ≡ queued m s + list_sum m (s'.pipes (s.tasks t).priority thread)
  unfolding list_sum
  sums_to_own m = omega (
    arith,
    queued-others m (s.tasks t).priority thread s s' priority_ok thread_ok k.same_threads
        k.frame.others,
    ap (list_sum m) quiet.own_empty,
  )

  size_after : size_left t (s'.pipes (s.tasks t).priority thread) ≤ (s.tasks t).set_size
  size_after = omega (
    arith,
    l.total (λ i. 1),
    weight-one (record { start = 0; end = (s.tasks t).set_size }),
    k.frame.grows,
    sums_to_own (sub_weight (λ i. 1) t),
  )

  pub Launched-Drains : Drains thread t fuel s'
  Launched-Drains = record {
    idle = l.complete;
    busy = l.incomplete;
    good =
        subst (AllGood t) (sym own_after)
          (k.frame.good (subst (AllGood t) (sym quiet.own_empty) tt));
    located =
        omega (arith, sums_to_own (is_piece t), none_queued, ap (list_sum (is_piece t)) own_after);
    above = λ p u h.
        k.frame.others p u (inl (omega (arith, priority_after)))
        ∙ quiet.above p u (omega (arith, priority_after));
    no_pinned = λ p h.
        ap (λ (f : ℕ → ℕ → List ℕ). f p thread) k.frame.same_pinned
        ∙ quiet.no_pinned p (omega (arith, priority_after));
    leaf = ground (arith, ap (λ (task : Task). task.dependents) k.same_task, leaf);
    runs = ground (arith, ap (λ (task : Task). task.range_to_run) k.same_task, min_range_pos);
    priority_ok = omega (arith, priority_after, priority_ok);
    thread_ok = omega (arith, k.same_threads, thread_ok);
    running = k.frame.same_running ∙ quiet.running;
    small = omega (arith, size_after, small, ap (size_left t) own_after);
    enough = omega (arith, size_after, enough, ap (size_left t) own_after);
  }
