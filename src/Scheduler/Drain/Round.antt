-- ===== src/Scheduler/Drain/Round.antt =====
-- A round of WaitforTask: TryRunTask runs a piece of the task, and there is less to do afterwards.
use enki_ts.Base.{
  ℕ, suc, ◌+◌, ◌-◌, ◌%◌, ◌^◌, ◌≤◌, ◌<◌, ◌≡◌, refl, sym, subst, ap, ◌∙◌, true, some, arith, List, [],
  ◌∷◌, list_sum, inl,
}
use enki_ts.Pipe.Deque.{last_from, take_front}
use enki_ts.Scheduler.{SubTaskSet, Scheduler, Task, done, gets, pure, ◌>>=◌, priority_num}
use enki_ts.Scheduler.Split.{weight}
use enki_ts.Scheduler.Add.{set_pipe}
use enki_ts.Scheduler.Add.Loop.{Ends, size_of}
use enki_ts.Scheduler.Add.Tiling.{Fit, Ends-bind}
use enki_ts.Scheduler.Work.{sub_weight, queued, is_piece, pieces, work, queued-set_pipe}
use enki_ts.Scheduler.Running.{
  try_read_front, or_next, find_hinted, find_sub_task, run_sub_task, try_run_task_of,
}
use enki_ts.Scheduler.Running.Piece.{Settled}
use enki_ts.Scheduler.Drain.{Good, AllGood}
use enki_ts.Scheduler.Drain.Piece.{Ran, run_sub_task-Settled-Ran}
use enki_ts.Scheduler.Drain.Queue.{
  size_left, last_from-sum, last_from-Good, Good-size, pieces-le-size, queued-others,
}
use enki_ts.Scheduler.Drain.Miss.{bind_done, run_pinned_tasks_of_none}

module _ (thread t : ℕ) where
  abbrev pub own : Scheduler → List SubTaskSet
  own s = s.pipes (s.tasks t).priority thread

  -- A task set with no dependents, all of whose pieces wait in the pipe of `thread`, which has nothing
  -- of higher priority to do.
  pub record Drains (fuel : ℕ) (s : Scheduler) : Type 0 where
    pub idle : pieces t s ≡ 0 → (s.tasks t).running_count ≡ 0
    pub busy : 0 < pieces t s → (s.tasks t).running_count ≡ 1 + pieces t s
    pub good : AllGood t (own s)
    pub located : pieces t s ≡ list_sum (is_piece t) (own s)
    pub above : (p u : ℕ) → p < (s.tasks t).priority → s.pipes p u ≡ []
    pub no_pinned : (p : ℕ) → p ≤ (s.tasks t).priority → s.pinned p thread ≡ []
    pub leaf : (s.tasks t).dependents ≡ []
    pub runs : 0 < (s.tasks t).range_to_run
    pub priority_ok : (s.tasks t).priority < priority_num
    pub thread_ok : thread < s.num_threads
    pub running : s.is_running ≡ true
    pub small : size_left t (own s) + 8 < 2 ^ 31
    pub enough : size_left t (own s) < fuel

  -- A round that took `s` to `s'`.
  pub record Round (fuel : ℕ) (s s' : Scheduler) : Type 0 where
    pub drains : Drains fuel s'
    pub less : size_left t (own s') < size_left t (own s)
    pub same_priority : (s'.tasks t).priority ≡ (s.tasks t).priority
    pub same_work : (w : ℕ → ℕ) → work w t s' ≡ work w t s

  module _ (depth fuel : ℕ) (s : Scheduler) (d : Drains (suc fuel) s) (x : SubTaskSet)
      (xs : List SubTaskSet) (here : own s ≡ x ∷ xs) where
    abbrev piece : SubTaskSet
    piece = (last_from x xs).0

    abbrev taken : Scheduler
    taken = set_pipe (s.tasks t).priority thread (last_from x xs).1 s

    split_pieces : AllGood t (last_from x xs).1 × Good t piece
    split_pieces = last_from-Good t x xs (subst (AllGood t) here d.good)

    sums :
        (m : SubTaskSet → ℕ)
        → (list_sum m (last_from x xs).1 + m piece ≡ list_sum m (own s))
          × (queued m taken + m piece ≡ queued m s)
    sums m = (
      last_from-sum m x xs ∙ ap (list_sum m) (sym here),
      omega (
        arith,
        last_from-sum m x xs ∙ ap (list_sum m) (sym here),
        queued-set_pipe m (s.tasks t).priority thread (last_from x xs).1 s d.priority_ok
            d.thread_ok,
      ),
    )

    same : piece.task ≡ t
    same = split_pieces.1.same_task

    facts :
        (w : ℕ → ℕ)
        → (sub_weight w t piece ≡ weight w piece.partition)
          × (sub_weight (λ i. 1) t piece ≡ piece.partition.end - piece.partition.start)
          × (is_piece t piece ≡ 1)
          × (1 ≤ sub_weight (λ i. 1) t piece)
    facts w = Good-size t w piece split_pieces.1

    piece-Fit : Fit thread piece taken
    piece-Fit = record {
      is_range = split_pieces.1.is_range;
      runs = rw same d.runs;
      priority_ok = rw same d.priority_ok;
      thread_ok = d.thread_ok;
    }

    counts : pieces t taken + 1 ≡ pieces t s
    counts = omega (arith, (sums (is_piece t)).1, (facts (λ i. 1)).2)

    sizes : size_left t (last_from x xs).1 + size_of piece ≡ size_left t (own s)
    sizes = omega (arith, (sums (sub_weight (λ i. 1) t)).0, (facts (λ i. 1)).1)

    run_Ends :
        (found : ℕ)
        → Ends
            (λ _ s'.
              Settled t (λ w. weight w piece.partition) taken s'
              × Ran thread (s.tasks t).priority t taken s')
            (run_sub_task (suc depth) (suc fuel) thread found piece taken)
    run_Ends found =
        subst
          (λ (a : ℕ).
            Ends
              (λ _ s'.
                Settled a (λ w. weight w piece.partition) taken s'
                × Ran thread (s.tasks a).priority a taken s')
              (run_sub_task (suc depth) (suc fuel) thread found piece taken))
          same
          (run_sub_task-Settled-Ran depth (suc fuel) thread found piece taken piece-Fit
            (rw same d.leaf) (rw same (omega (arith, counts, d.busy)))
            (rw same (
              omega (
                arith,
                counts,
                sizes,
                d.small,
                pieces-le-size t (last_from x xs).1 split_pieces.0,
                d.located,
                (sums (is_piece t)).0,
                (facts (λ i. 1)).2,
              )))
            (omega (arith, sizes, d.enough)) split_pieces.1.some_index)

    -- What the running of the piece leads to.
    round_lem :
        (s' : Scheduler)
        → Settled t (λ w. weight w piece.partition) taken s'
        → Ran thread (s.tasks t).priority t taken s'
        → Round (suc fuel) s s'
    round_lem s' e r = record {
      drains = record {
        idle = e.complete;
        busy = e.incomplete;
        good =
            subst (λ (p : ℕ). AllGood t (s'.pipes p thread)) (sym same_priority)
              (r.kept.frame.good (subst (AllGood t) own_taken split_pieces.0));
        located = omega (arith, others_sum (is_piece t), sums (is_piece t), d.located);
        above = λ p u h.
            r.kept.frame.others p u (inl (λ e'. omega (arith, same_priority)))
            ∙ ground (arith, same_priority, d.above p u);
        no_pinned = λ p h.
            ap (λ (f : ℕ → ℕ → List ℕ). f p thread) r.kept.frame.same_pinned
            ∙ d.no_pinned p (omega (arith, same_priority));
        leaf = ap (λ (task : Task). task.dependents) r.kept.same_task ∙ d.leaf;
        runs = rw r.kept.same_task d.runs;
        priority_ok = rw same_priority d.priority_ok;
        thread_ok = rw r.kept.same_threads d.thread_ok;
        running = r.kept.frame.same_running ∙ d.running;
        small = omega (arith, smaller, d.small);
        enough = omega (arith, smaller, d.enough);
      };
      less = smaller;
      same_priority = same_priority;
      same_work = λ w. omega (arith, e.total w, (sums (sub_weight w t)).1, (facts w).0);
    }
      where
        same_priority : (s'.tasks t).priority ≡ (s.tasks t).priority
        same_priority = ap (λ (task : Task). task.priority) r.kept.same_task

        own_taken : (last_from x xs).1 ≡ taken.pipes (s.tasks t).priority thread
        own_taken = ground arith

        others_sum :
            (m : SubTaskSet → ℕ)
            → queued m s' + list_sum m (last_from x xs).1 ≡ queued m taken + list_sum m (own s')
        others_sum m =
            ap (λ (q : List SubTaskSet). queued m s' + list_sum m q) own_taken
            ∙ queued-others m (s.tasks t).priority thread taken s' d.priority_ok d.thread_ok
                r.kept.same_threads r.kept.frame.others
            ∙ ap (λ (p : ℕ). queued m taken + list_sum m (s'.pipes p thread)) (sym same_priority)

        smaller : size_left t (own s') < size_left t (own s)
        smaller = omega (
          arith,
          e.total (λ i. 1),
          r.more,
          others_sum (sub_weight (λ i. 1) t),
          sums (sub_weight (λ i. 1) t),
          (facts (λ i. 1)).0,
        )

    front_hit : try_read_front (s.tasks t).priority thread s ≡ done (some piece) taken
    front_hit =
        ap
          (λ (q : List SubTaskSet).
            let ((_, out), rest) = take_front q in
            done out (set_pipe (s.tasks t).priority thread rest s))
          here

    find_hit :
        (hint : ℕ)
        → find_sub_task (suc depth) (suc fuel) thread (s.tasks t).priority hint s
          ≡ done (some piece, hint % s.num_threads) taken
    unfolding find_sub_task
    find_hit hint =
        bind_done
          (λ o. gets (λ s'. hint % s'.num_threads) >>= λ f.
            or_next (suc depth) (suc fuel) f
              (find_hinted (suc depth) (suc fuel) thread (s.tasks t).priority f) o)
          front_hit

    -- TryRunTask of the task's priority takes a piece from the front of the thread's pipe and runs it.
    pub try_run_task_of_hit :
        (hint : ℕ)
        → Ends
            (λ a s'. (a.0 ≡ true) × Round (suc fuel) s s')
            (try_run_task_of (suc depth) (suc fuel) thread (s.tasks t).priority hint s)
    unfolding try_run_task_of
    try_run_task_of_hit hint =
        rw
          (
            run_pinned_tasks_of_none (suc depth) (suc fuel) fuel thread (s.tasks t).priority s
                (d.no_pinned (s.tasks t).priority (omega arith)),
            find_hit hint,
          )
          (Ends-bind
            (λ _ s'.
              Settled t (λ w. weight w piece.partition) taken s'
              × Ran thread (s.tasks t).priority t taken s')
            (λ a s'. (a.0 ≡ true) × Round (suc fuel) s s')
            (run_sub_task (suc depth) (suc fuel) thread (hint % s.num_threads) piece taken)
            (λ _. pure (true, hint % s.num_threads)) (run_Ends (hint % s.num_threads))
            (λ _ s' b. (refl, round_lem s' b.0 b.1)))
