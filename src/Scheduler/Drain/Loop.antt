-- ===== src/Scheduler/Drain/Loop.antt =====
-- WaitforTask: its rounds go on until the task is complete.
use enki_ts.Base.{
  ℕ, zero, suc, ◌+◌, ◌≤◌, ◌<◌, ◌≡◌, refl, subst, ap, ◌∙◌, true, false, not, ◌&&◌, max, ltb, some,
  arith, List, [], ◌∷◌, if◌then◌else◌, list_sum, inl, inr, update, dec_lt, Bool-cases,
}
use enki_ts.Scheduler.{
  SubTaskSet, Scheduler, running_state, and_then, pure, ◌>>◌, record_event, when, spin_count,
  wait_start, wait_stop,
}
use enki_ts.Scheduler.Wake.{set_state, is_complete, wait_for_task_completion}
use enki_ts.Scheduler.Add.Loop.{Ends}
use enki_ts.Scheduler.Add.Tiling.{Ends-bind, Ends-map}
use enki_ts.Scheduler.Work.{event_weight, is_piece, pieces, work}
use enki_ts.Scheduler.Running.{try_run_task_of, try_priorities}
use enki_ts.Scheduler.Waiting.{wait_loop, waitfor_task}
use enki_ts.Scheduler.Drain.Queue.{size_left, no_pieces-queued}
use enki_ts.Scheduler.Drain.Miss.{try_run_task_of_miss, reseeded}
use enki_ts.Scheduler.Drain.Round.{own, Drains, Round, try_run_task_of_hit}

module _ (thread t : ℕ) where
  reseeded-Drains :
      (depth fuel : ℕ) (s : Scheduler)
      → Drains thread t (suc fuel) s
      → Drains thread t (suc fuel) (reseeded depth (suc fuel) thread s)
  reseeded-Drains depth fuel s d = record {
    idle = d.idle;
    busy = d.busy;
    good = d.good;
    located = d.located;
    above = d.above;
    no_pinned = d.no_pinned;
    leaf = d.leaf;
    runs = d.runs;
    priority_ok = d.priority_ok;
    thread_ok = d.thread_ok;
    running = d.running;
    small = d.small;
    enough = d.enough;
  }

  reseeded-Round :
      (depth fuel : ℕ) (s s' : Scheduler)
      → Round thread t (suc fuel) (reseeded depth (suc fuel) thread s) s'
      → Round thread t (suc fuel) s s'
  reseeded-Round depth fuel s s' r = record {
    drains = r.drains;
    less = r.less;
    same_priority = r.same_priority;
    same_work = r.same_work;
  }

  some_piece-hit :
      (depth fuel hint : ℕ) (s : Scheduler) (q : List SubTaskSet)
      → Drains thread t (suc fuel) s
      → 0 < pieces t s
      → own thread t s ≡ q
      → Ends
          (λ a s'. (a.0 ≡ true) × Round thread t (suc fuel) s s')
          (try_run_task_of (suc depth) (suc fuel) thread (s.tasks t).priority hint s)
  unfolding list_sum
  some_piece-hit depth fuel hint s [] d some_piece e =
      absurd (omega (arith, d.located, ap (list_sum (is_piece t)) e))
  some_piece-hit depth fuel hint s (x ∷ xs) d some_piece e =
      try_run_task_of_hit thread t depth fuel s d x xs e hint

  -- The loop over the priorities gets to the task's own, and runs a piece of it there.
  try_priorities-Round :
      (depth fuel left p hint : ℕ) (s : Scheduler)
      → Drains thread t (suc fuel) s
      → 0 < pieces t s
      → p ≤ (s.tasks t).priority
      → (s.tasks t).priority < p + left
      → Ends
          (λ a s'. (a.0 ≡ true) × Round thread t (suc fuel) s s')
          (try_priorities (suc depth) (suc fuel) left p thread hint s)
  unfolding try_priorities
  try_priorities-Round depth fuel zero p hint s d some_piece low high = absurd (omega arith)
  try_priorities-Round depth fuel (suc left) p hint s d some_piece low high =
      elim (dec_lt p (s.tasks t).priority) [
        | yes above ↦
            rw
              (try_run_task_of_miss (suc depth) fuel thread p hint s (λ u. d.above p u above)
                (d.no_pinned p low))
              (Ends-map
                (try_priorities (suc depth) (suc fuel) left (p + 1) thread hint
                  (reseeded (suc depth) (suc fuel) thread s))
                (λ a s' b. (b.0, reseeded-Round (suc depth) fuel s s' b.1))
                (try_priorities-Round depth fuel left (p + 1) hint
                  (reseeded (suc depth) (suc fuel) thread s) (reseeded-Drains (suc depth) fuel s d)
                  some_piece (omega arith) (omega arith)))
        | no there ↦
            let here : (s.tasks t).priority ≡ p = omega arith in
            Ends-bind (λ a s'. (a.0 ≡ true) × Round thread t (suc fuel) s s')
              (λ a s'. (a.0 ≡ true) × Round thread t (suc fuel) s s')
              (try_run_task_of (suc depth) (suc fuel) thread p hint s)
              (λ ran.
                if ran.0
                then pure ran
                else try_priorities (suc depth) (suc fuel) left (p + 1) thread ran.1)
              (subst
                (λ (at : ℕ).
                  Ends (λ a s'. (a.0 ≡ true) × Round thread t (suc fuel) s s')
                    (try_run_task_of (suc depth) (suc fuel) thread at hint s))
                here (some_piece-hit depth fuel hint s (own thread t s) d some_piece refl))
              (λ a s' b. rw b.0 (refl, b.1))
      ]

  -- What a wait has done to the task when it ends.
  pub record Finished (s s' : Scheduler) : Type 0 where
    pub complete : (s'.tasks t).running_count ≡ 0
    pub none_queued : pieces t s' ≡ 0
    pub all_executed : (w : ℕ → ℕ) → list_sum (event_weight w t) s'.log ≡ work w t s

  complete-Finished :
      (fuel : ℕ) (s : Scheduler) → Drains thread t fuel s → is_complete s t ≡ true → Finished s s
  complete-Finished fuel s d e = record {
    complete = ground arith;
    none_queued = none_left;
    all_executed = λ w. omega (arith, no_pieces-queued w t s none_left);
  }
    where
      none_left : pieces t s ≡ 0
      none_left = ground (arith, d.busy)

  Finished-Round :
      (fuel : ℕ) (s mid s' : Scheduler)
      → Round thread t fuel s mid
      → Finished mid s'
      → Finished s s'
  Finished-Round fuel s mid s' r f = record {
    complete = f.complete;
    none_queued = f.none_queued;
    all_executed = λ w. f.all_executed w ∙ r.same_work w;
  }

  -- With a round for each index that waits, and one more, the loop of WaitforTask ends with the task
  -- complete.
  wait_loop-Finished :
      (depth fuel lowest rounds hint spins : ℕ) (s : Scheduler)
      → Drains thread t (suc fuel) s
      → (s.tasks t).priority ≤ lowest
      → size_left t (own thread t s) < rounds
      → Ends
          (λ _ s'. Finished s s')
          (wait_loop (suc depth) (suc fuel) rounds t thread lowest hint spins s)
  unfolding wait_loop
  wait_loop-Finished depth fuel lowest zero hint spins s d low h = absurd (omega arith)
  wait_loop-Finished depth fuel lowest (suc rounds) hint spins s d low h =
      elim (Bool-cases (is_complete s t)) [
        | inl finished ↦ rw finished (complete-Finished (suc fuel) s d finished)
        | inr more ↦ rw (goes_on more) (
            Ends-bind (λ a s'. (a.0 ≡ true) × Round thread t (suc fuel) s s')
              (λ _ s'. Finished s s')
              (try_priorities (suc depth) (suc fuel) (lowest + 1) 0 thread hint s)
              (λ ran.
                let now = if ran.0 then 0 else spins + 1 in
                when (ltb spin_count now) (wait_for_task_completion t thread)
                >> wait_loop (suc depth) (suc fuel) rounds t thread lowest ran.1
                    (if ltb spin_count now then 0 else now))
              (try_priorities-Round depth fuel (lowest + 1) 0 hint s d (some_left more)
                (omega arith) (omega arith))
              (λ a s' b. rw b.0 (
                Ends-map (wait_loop (suc depth) (suc fuel) rounds t thread lowest a.1 0 s')
                  (λ _ s'' f. Finished-Round (suc fuel) s s' s'' b.1 f)
                  (wait_loop-Finished depth fuel lowest rounds a.1 0 s' b.1.drains
                    (omega (arith, b.1.same_priority)) (omega (arith, b.1.less))))))
      ]
    where
      goes_on : is_complete s t ≡ false → (not (is_complete s t) && s.is_running) ≡ true
      goes_on more = ground (arith, d.running)

      some_left : is_complete s t ≡ false → 0 < pieces t s
      some_left more = ground (arith, d.idle)

  -- A state that differs only in what threads do and in the profiler's events.
  abbrev started : Scheduler → Scheduler
  started s = record s {
    thread_state = update s.thread_state thread running_state;
    log = wait_start thread ∷ s.log;
  }

  started-Drains :
      (fuel : ℕ) (s : Scheduler) → Drains thread t fuel s → Drains thread t fuel (started s)
  started-Drains fuel s d = record {
    idle = d.idle;
    busy = d.busy;
    good = d.good;
    located = d.located;
    above = d.above;
    no_pinned = d.no_pinned;
    leaf = d.leaf;
    runs = d.runs;
    priority_ok = d.priority_ok;
    thread_ok = d.thread_ok;
    running = d.running;
    small = d.small;
    enough = d.enough;
  }

  -- WaitforTask on a task set, given a fuel above the indexes that wait, while the scheduler is running,
  -- by the thread whose pipe of the set's priority holds all pieces of the set and nothing else. No pipe
  -- holds a piece of higher priority, the thread has no pinned task of that priority or above, nothing
  -- depends on the set, its m_RangeToRun is positive, less than 2 ^ 31 - 8 indexes wait, and m_RunningCount
  -- is one more than the pieces, or 0 if there are none. Then it returns; the task is complete, nothing
  -- of it waits, and each of its indexes was executed as often as it was executed or waited before.
  pub waitfor_task-Finished :
      (depth fuel lowest : ℕ) (s : Scheduler)
      → Drains thread t (suc fuel) s
      → Ends (λ _ s'. Finished s s') (waitfor_task (suc depth) (suc fuel) (some t) thread lowest s)
  unfolding waitfor_task list_sum
  waitfor_task-Finished depth fuel lowest s d = elim (Bool-cases (is_complete s t)) [
    | inl finished ↦
        let f = complete-Finished (suc fuel) s d finished in
        rw finished (record {
          complete = f.complete;
          none_queued = f.none_queued;
          all_executed = f.all_executed;
        })
    | inr more ↦ rw more (
        Ends-bind (λ _ s'. Finished s s') (λ _ s'. Finished s s')
          (and_then
            (wait_loop (suc depth) (suc fuel) (suc fuel) t thread (max lowest (s.tasks t).priority)
              (thread + 1) 0 (started s))
            (λ _. record_event (wait_stop thread)))
          (λ _. set_state thread (s.thread_state thread))
          (Ends-bind (λ _ s'. Finished (started s) s') (λ _ s'. Finished s s')
            (wait_loop (suc depth) (suc fuel) (suc fuel) t thread (max lowest (s.tasks t).priority)
              (thread + 1) 0 (started s))
            (λ _. record_event (wait_stop thread))
            (wait_loop-Finished depth fuel (max lowest (s.tasks t).priority) (suc fuel) (thread + 1)
              0 (started s) (started-Drains (suc fuel) s d) (omega arith) d.enough)
            (λ _ s' f. record {
              complete = f.complete;
              none_queued = f.none_queued;
              all_executed = λ w. omega (arith, f.all_executed w);
            }))
          (λ _ s' f. record {
            complete = f.complete;
            none_queued = f.none_queued;
            all_executed = λ w. omega (arith, f.all_executed w);
          }))
  ]
