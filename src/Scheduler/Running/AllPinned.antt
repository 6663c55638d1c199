-- ===== src/Scheduler/Running/AllPinned.antt =====
-- src/TaskScheduler.cpp, RunPinnedTasks over all priorities.
use enki_ts.Base.{ℕ, zero, suc, ◌<◌, ◌≡◌, refl, ap, ◌∙◌, arith, List, [], ◌∷◌, length, inl, update}
use enki_ts.Scheduler.{priority_num, Scheduler, ◌>>◌, running_state}
use enki_ts.Scheduler.Wake.{set_state}
use enki_ts.Scheduler.Add.Loop.{Ends}
use enki_ts.Scheduler.Add.Tiling.{Ends-bind}
use enki_ts.Scheduler.Running.{run_pinned_tasks_of, run_pinned_tasks}
use enki_ts.Scheduler.Running.Pinned.{
  runs, after, AllLeaf, AllLeaf-same, AllComplete, RanAll, run_pinned_tasks_of-RanAll,
}

-- RunPinnedTasks() on a thread whose pinned tasks are `q0`, `q1` and `q2`, by priority.
pub record RanPinned (thread : ℕ) (q0 q1 q2 : List ℕ) (s s' : Scheduler) : Type 0 where
  pub empty : (p : ℕ) → p < priority_num → s'.pinned p thread ≡ []
  pub in_order : runs s'.log ≡ after q2 (after q1 (after q0 (runs s.log)))
  pub all_complete : AllComplete q0 s' × AllComplete q1 s' × AllComplete q2 s'
  pub same_state : s'.thread_state thread ≡ s.thread_state thread

AllComplete-later :
    (q : List ℕ) (s s' : Scheduler)
    → ((t : ℕ) → (s.tasks t).running_count ≡ 0 → (s'.tasks t).running_count ≡ 0)
    → AllComplete q s
    → AllComplete q s'
AllComplete-later [] s s' stays c = c
AllComplete-later (t ∷ q) s s' stays (e, c) = (stays t e, AllComplete-later q s s' stays c)

-- RunPinnedTasks by a thread whose pinned tasks have no dependents: it ends; the thread's lists are
-- then empty, and their tasks were executed, the higher priorities first and each list in its order,
-- and are complete.
pub run_pinned_tasks-RanPinned :
    (depth fuel thread : ℕ) (q0 q1 q2 : List ℕ) (s : Scheduler)
    → s.pinned 0 thread ≡ q0
    → s.pinned 1 thread ≡ q1
    → s.pinned 2 thread ≡ q2
    → AllLeaf q0 s
    → AllLeaf q1 s
    → AllLeaf q2 s
    → length q0 < fuel
    → length q1 < fuel
    → length q2 < fuel
    → Ends (λ _ s'. RanPinned thread q0 q1 q2 s s') (run_pinned_tasks (suc depth) fuel thread s)
unfolding run_pinned_tasks
run_pinned_tasks-RanPinned depth fuel thread q0 q1 q2 s e0 e1 e2 l0 l1 l2 h0 h1 h2 =
    Ends-bind (λ _ a. RanAll thread 0 q0 started a) (λ _ s'. RanPinned thread q0 q1 q2 s s')
      (run_pinned_tasks_of (suc depth) fuel fuel thread 0 started)
      (λ _.
        run_pinned_tasks_of (suc depth) fuel fuel thread 1
        >> (run_pinned_tasks_of (suc depth) fuel fuel thread 2
            >> set_state thread (s.thread_state thread)))
      (run_pinned_tasks_of-RanAll depth fuel thread 0 q0 fuel started e0
        (AllLeaf-same q0 s started (λ t. refl) l0) h0)
      (λ _ a r0.
        Ends-bind (λ _ b. RanAll thread 1 q1 a b) (λ _ s'. RanPinned thread q0 q1 q2 s s')
          (run_pinned_tasks_of (suc depth) fuel fuel thread 1 a)
          (λ _.
            run_pinned_tasks_of (suc depth) fuel fuel thread 2
            >> set_state thread (s.thread_state thread))
          (run_pinned_tasks_of-RanAll depth fuel thread 1 q1 fuel a
            (r0.others 1 thread (inl (λ e. absurd (omega (arith, e)))) ∙ e1)
            (AllLeaf-same q1 s a r0.same_dependents l1) h1)
          (λ _ b r1.
            Ends-bind (λ _ c. RanAll thread 2 q2 b c) (λ _ s'. RanPinned thread q0 q1 q2 s s')
              (run_pinned_tasks_of (suc depth) fuel fuel thread 2 b)
              (λ _. set_state thread (s.thread_state thread))
              (run_pinned_tasks_of-RanAll depth fuel thread 2 q2 fuel b
                (r1.others 2 thread (inl (λ e. absurd (omega (arith, e))))
                  ∙ r0.others 2 thread (inl (λ e. absurd (omega (arith, e))))
                  ∙ e2)
                (AllLeaf-same q2 a b r1.same_dependents (AllLeaf-same q2 s a r0.same_dependents l2))
                h2)
              (λ _ c r2. all_run a b c r0 r1 r2)))
  where
    started : Scheduler
    started = record s { thread_state = update s.thread_state thread running_state }

    ended : Scheduler → Scheduler
    ended c = record c { thread_state = update c.thread_state thread (s.thread_state thread) }

    all_run :
        (a b c : Scheduler)
        → RanAll thread 0 q0 started a
        → RanAll thread 1 q1 a b
        → RanAll thread 2 q2 b c
        → RanPinned thread q0 q1 q2 s (ended c)
    all_run a b c r0 r1 r2 = record {
      empty = all_empty;
      in_order = r2.in_order ∙ ap (after q2) (r1.in_order ∙ ap (after q1) r0.in_order);
      all_complete = (
        AllComplete-later q0 c (ended c) (λ t e. e)
            (AllComplete-later q0 b c r2.stays (AllComplete-later q0 a b r1.stays r0.all_complete)),
        AllComplete-later q1 c (ended c) (λ t e. e)
            (AllComplete-later q1 b c r2.stays r1.all_complete),
        AllComplete-later q2 c (ended c) (λ t e. e) (r2.all_complete),
      );
      same_state = ground arith;
    }
      where
        all_empty : (p : ℕ) → p < priority_num → c.pinned p thread ≡ []
        all_empty zero h =
            r2.others 0 thread (inl (λ e. absurd (omega (arith, e))))
            ∙ r1.others 0 thread (inl (λ e. absurd (omega (arith, e))))
            ∙ r0.empty
        all_empty (suc zero) h =
            r2.others 1 thread (inl (λ e. absurd (omega (arith, e)))) ∙ r1.empty
        all_empty (suc (suc zero)) h = r2.empty
        all_empty (suc (suc (suc p))) h = absurd (omega arith)
