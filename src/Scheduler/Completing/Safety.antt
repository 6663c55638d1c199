-- ===== src/Scheduler/Completing/Safety.antt =====
-- What holds of the threads that wait for tasks to complete, in every state that they can reach.
use enki_ts.Base.{
  ℕ, ◌+◌, ◌≤◌, ◌<◌, ◌≡◌, refl, none, arith, ◌==◌, if◌then◌else◌, true, false, update, pos, ◌+ℤ◌,
  inl, inr, Bool-cases, sum_below-zero,
}
use enki_ts.Scheduler.{task_start_count, task_almost_complete_count}
use enki_ts.Scheduler.Sleep.Invariant.{more}
use enki_ts.Scheduler.Completing.{
  Pc, working, enter, scan, leave, asleep, load, swap, look, store, System, idle, Step, access,
  found_tasks, found_none, wait, last, last_adding, counts, start, wake, spurious, Reach, begin,
  later,
}
use enki_ts.Scheduler.Completing.Counts.{
  counted, pending, registered, inside, unaware, completes, wakes, sleeps, stuck, all, all_mono,
  sleeps-stuck,
}
use enki_ts.Scheduler.Completing.Invariant.{Inv, recounted, turned}
use enki_ts.Scheduler.Completing.Moves.{passed, move-Inv}

module _ (n : ℕ) where
  idle-Inv : Inv n idle
  idle-Inv = record {
    conserved = omega (arith, sum_below-zero n (λ i. 0) (λ i h. refl));
    registers = λ k. sum_below-zero n (λ i. 0) (λ i h. refl);
    single = λ k. omega (arith, sum_below-zero n (λ i. 0) (λ i h. refl));
    seen = λ k h. sum_below-zero n (λ i. 0) (λ i h'. refl);
    woken = λ e. omega (arith, sum_below-zero n (λ i. 0) (λ i h. refl));
  }

  module _ (s : System) (inv : Inv n s) where
    -- A change of the count of a task that no thread is completing.
    counting :
        (t v : ℕ)
        → (s.count t == 1) ≡ false
        → 0 < v
        → Inv n (record s { count = update s.count t v })
    counting t v not_one positive =
        recounted n s inv t v (ground (arith, inv.single t)) (inl positive)

    -- A thread that takes the count of a task to gc_TaskAlmostCompleteCount starts to complete it.
    completing :
        (i t : ℕ) (q : Pc)
        → i < n
        → s.threads i ≡ working
        → s.count t ≡ task_start_count
        → ((k : ℕ)
            → (completes k q ≡ completes k (look t))
              × (unaware k q ≡ 0)
              × (inside k q ≡ 0)
              × (registered k q ≡ 0))
        → (pending q ≡ 0) × (counted q ≡ 0) × ((c : ℕ → ℕ) → (wakes c q ≡ 0) × (stuck c q ≡ 0))
        → Inv n (record s {
          count = update s.count t task_almost_complete_count;
          threads = update s.threads i q;
        })
    completing i t q h e two at tally =
        turned n near (counting t task_almost_complete_count (ground arith) (omega arith)) i h
          working q s.waiting s.semaphore s.waiters e
          (record {
            balance = omega (arith, tally.0, tally.1);
            registers = λ k. omega (arith, at k);
            single = λ k. elim (Bool-cases (k == t)) [
              | inl it ↦ inr (ground (arith, inv.single k, at k))
              | inr other ↦ inl (ground (arith, at k))
            ];
            seen = λ k. inl (omega (arith, at k), omega (arith, at k));
            woken = inl (omega arith, omega (arith, tally.1, tally.2 near.count));
          })
      where
        near : System
        near = record s { count = update s.count t task_almost_complete_count }

  Step-Inv : {s s' : System} → Step n s s' → Inv n s → Inv n s'
  Step-Inv {s} (access i h) inv = move-Inv n s inv i h (s.threads i) refl
  Step-Inv {s} (found_tasks i t h e) inv =
      passed n s inv i h (scan t) (leave t) s.waiting s.semaphore s.waiters e (omega arith)
        (λ k. refl) (λ k. omega arith) (inl (omega arith))
  Step-Inv {s} (found_none i t h e) inv =
      passed n s inv i h (scan t) (asleep t) s.waiting s.semaphore s.waiters e (omega arith)
        (λ k. refl) (λ k. omega arith) (inl (omega arith))
  Step-Inv {s} (wait i t h e) inv =
      passed n s inv i h working (enter t) (s.waiting +ℤ pos 1) s.semaphore s.waiters e
        (omega (arith, more s.waiting)) (λ k. refl) (λ k. omega arith)
        (inl (omega (arith, more s.waiting)))
  Step-Inv {s} (last i t h e two) inv =
      completing s inv i t (look t) h e two (λ k. (refl, refl, refl, refl))
        (refl, refl, λ c. (refl, refl))
  Step-Inv {s} (last_adding i t h e two) inv =
      completing s inv i t (store t true) h e two (λ k. (refl, refl, refl, refl))
        (refl, refl, λ c. (refl, refl))
  Step-Inv {s} (counts t m h) inv =
      counting s inv t (task_start_count + m) (ground arith) (omega arith)
  Step-Inv {s} (start t e) inv = counting s inv t task_start_count (ground arith) (omega arith)
  Step-Inv {s} (wake i h e) inv =
      passed n s inv i h working (load none) s.waiting s.semaphore s.waiters e (omega arith)
        (λ k. refl) (λ k. omega arith) (inl (omega arith))
  Step-Inv {s} (spurious i v o h e) inv =
      passed n s inv i h (swap o v) (load o) s.waiting s.semaphore s.waiters e (omega arith)
        (λ k. refl) (λ k. omega arith) (inl (omega arith))

  Reach-Inv : {s : System} → Reach n s → Inv n s
  Reach-Inv begin = idle-Inv
  Reach-Inv (later r st) = Step-Inv st (Reach-Inv r)

  -- In every reachable state, m_WaitingForTaskCount of a task counts the threads in
  -- WaitForTaskCompletion for it, and at most one thread completes it, with m_RunningCount at
  -- gc_TaskAlmostCompleteCount.
  pub completed_by_one :
      (s : System) (t : ℕ)
      → Reach n s
      → (all n (registered t) s.threads ≡ s.waiters t)
        × (all n (completes t) s.threads
            ≤ (if s.count t == task_almost_complete_count then 1 else 0))
  completed_by_one s t r = ((Reach-Inv r).registers t, (Reach-Inv r).single t)

  -- No wake of a completion is lost: in every reachable state in which no thread is about to wake
  -- others, there is a count of the semaphore or a wake on its way for each thread that sleeps
  -- although the task that it waits for is complete.
  pub no_lost_completion :
      (s : System)
      → Reach n s
      → ((i : ℕ) → i < n → wakes s.count (s.threads i) ≡ 0)
      → all n (sleeps s.count) s.threads ≤ s.semaphore + all n pending s.threads
  no_lost_completion s r none_wakes =
      let inv = Reach-Inv r in
      omega (
        arith,
        inv.conserved,
        inv.woken (sum_below-zero n (λ i. wakes s.count (s.threads i)) none_wakes),
        all_mono n (sleeps s.count) (stuck s.count) s.threads (sleeps-stuck s.count),
      )
