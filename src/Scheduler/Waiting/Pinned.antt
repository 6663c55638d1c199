-- ===== src/Scheduler/Waiting/Pinned.antt =====
-- src/TaskScheduler.cpp, AddPinnedTaskInt and WaitForNewPinnedTasks: a thread does not sleep over a
-- pinned task.
use enki_ts.Base.{
  ℕ, ◌<◌, ◌≡◌, refl, true, false, not, List, [], ◌∷◌, ◌++◌, arith, ◌==◌, Bool-cases, inl, inr,
  any_below-some,
}
use enki_ts.Scheduler.{Scheduler, wait_new_pinned_tasks, priority_num}
use enki_ts.Scheduler.Wake.{is_nil, wait_pinned_semaphore, wake_threads_for_new_tasks}
use enki_ts.Scheduler.Add.{add_pinned_task_int, is_waiting_for_pinned}
use enki_ts.Scheduler.Add.Loop.{Ends}
use enki_ts.Scheduler.Waiting.{wait_for_new_pinned_tasks}

-- The thread `n` gets past WaitForNewPinnedTasks, and past the semaphore if it already waits there.
pub record Wakes (n : ℕ) (s s' : Scheduler) : Type 0 where
  pub not_put_to_sleep :
      Ends
        (λ _ s''. (u : ℕ) → s''.thread_state u ≡ s'.thread_state u)
        (wait_for_new_pinned_tasks n s')
  pub woken :
      s.thread_state n ≡ wait_new_pinned_tasks
      → Ends (λ _ s''. s''.pinned ≡ s'.pinned) (wait_pinned_semaphore n s')

not_nil : (xs : List ℕ) (t : ℕ) → not (is_nil (xs ++ t ∷ [])) ≡ true
not_nil [] t = refl
not_nil (x ∷ xs) t = refl

-- A thread with a pinned task does not go to sleep.
stays_awake :
    (n priority : ℕ) (s : Scheduler)
    → priority < priority_num
    → not (is_nil (s.pinned priority n)) ≡ true
    → Ends
        (λ _ s''. (u : ℕ) → s''.thread_state u ≡ s.thread_state u)
        (wait_for_new_pinned_tasks n s)
unfolding wait_for_new_pinned_tasks
stays_awake n priority s h some_task =
    rw (any_below-some priority_num (λ p. not (is_nil (s.pinned p n))) priority h some_task)
      (λ u. ground arith)

-- A wait on a count that is not 0 ends.
takes :
    (n : ℕ) (s : Scheduler)
    → (s.waiters.pinned_semaphore n == 0) ≡ false
    → Ends (λ _ s''. s''.pinned ≡ s.pinned) (wait_pinned_semaphore n s)
unfolding wait_pinned_semaphore
takes n s e = rw e refl

-- After AddPinnedTaskInt the thread of the task is not put to sleep by WaitForNewPinnedTasks, and is
-- woken if it sleeps there already.
pub add_pinned_task_int-Wakes :
    (t : ℕ) (s : Scheduler)
    → (s.tasks t).priority < priority_num
    → Ends (λ _ s'. Wakes (s.tasks t).thread_num s s') (add_pinned_task_int t s)
unfolding add_pinned_task_int wake_threads_for_new_tasks
add_pinned_task_int-Wakes t s h = elim (Bool-cases (is_waiting_for_pinned (s.thread_state n))) [
  | inl waiting ↦ rw waiting (record {
    not_put_to_sleep =
        stays_awake n (s.tasks t).priority _ h
          (ground (arith, not_nil (s.pinned (s.tasks t).priority n) t));
    woken = λ e. takes n _ (ground arith);
  })
  | inr other ↦ rw other (record {
    not_put_to_sleep =
        stays_awake n (s.tasks t).priority _ h
          (ground (arith, not_nil (s.pinned (s.tasks t).priority n) t));
    woken = λ e. absurd (ground arith);
  })
]
  where
    n : ℕ
    n = (s.tasks t).thread_num
