-- ===== src/Scheduler/Wake/Suspending.antt =====
-- src/TaskScheduler.cpp, HaveTasks and WaitForNewTasks: a thread suspends only where it has nothing
-- to do.
use enki_ts.Base.{
  ℕ, zero, suc, ap, ◌-◌, ℤ, Bool, ◌↔◌, ◌<◌, ◌≡◌, subst, ◌≢◌, ◌⊎◌, refl, true, false, not, ◌||◌,
  List, [], ◌∷◌, arith, Bool-cases, inl, inr, any_below, any_below-none, any_below-no, pos, negsuc,
  ◌+ℤ◌,
}
use enki_ts.Scheduler.{Scheduler, blocked, priority_num}
use enki_ts.Scheduler.Add.Loop.{Ends}
use enki_ts.Scheduler.Wake.{
  is_nil, have_tasks, wait_for_new_tasks, suspended_with_pinned, wake_new_tasks,
}

-- No pipe holds a piece, and the thread has no pinned task.
pub record Idle (s : Scheduler) (thread : ℕ) : Type 0 where
  pub no_pieces :
      (priority t : ℕ) → priority < priority_num → t < s.num_threads → s.pipes priority t ≡ []
  pub no_pinned : (priority : ℕ) → priority < priority_num → s.pinned priority thread ≡ []

nil_eq : {A : Type 0} (xs : List A) → not (is_nil xs) ≡ false → xs ≡ []
nil_eq [] e = refl
nil_eq (x ∷ xs) e = absurd (ground arith)

-- HaveTasks says no exactly when no pipe holds a piece and the thread has no pinned task.
pub have_tasks-Idle : (s : Scheduler) (thread : ℕ) → (have_tasks s thread ≡ false) ↔ Idle s thread
unfolding have_tasks any_below
have_tasks-Idle s thread = (to, from)
  where
    pieces_in : ℕ → Bool
    pieces_in p = any_below s.num_threads (λ t. not (is_nil (s.pipes p t)))

    row : ℕ → Bool
    row p = pieces_in p || not (is_nil (s.pinned p thread))

    to : have_tasks s thread ≡ false → Idle s thread
    to e = record {
      no_pieces = λ p t hp ht. nil_eq (s.pipes p t) (
          any_below-none s.num_threads (λ t'. not (is_nil (s.pipes p t')))
            (ground (arith, any_below-none priority_num row e p hp)) t ht);
      no_pinned = λ p hp.
          nil_eq (s.pinned p thread) (ground (arith, any_below-none priority_num row e p hp));
    }

    from : Idle s thread → have_tasks s thread ≡ false
    from i = any_below-no priority_num row (λ p hp. ground (
      arith,
      any_below-no s.num_threads (λ t. not (is_nil (s.pipes p t)))
          (λ t ht. rw (i.no_pieces p t hp ht) refl),
      i.no_pinned p hp,
    ))

inc_dec : (z : ℤ) → z +ℤ pos 1 +ℤ negsuc 0 ≡ z
inc_dec (pos n) = ground arith
inc_dec (negsuc zero) = refl
inc_dec (negsuc (suc n)) = ground arith

-- A thread that did not suspend: its state and what there is to do are as before, and it is not
-- counted as waiting.
pub record Resumed (s s' : Scheduler) : Type 0 where
  pub states : (u : ℕ) → s'.thread_state u ≡ s.thread_state u
  pub same_pipes : s'.pipes ≡ s.pipes
  pub same_pinned : s'.pinned ≡ s.pinned
  pub waiters : (s'.waiters ≡ s.waiters) ⊎ (s'.waiters ≡ wake_new_tasks s.waiters)

busy-Resumed :
    (thread : ℕ) (s : Scheduler)
    → have_tasks s thread ≡ true
    → Ends (λ _ s'. Resumed s s') (wait_for_new_tasks thread s)
unfolding wait_for_new_tasks have_tasks
busy-Resumed thread s busy =
    elim (Bool-cases (any_below (s.num_threads - 1) (suspended_with_pinned s thread))) [
      | inl woken ↦
          rw woken (record {
            states = λ u. refl;
            same_pipes = refl;
            same_pinned = refl;
            waiters = inr refl;
          })
      | inr none_woken ↦
          rw (none_woken, busy)
            (record {
              states = λ u. ground arith;
              same_pipes = refl;
              same_pinned = refl;
              waiters =
                  inl (ap (λ z. record s.waiters { new_tasks = z }) (inc_dec s.waiters.new_tasks));
            })
    ]

-- WaitForNewTasks suspends the calling thread only if no pipe holds a piece and the thread has no
-- pinned task.
pub wait_for_new_tasks-Idle :
    (thread : ℕ) (s : Scheduler) → wait_for_new_tasks thread s ≡ blocked → Idle s thread
wait_for_new_tasks-Idle thread s e = elim (Bool-cases (have_tasks s thread)) [
  | inr nothing ↦ (have_tasks-Idle s thread).0 nothing
  | inl busy ↦
      absurd (subst (Ends (λ (_ : Unit {0}) s'. Resumed s s')) e (busy-Resumed thread s busy))
]

-- While a pipe holds a piece, WaitForNewTasks returns: the threads' states, the pipes and the lists
-- are as before, and the count of waiting threads is as before or all of them were woken.
pub wait_for_new_tasks-Resumed :
    (thread priority t : ℕ) (s : Scheduler)
    → priority < priority_num
    → t < s.num_threads
    → s.pipes priority t ≢ []
    → Ends (λ _ s'. Resumed s s') (wait_for_new_tasks thread s)
wait_for_new_tasks-Resumed thread priority t s hp ht some_piece =
    elim (Bool-cases (have_tasks s thread)) [
      | inl busy ↦ busy-Resumed thread s busy
      | inr nothing ↦
          absurd (some_piece (((have_tasks-Idle s thread).0 nothing).no_pieces priority t hp ht))
    ]
