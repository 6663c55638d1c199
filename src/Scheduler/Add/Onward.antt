-- ===== src/Scheduler/Add/Onward.antt =====
-- src/TaskScheduler.cpp, the loop of TaskComplete over the dependents: one dependent, when one of the
-- tasks that it waits for completes.
use enki_ts.Base.{
  sym, subst, ℕ_discrete, ℕ, suc, ◌<◌, ◌≡◌, ◌≢◌, refl, ap, ◌∙◌, true, false, arith, List, [], ◌∷◌,
  ◌==◌, not, list_sum, Bool-cases, inl, inr,
}
use enki_ts.Scheduler.{completable, Scheduler, Run, done, Action, and_then, set_task, add32, sub32}
use enki_ts.Scheduler.Add.{on_dependencies_complete, run_dependents, task_complete}
use enki_ts.Scheduler.Add.Launch.{after_complete, task_complete_leaf}
use enki_ts.Scheduler.Add.Joining.{Waits, Joined, Same}

-- The count of one more dependency of `d`, and its reset.
abbrev counted : ℕ → Scheduler → Scheduler
counted d s =
    set_task d
      (record (s.tasks d) {
        dependencies_completed_count = add32 (s.tasks d).dependencies_completed_count 1;
      })
      s

abbrev reset_count : ℕ → Scheduler → Scheduler
reset_count d s = set_task d (record (s.tasks d) { dependencies_completed_count = 0 }) s

-- The loop over the first of the dependents.
run_dependents-more :
    (start : ℕ → ℕ → Action) (d thread : ℕ) (ds : List ℕ) (s : Scheduler)
    → ((s.tasks d).dependencies_count == add32 (s.tasks d).dependencies_completed_count 1) ≡ false
    → run_dependents start (d ∷ ds) thread s ≡ run_dependents start ds thread (counted d s)
unfolding run_dependents
run_dependents-more start d thread ds s e = rw e refl

run_dependents-last :
    (start : ℕ → ℕ → Action) (d thread : ℕ) (ds : List ℕ) (s : Scheduler)
    → ((s.tasks d).dependencies_count == add32 (s.tasks d).dependencies_completed_count 1) ≡ true
    → run_dependents start (d ∷ ds) thread s
      ≡ and_then
          (start d thread (reset_count d (counted d s)))
          (λ _. run_dependents start ds thread)
unfolding run_dependents
run_dependents-last start d thread ds s e = rw e refl

module _ (depth fuel : ℕ) where
  -- `OnDependenciesComplete`
  abbrev pub start : ℕ → ℕ → Action
  start d th s = on_dependencies_complete (task_complete depth fuel) fuel (s.tasks d).kind d th s

  pub task_complete-dependents :
      (t thread : ℕ) (s : Scheduler)
      → task_complete (suc depth) fuel t true thread s
        ≡ run_dependents start (s.tasks t).dependents thread (after_complete t true s)
  unfolding task_complete
  task_complete-dependents t thread s =
      elim (Bool-cases (not ((s.tasks t).waiting_for_task_count == 0))) [
        | inl h ↦ rw h refl
        | inr h ↦ rw h refl
      ]

abbrev lowered : ℕ → Scheduler → Scheduler
lowered d s =
    set_task d (record (s.tasks d) { running_count = sub32 (s.tasks d).running_count 1 }) s

-- A completable on which nothing depends is complete as soon as it is started.
start_leaf :
    (depth fuel d thread : ℕ) (s : Scheduler)
    → (s.tasks d).kind ≡ completable
    → (s.tasks d).dependents ≡ []
    → start (suc depth) fuel d thread s ≡ done tt (after_complete d true (lowered d s))
unfolding on_dependencies_complete
start_leaf depth fuel d thread s e leaf =
    ap (λ kind. on_dependencies_complete (task_complete (suc depth) fuel) fuel kind d thread s) e
    ∙ task_complete_leaf depth fuel d true thread (lowered d s) (ground (arith, leaf))

-- The dependents of all tasks are as before.
abbrev pub SameDependents : Scheduler → Scheduler → Type 0
SameDependents s s' = (x : ℕ) → (s'.tasks x).dependents ≡ (s.tasks x).dependents

-- One dependent `d` that waits for `n` tasks, when one of them completes: what the loop goes on with.
abbrev pub Onward : ℕ → ℕ → ℕ → ℕ → List ℕ → ℕ → Scheduler → Type 0
Onward depth fuel thread d ds n s =
    (m : Scheduler) × (run_dependents (start (suc depth) fuel) (d ∷ ds) thread s
      ≡ run_dependents (start (suc depth) fuel) ds thread m)
    × SameDependents s m
    × ((x : ℕ) → x ≢ d → Same x s m)
    × Joined d n 1 s m

module _ (depth fuel thread d : ℕ) (ds : List ℕ) (s : Scheduler) where
  one_more : (n : ℕ) → 1 < n → Waits d n s → Onward depth fuel thread d ds n s
  unfolding list_sum
  one_more n more w = (
    counted d s,
    run_dependents-more (start (suc depth) fuel) d thread ds s (ground (arith, w.to_go, w.small)),
    (λ x. ground arith),
    (λ x ne. (ground arith, refl)),
    record {
      pending = λ h. (
        record {
          is_completable = ground (arith, w.is_completable);
          leaf = ground (arith, w.leaf);
          to_go = ground (arith, w.to_go, w.small);
          small = ground (arith, w.small);
        },
        record { same_count = ground arith; same_completions = refl },
      );
      started = λ e. absurd (omega arith);
    },
  )

  last_one : Waits d 1 s → Onward depth fuel thread d ds 1 s
  unfolding list_sum
  last_one w =
      let before = reset_count d (counted d s) in
      (
        after_complete d true (lowered d before),
        run_dependents-last (start (suc depth) fuel) d thread ds s
              (ground (arith, w.to_go, w.small))
            ∙ ap
                (λ (r : Run (Unit {0})).
                  and_then r (λ _. run_dependents (start (suc depth) fuel) ds thread))
                (start_leaf depth fuel d thread before (ground (arith, w.is_completable))
                  (ground (arith, w.leaf))),
        (λ x. ground arith),
        (λ x ne. (ground arith, ground arith)),
        record {
          pending = λ h. absurd (omega arith);
          started =
              λ e. record { complete = ground arith; once = ground arith; reset = ground arith };
        },
      )

  pub one-Onward : (n : ℕ) → 0 < n → Waits d n s → Onward depth fuel thread d ds n s
  one-Onward n some w = elim (ℕ_discrete n 1) [
    | yes one ↦
        subst (λ k. Onward depth fuel thread d ds k s) (sym one)
          (last_one (subst (λ k. Waits d k s) one w))
    | no ne ↦ one_more n (omega arith) w
  ]
