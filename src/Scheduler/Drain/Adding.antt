-- ===== src/Scheduler/Drain/Adding.antt =====
-- What SplitAndAddTask and the running of a piece leave alone.
use enki_ts.Base.{
  ℕ, suc, ◌+◌, ◌^◌, ◌≤◌, ◌<◌, ◌≡◌, refl, ◌∙◌, Bool, true, arith, [], ◌==◌, list_sum, Bool-cases,
  inl, inr,
}
use enki_ts.Scheduler.{SubTaskSet, Scheduler, Action, sub32, set_task, task_start_count}
use enki_ts.Scheduler.Add.{add_loop, split_and_add_task}
use enki_ts.Scheduler.Add.Loop.{Ends, size_of, Added}
use enki_ts.Scheduler.Add.Tiling.{Fit, Ends-bind, add_loop-Added}
use enki_ts.Scheduler.Add.Count.{AddedAll, raised, rest_of, Fit-raised, not_last, rest_of-AddedAll}
use enki_ts.Scheduler.Add.Launch.{task_complete_leaf}
use enki_ts.Scheduler.Running.{complete, piece_done}
use enki_ts.Scheduler.Drain.{Frame, Leaves}
use enki_ts.Scheduler.Drain.Rounds.{Ends-both, Frame-trans, add_loop-Frame}

module _ (complete_task : ℕ → Bool → ℕ → Action) (thread priority t range : ℕ)
    (hr : 0 < range) where
  module _ (sub : SubTaskSet) (s : Scheduler) (fit : Fit thread sub s) (fuel : ℕ)
      (enough : size_of sub < fuel) (two : 2 ≤ (s.tasks sub.task).running_count)
      (small : (s.tasks sub.task).running_count + size_of sub + 4 < 2 ^ 31)
      (same_task : sub.task ≡ t) (priority_eq : (s.tasks t).priority ≡ priority) where
    rest_of-Frame :
        (n : ℕ) (m : Scheduler)
        → Added range sub 0 (raised complete_task thread range hr sub s) n m
        → Frame thread priority t s m
        → Leaves
            (λ _ s'. Frame thread priority t s s')
            (rest_of complete_task thread range hr sub n m)
    unfolding rest_of
    rest_of-Frame n m d f =
        rw (not_last complete_task thread range hr sub s fit fuel enough two small n m d) (record {
          others = f.others;
          same_pinned = f.same_pinned;
          same_running = f.same_running;
          good = f.good;
          grows = f.grows;
        })

    -- SplitAndAddTask does what `AddedAll` says and leaves alone what `Frame` says.
    pub split_and_add_task-Frame :
        Ends
          (λ _ s'. AddedAll sub s s' × Frame thread priority t s s')
          (split_and_add_task complete_task fuel thread sub range s)
    unfolding split_and_add_task rest_of
    split_and_add_task-Frame =
        Ends-bind (λ n m. Added range sub 0 raised_s n m × Frame thread priority t raised_s m)
          (λ _ s'. AddedAll sub s s' × Frame thread priority t s s')
          (add_loop fuel thread sub range 0 0 raised_s) (rest_of complete_task thread range hr sub)
          (Ends-both (Added range sub 0 raised_s) (λ _ m. Frame thread priority t raised_s m)
            (add_loop fuel thread sub range 0 0 raised_s)
            (add_loop-Added thread range hr fuel sub 0 0 raised_s fit_raised enough)
            (add_loop-Frame thread priority t range hr fuel sub 0 0 raised_s (record {
              same_task = same_task;
              priority_eq = ground (arith, priority_eq);
              is_range = fit.is_range;
              runs = ground (arith, fit.runs, same_task);
            })))
          (λ n m b.
            Ends-both (λ _ s'. AddedAll sub s s') (λ _ s'. Frame thread priority t s s')
              (rest_of complete_task thread range hr sub n m)
              (rest_of-AddedAll complete_task thread range hr sub s fit fuel enough two small n m
                b.0)
              (rest_of-Frame n m b.0 (lower m b.1)))
      where
        raised_s : Scheduler
        raised_s = raised complete_task thread range hr sub s

        fit_raised : Fit thread sub raised_s
        fit_raised = Fit-raised complete_task thread range hr sub s fit fuel enough two small

        lower : (m : Scheduler) → Frame thread priority t raised_s m → Frame thread priority t s m
        lower m f = record {
          others = f.others;
          same_pinned = f.same_pinned;
          same_running = f.same_running;
          good = f.good;
          grows = f.grows;
        }

-- What the running of a piece keeps of the task and of the other pipes.
pub record Kept (thread priority t : ℕ) (s s' : Scheduler) : Type 0 where
  pub frame : Frame thread priority t s s'
  pub same_task : s'.tasks t ≡ record (s.tasks t) { running_count = (s'.tasks t).running_count }
  pub same_threads : s'.num_threads ≡ s.num_threads

module _ (thread priority t : ℕ) where
  pub Kept-trans :
      (a b c : Scheduler)
      → Kept thread priority t a b
      → Kept thread priority t b c
      → Kept thread priority t a c
  Kept-trans a b c f g = record {
    frame = Frame-trans thread priority t a b c f.frame g.frame;
    same_task = ground (arith, f.same_task, g.same_task);
    same_threads = g.same_threads ∙ f.same_threads;
  }

  -- What follows an ExecuteRange keeps all that.
  pub piece_done-Kept :
      (depth fuel by : ℕ) (m : Scheduler)
      → (m.tasks t).dependents ≡ []
      → Leaves (λ _ s'. Kept thread priority t m s') (piece_done (suc depth) fuel t by m)
  unfolding complete list_sum
  piece_done-Kept depth fuel by m leaf =
      elim (Bool-cases (task_start_count == (m.tasks t).running_count)) [
        | inl last ↦
            rw (last, task_complete_leaf depth fuel t true by down (ground (arith, leaf)))
              (record {
                frame = record {
                  others = λ p u ne. refl;
                  same_pinned = refl;
                  same_running = refl;
                  good = λ g. g;
                  grows = omega arith;
                };
                same_task = ground arith;
                same_threads = refl;
              })
        | inr more ↦ rw more (record {
          frame = record {
            others = λ p u ne. refl;
            same_pinned = refl;
            same_running = refl;
            good = λ g. g;
            grows = omega arith;
          };
          same_task = ground arith;
          same_threads = refl;
        })
      ]
    where
      down : Scheduler
      down = set_task t (record (m.tasks t) { running_count = sub32 (m.tasks t).running_count 1 }) m
