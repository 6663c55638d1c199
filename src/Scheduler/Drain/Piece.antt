-- ===== src/Scheduler/Drain/Piece.antt =====
-- What the running of one piece leaves alone, and that it executes an index.
use enki_ts.Base.{
  ℕ, suc, ◌+◌, ◌^◌, ◌<◌, ◌≡◌, refl, ap, ◌∙◌, arith, [], ◌∷◌, ltb, list_sum, Bool-cases, inl, inr,
}
use enki_ts.Scheduler.{
  SubTaskSet, Scheduler, Run, Task, done, blocked, out_of_fuel, sub32, executed, and_then,
}
use enki_ts.Scheduler.Split.{weight, weight-one}
use enki_ts.Scheduler.Add.{split_and_add_task, task_complete}
use enki_ts.Scheduler.Add.Loop.{Ends, size_of}
use enki_ts.Scheduler.Add.Tiling.{Fit}
use enki_ts.Scheduler.Add.Count.{AddedAll}
use enki_ts.Scheduler.Work.{pieces}
use enki_ts.Scheduler.Running.{complete, run_sub_task, piece_done}
use enki_ts.Scheduler.Running.Piece.{
  Settled, run_sub_task-Settled, first, rest, range, range_pos, middle_eq, Fit-rest, rest_of,
}
use enki_ts.Scheduler.Drain.{executed_size, Frame, Leaves}
use enki_ts.Scheduler.Drain.Rounds.{Ends-both, Leaves-map, Frame-refl}
use enki_ts.Scheduler.Drain.Adding.{split_and_add_task-Frame, Kept, Kept-trans, piece_done-Kept}

pub Leaves-bind :
    {A B : Type 0} (P : A → Scheduler → Type 0) (Q : B → Scheduler → Type 0) (r : Run A)
    (k : A → Scheduler → Run B)
    → Ends P r
    → ((a : A) (s : Scheduler) → P a s → Leaves Q (k a s))
    → Leaves Q (and_then r k)
Leaves-bind P Q (done a s) k h f = f a s h
Leaves-bind P Q blocked k h f = tt
Leaves-bind P Q out_of_fuel k h f = tt

-- A run that keeps what `Kept` says and executes an index of the task.
pub record Ran (thread priority t : ℕ) (s s' : Scheduler) : Type 0 where
  pub kept : Kept thread priority t s s'
  pub more : executed_size t s < executed_size t s'

module _ (depth fuel thread found : ℕ) (sub : SubTaskSet) (s : Scheduler) (fit : Fit thread sub s)
    (leaf : (s.tasks sub.task).dependents ≡ [])
    (counted : (s.tasks sub.task).running_count ≡ 2 + pieces sub.task s)
    (small : pieces sub.task s + size_of sub + 8 < 2 ^ 31) (enough : size_of sub < fuel)
    (some_index : sub.partition.start < sub.partition.end) where
  priority : ℕ
  priority = (s.tasks sub.task).priority

  -- An ExecuteRange on part of the piece, and what follows it.
  execute-Ran :
      (m : Scheduler) (x : SubTaskSet)
      → Kept thread priority sub.task s m
      → x.task ≡ sub.task
      → x.partition.start < x.partition.end
      → Leaves
          (λ _ s'. Ran thread priority sub.task s s')
          (piece_done
            (suc depth)
            fuel
            sub.task
            thread
            (record m { log = executed sub.task x.partition thread ∷ m.log }))
  unfolding list_sum priority
  execute-Ran m x k e some =
      Leaves-map (λ _ s'. Kept thread priority sub.task logged s')
        (λ _ s'. Ran thread priority sub.task s s')
        (piece_done (suc depth) fuel sub.task thread logged)
        (λ _ s' d. record {
          kept = Kept-trans thread priority sub.task s logged s' k_logged d;
          more = ground (arith, k.frame.grows, d.frame.grows, weight-one x.partition);
        })
        (piece_done-Kept thread priority sub.task depth fuel thread logged
          (ap (λ (task : Task). task.dependents) k.same_task ∙ ground (arith, leaf)))
    where
      logged : Scheduler
      logged = record m { log = executed sub.task x.partition thread ∷ m.log }

      k_logged : Kept thread priority sub.task s logged
      k_logged = record {
        frame = record {
          others = k.frame.others;
          same_pinned = k.frame.same_pinned;
          same_running = k.frame.same_running;
          good = k.frame.good;
          grows = omega (arith, k.frame.grows);
        };
        same_task = k.same_task;
        same_threads = k.same_threads;
      }

  abbrev part : SubTaskSet
  part = first depth fuel thread found sub s fit leaf counted small enough

  abbrev left : SubTaskSet
  left = rest depth fuel thread found sub s fit leaf counted small enough

  abbrev by_range : ℕ
  by_range = range depth fuel thread found sub s fit leaf counted small enough

  Kept-split :
      (m : Scheduler)
      → AddedAll left s m × Frame thread priority sub.task s m
      → Kept thread priority sub.task s m
  unfolding priority
  Kept-split m (d, f) = record { frame = f; same_task = d.same_task; same_threads = d.same_threads }

  run_sub_task-Ran :
      Leaves
        (λ _ s'. Ran thread priority sub.task s s')
        (run_sub_task (suc depth) fuel thread found sub s)
  unfolding run_sub_task complete priority rest_of
  run_sub_task-Ran =
      elim (Bool-cases
        (ltb (s.tasks sub.task).range_to_run (sub32 sub.partition.end sub.partition.start))) [
          | inl large ↦
              rw (middle_eq depth fuel thread found sub s fit leaf counted small enough, large)
                (Leaves-bind (λ _ m. AddedAll left s m × Frame thread priority sub.task s m)
                  (λ _ s'. Ran thread priority sub.task s s')
                  (split_and_add_task (task_complete (suc depth) fuel) fuel thread left by_range s)
                  (λ _. rest_of depth fuel thread found sub s fit leaf counted small enough)
                  (split_and_add_task-Frame (task_complete (suc depth) fuel) thread priority
                    sub.task by_range
                    (range_pos depth fuel thread found sub s fit leaf counted small enough) left s
                    (Fit-rest depth fuel thread found sub s fit leaf counted small enough) fuel
                    (omega (arith, enough)) (omega (arith, counted)) (omega (arith, counted, small))
                    refl refl)
                  (λ _ m b.
                    execute-Ran m part (Kept-split m b) refl (omega (arith, fit.runs, some_index))))
          | inr small_enough ↦ rw small_enough (
              execute-Ran s sub
                (record {
                  frame = Frame-refl thread priority sub.task s;
                  same_task = refl;
                  same_threads = refl;
                })
                refl some_index)
        ]

  -- Running a piece just taken from a pipe does what `Settled` says, leaves alone what `Frame` says,
  -- and executes at least one index.
  pub run_sub_task-Settled-Ran :
      Ends
        (λ _ s'.
          Settled sub.task (λ w. weight w sub.partition) s s'
          × Ran thread (s.tasks sub.task).priority sub.task s s')
        (run_sub_task (suc depth) fuel thread found sub s)
  unfolding priority
  run_sub_task-Settled-Ran =
      Ends-both (λ _ s'. Settled sub.task (λ w. weight w sub.partition) s s')
        (λ _ s'. Ran thread priority sub.task s s')
        (run_sub_task (suc depth) fuel thread found sub s)
        (run_sub_task-Settled depth fuel thread found sub s fit leaf counted small enough)
        run_sub_task-Ran
