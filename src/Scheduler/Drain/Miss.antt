-- ===== src/Scheduler/Drain/Miss.antt =====
-- TryRunTask on a priority at which no pipe holds a piece and the thread has no pinned task.
use mathlib.Core.Path.{fun_ext}
use enki_ts.Base.{
  ℕ, zero, suc, ◌+◌, ◌%◌, ◌*◌, ◌^◌, ◌≡◌, refl, sym, ap, ◌∙◌, false, not, ◌&&◌, none, arith, List,
  [], ◌==◌, Bool-cases, inl, inr, update,
}
use enki_ts.Scheduler.{SubTaskSet, Scheduler, Run, done, add32, Command, and_then, gets, ◌>>=◌}
use enki_ts.Scheduler.Hash.{hash32}
use enki_ts.Scheduler.Add.{set_pipe}
use enki_ts.Scheduler.Running.{
  try_read_front, try_read_back, run_pinned_tasks_of, steal_loop, or_next, find_other, find_hinted,
  find_sub_task, try_run_task_of,
}

update_self : {A : Type 0} (f : ℕ → A) (i : ℕ) → update f i (f i) ≡ f
update_self f i = fun_ext (λ j. ground arith)

-- A pipe that is written with what it holds.
pub set_pipe_self : (p u : ℕ) (s : Scheduler) → set_pipe p u (s.pipes p u) s ≡ s
set_pipe_self p u s =
    ap (λ (f : ℕ → ℕ → List SubTaskSet). record s { pipes = f })
      (ap (λ (row : ℕ → List SubTaskSet). update s.pipes p row) (update_self (s.pipes p) u)
        ∙ update_self s.pipes p)

set_pipe-nil : (p u : ℕ) (s : Scheduler) → s.pipes p u ≡ [] → set_pipe p u [] s ≡ s
set_pipe-nil p u s e = ap (λ (q : List SubTaskSet). set_pipe p u q s) (sym e) ∙ set_pipe_self p u s

pub bind_done :
    {A B : Type 0} {r : Run A} {a : A} {s : Scheduler} (k : A → Command B)
    → r ≡ done a s
    → and_then r k ≡ k a s
bind_done k e = ap (λ (r : Run _). and_then r k) e

pub read_front_miss :
    (p u : ℕ) (s : Scheduler) → s.pipes p u ≡ [] → try_read_front p u s ≡ done none s
read_front_miss p u s e = rw e (ap (done none) (set_pipe-nil p u s e))

pub read_back_miss :
    (p u : ℕ) (s : Scheduler) → s.pipes p u ≡ [] → try_read_back p u s ≡ done none s
read_back_miss p u s e = rw e (ap (done none) (set_pipe-nil p u s e))

module _ (depth fuel : ℕ) where
  -- The search of the other pipes ends without a piece, and changes nothing.
  steal_loop_miss :
      (left thread p offset first checked at : ℕ) (s : Scheduler)
      → ((u : ℕ) → s.pipes p u ≡ [])
      → (at' : ℕ) × (steal_loop depth fuel left thread p offset first checked at s
          ≡ done (none, at') s)
  unfolding steal_loop
  steal_loop_miss zero thread p offset first checked at s none_there = (at, refl)
  steal_loop_miss (suc left) thread p offset first checked at s none_there =
      let other = add32 offset checked % s.num_threads in
      let (at', e) = steal_loop_miss left thread p offset first (checked + 1) other s none_there in
      (
        at',
        elim (Bool-cases (not (other == thread) && not (offset == first))) [
          | inl look ↦ rw (look, none_there other, set_pipe-nil p other s (none_there other)) e
          | inr skip_it ↦ rw skip_it e
        ],
      )

  -- The state after a search that found nothing.
  abbrev pub reseeded : ℕ → Scheduler → Scheduler
  reseeded thread s = record s { rnd_seed = update s.rnd_seed thread (add32 (s.rnd_seed thread) 1) }

  find_sub_task_miss :
      (thread p hint : ℕ) (s : Scheduler)
      → ((u : ℕ) → s.pipes p u ≡ [])
      → (at : ℕ) × (find_sub_task depth fuel thread p hint s ≡ done (none, at) (reseeded thread s))
  unfolding find_sub_task
  find_sub_task_miss thread p hint s none_there =
      let seed = add32 (s.rnd_seed thread) 1 in
      let first = hint % s.num_threads in
      let (at, e) =
        steal_loop_miss s.num_threads thread p (hash32 (seed * thread % 2 ^ 32)) first 0 first
          (reseeded thread s) none_there in
      (
        at,
        bind_done
              (λ own. gets (λ s'. hint % s'.num_threads) >>= λ f.
                or_next depth fuel f (find_hinted depth fuel thread p f) own)
              (read_front_miss p thread s (none_there thread))
            ∙ bind_done (or_next depth fuel first (find_other depth fuel thread p first))
                (read_back_miss p first s (none_there first))
            ∙ e,
      )

-- RunPinnedTasks where there is nothing to run.
pub run_pinned_tasks_of_none :
    (depth fuel rounds thread p : ℕ) (s : Scheduler)
    → s.pinned p thread ≡ []
    → run_pinned_tasks_of depth fuel (suc rounds) thread p s ≡ done tt s
unfolding run_pinned_tasks_of
run_pinned_tasks_of_none depth fuel rounds thread p s e = ground arith

-- TryRunTask on such a priority finds nothing, keeps the hint, and only moves the seed on.
pub try_run_task_of_miss :
    (depth fuel thread p hint : ℕ) (s : Scheduler)
    → ((u : ℕ) → s.pipes p u ≡ [])
    → s.pinned p thread ≡ []
    → try_run_task_of depth (suc fuel) thread p hint s
      ≡ done (false, hint) (reseeded depth fuel thread s)
unfolding try_run_task_of
try_run_task_of_miss depth fuel thread p hint s none_there no_pinned =
    let (at, e) = find_sub_task_miss depth (suc fuel) thread p hint s none_there in
    rw (run_pinned_tasks_of_none depth (suc fuel) fuel thread p s no_pinned, e)
