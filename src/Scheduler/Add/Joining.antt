-- ===== src/Scheduler/Add/Joining.antt =====
-- src/TaskScheduler.cpp, TaskComplete: a task that depends on several others runs when the last of
-- them completes.
use enki_ts.Base.{
  ◌-◌, sym, subst, ℕ, ◌+◌, ◌^◌, ◌<◌, ◌≡◌, ap, ◌∙◌, true, arith, List, [], ◌∷◌, ◌==◌, if◌then◌else◌,
  list_sum,
}
use enki_ts.Scheduler.{Event, completed, completable, Scheduler, Task, Action, ◌>>◌, skip}
use enki_ts.Scheduler.Add.{task_complete}

abbrev is_completion : ℕ → Event → ℕ
is_completion d (completed t) = if t == d then 1 else 0
is_completion d _ = 0

-- How often task `d` was completed.
abbrev pub completions : ℕ → Scheduler → ℕ
completions d s = list_sum (is_completion d) s.log

-- TaskComplete on each of the tasks, in the order of the list.
abbrev pub complete_each : ℕ → ℕ → List ℕ → ℕ → Action
complete_each depth fuel [] thread = skip
complete_each depth fuel (t ∷ ts) thread =
    task_complete depth fuel t true thread >> complete_each depth fuel ts thread

-- A completable on which nothing depends, that waits for `left` more of `m` tasks.
pub record Waits (d left : ℕ) (s : Scheduler) : Type 0 where
  pub is_completable : (s.tasks d).kind ≡ completable
  pub leaf : (s.tasks d).dependents ≡ []
  pub to_go : (s.tasks d).dependencies_completed_count + left ≡ (s.tasks d).dependencies_count
  pub small : (s.tasks d).dependencies_count < 2 ^ 31

-- Completions after which task `d` still waits: it was not touched otherwise.
pub record Pending (d : ℕ) (s s' : Scheduler) : Type 0 where
  pub same_count : (s'.tasks d).running_count ≡ (s.tasks d).running_count
  pub same_completions : completions d s' ≡ completions d s

-- Completions after which it is complete, once more than before, and its count of completed
-- dependencies starts again.
pub record Started (d : ℕ) (s s' : Scheduler) : Type 0 where
  pub complete : (s'.tasks d).running_count ≡ 0
  pub once : completions d s' ≡ completions d s + 1
  pub reset : (s'.tasks d).dependencies_completed_count ≡ 0

-- What is known of `d`, which waited for `n` tasks, when `finished` of them are complete.
pub record Joined (d n finished : ℕ) (s s' : Scheduler) : Type 0 where
  pub pending : finished < n → Waits d (n - finished) s' × Pending d s s'
  pub started : finished ≡ n → Started d s s'

-- Task `x` was not touched.
abbrev pub Same : ℕ → Scheduler → Scheduler → Type 0
Same x s s' = (s'.tasks x ≡ s.tasks x) × (completions x s' ≡ completions x s)

pub Waits-Same : (x left : ℕ) (s s' : Scheduler) → Same x s s' → Waits x left s → Waits x left s'
Waits-Same x left s s' (e, _) w = record {
  is_completable = ap (λ (task : Task). task.kind) e ∙ w.is_completable;
  leaf = ap (λ (task : Task). task.dependents) e ∙ w.leaf;
  to_go =
      ap (λ (task : Task). task.dependencies_completed_count + left) e
      ∙ w.to_go
      ∙ sym (ap (λ (task : Task). task.dependencies_count) e);
  small = subst (λ (task : Task). task.dependencies_count < 2 ^ 31) (sym e) w.small;
}

pub Started-Same : (x : ℕ) (s m s' : Scheduler) → Started x s m → Same x m s' → Started x s s'
Started-Same x s m s' st (e, same) = record {
  complete = ap (λ (task : Task). task.running_count) e ∙ st.complete;
  once = same ∙ st.once;
  reset = ap (λ (task : Task). task.dependencies_completed_count) e ∙ st.reset;
}

pub Same-Joined :
    (x n k : ℕ) (s m s' : Scheduler) → Same x s m → Joined x n k m s' → Joined x n k s s'
Same-Joined x n k s m s' (e, same) j = record {
  pending = λ h.
      let (w, p) = j.pending h in
      (
        w,
        record {
          same_count = p.same_count ∙ ap (λ (task : Task). task.running_count) e;
          same_completions = p.same_completions ∙ same;
        },
      );
  started = λ h.
      let st = j.started h in
      record { complete = st.complete; once = omega (arith, st.once, same); reset = st.reset };
}

pub Joined-Same :
    (x n k : ℕ) (s m s' : Scheduler) → Joined x n k s m → Same x m s' → Joined x n k s s'
Joined-Same x n k s m s' j (e, same) = record {
  pending = λ h.
      let (w, p) = j.pending h in
      (
        Waits-Same x (n - k) m s' (e, same) w,
        record {
          same_count = ap (λ (task : Task). task.running_count) e ∙ p.same_count;
          same_completions = same ∙ p.same_completions;
        },
      );
  started = λ h. Started-Same x s m s' (j.started h) (e, same);
}

-- First one and then `k` more.
pub Joined-later :
    (x n k : ℕ) (s m s' : Scheduler)
    → 1 < n
    → Joined x n 1 s m
    → Joined x (n - 1) k m s'
    → Joined x n (1 + k) s s'
Joined-later x n k s m s' more first j = record {
  pending = λ h.
      let (w, q) = j.pending (omega arith) in
      let p = (first.pending more).1 in
      (
        subst (λ left. Waits x left s') (omega arith) w,
        record {
          same_count = q.same_count ∙ p.same_count;
          same_completions = q.same_completions ∙ p.same_completions;
        },
      );
  started = λ e.
      let st = j.started (omega arith) in
      let p = (first.pending more).1 in
      record {
        complete = st.complete;
        once = omega (arith, st.once, p.same_completions);
        reset = st.reset;
      };
}
