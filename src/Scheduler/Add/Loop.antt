-- ===== src/Scheduler/Add/Loop.antt =====
-- src/TaskScheduler.cpp, one round of the loop of SplitAndAddTask, on each of its branches.
use enki_ts.Base.{
  ℕ, suc, ◌+◌, ◌-◌, ◌*◌, ◌<◌, ◌≡◌, ap, true, false, List, [], ◌∷◌, ◌++◌, arith, ◌==◌, ltb,
  if◌then◌else◌, min, length, Bool-cases, inl, inr, list_sum, list_sum-append, list_sum-one, ltb→lt,
}
use enki_ts.Scheduler.{
  SubTaskSet, executed, Scheduler, Run, done, blocked, out_of_fuel, priority_num, pipe_size_log2,
  add32, sub32,
}
use enki_ts.Pipe.{pipe_size}
use enki_ts.Scheduler.Split.{split_task, split_task-eq, IsRange}
use enki_ts.Scheduler.Wake.{wake_new_tasks}
use enki_ts.Scheduler.Add.{set_pipe, cut_to_run, add_loop}
use enki_ts.Scheduler.Work.{sub_weight, queued, work, pieces, queued-set_pipe}

-- A run that ends, in a state with the property.
abbrev pub Ends : {A : Type 0} → (A → Scheduler → Type 0) → Run A → Type 0
Ends P (done a s) = P a s
Ends P blocked = ⊥
Ends P out_of_fuel = ⊥

abbrev pub size_of : SubTaskSet → ℕ
size_of sub = sub.partition.end - sub.partition.start

-- A partition cut in two.
abbrev pub parts : SubTaskSet → ℕ → SubTaskSet × SubTaskSet
parts sub middle = (
  record sub { partition = record { start = sub.partition.start; end = middle } },
  record sub { partition = record { start = middle; end = sub.partition.end } },
)

-- What the loop has done when it ends with `n` added, begun at `s` with `added` and the rest `sub`.
pub record Added (range : ℕ) (sub : SubTaskSet) (added : ℕ) (s : Scheduler) (n : ℕ) (s' : Scheduler)
    : Type 0 where
  pub total : (w : ℕ → ℕ) (t : ℕ) → work w t s' ≡ work w t s + sub_weight w t sub
  pub counted :
      (t : ℕ)
      → pieces t s' + (if sub.task == t then added else 0)
        ≡ pieces t s + (if sub.task == t then n else 0)
  pub bound : n * range < added * range + size_of sub + range
  pub none_left : size_of sub ≡ 0 → n ≡ added
  pub same_tasks : s'.tasks ≡ s.tasks
  pub same_threads : s'.num_threads ≡ s.num_threads

module _ (thread range : ℕ) where
  abbrev pub pipe_of : SubTaskSet → Scheduler → List SubTaskSet
  pipe_of sub s = s.pipes (s.tasks sub.task).priority thread

  -- The state after a round that wrote to the pipe.
  abbrev pub written : SubTaskSet → Scheduler → Scheduler
  written sub s =
      set_pipe (s.tasks sub.task).priority thread (pipe_of sub s ++ (split_task sub range).0 ∷ []) s

  -- The part that a round executes, and the state after it, where the pipe is full.
  abbrev pub cut : SubTaskSet → Scheduler → SubTaskSet × SubTaskSet
  cut sub s =
      let (add, rest) = split_task sub range in cut_to_run (s.tasks add.task).range_to_run add rest

  abbrev pub ran : SubTaskSet → ℕ → Scheduler → Scheduler
  ran sub since s =
      let s' = set_pipe (s.tasks sub.task).priority thread (pipe_of sub s) s in
      record s' {
        waiters = if ltb 1 (since + 1) then wake_new_tasks s.waiters else s.waiters;
        log = executed (cut sub s).0.task (cut sub s).0.partition thread ∷ s.log;
      }

  pub round-written :
      (fuel : ℕ) (sub : SubTaskSet) (added since : ℕ) (s : Scheduler)
      → (sub.partition.start == sub.partition.end) ≡ false
      → ltb (length (pipe_of sub s)) (pipe_size pipe_size_log2) ≡ true
      → add_loop (suc fuel) thread sub range added since s
        ≡ add_loop fuel thread
            (split_task sub range).1
            range
            (added + 1)
            (since + 1)
            (written sub s)
  unfolding add_loop
  round-written fuel sub added since s more room = rw (more, room)

  pub round-ran :
      (fuel : ℕ) (sub : SubTaskSet) (added since : ℕ) (s : Scheduler)
      → (sub.partition.start == sub.partition.end) ≡ false
      → ltb (length (pipe_of sub s)) (pipe_size pipe_size_log2) ≡ false
      → add_loop (suc fuel) thread sub range added since s
        ≡ add_loop fuel thread (cut sub s).1 range added 0 (ran sub since s)
  unfolding add_loop
  round-ran fuel sub added since s more full = elim (Bool-cases (ltb 1 (since + 1))) [
    | inl wake ↦ rw (more, full, wake)
    | inr no_wake ↦ rw (more, full, no_wake)
  ]

  module _ (sub : SubTaskSet) (s : Scheduler) where
    pub written-queued :
        (m : SubTaskSet → ℕ)
        → (s.tasks sub.task).priority < priority_num
        → thread < s.num_threads
        → queued m (written sub s) ≡ queued m s + m (split_task sub range).0
    written-queued m hp ht = omega (
      arith,
      queued-set_pipe m (s.tasks sub.task).priority thread
          (pipe_of sub s ++ (split_task sub range).0 ∷ []) s hp ht,
      list_sum-append m (pipe_of sub s) ((split_task sub range).0 ∷ []),
      list_sum-one m (split_task sub range).0,
    )

    pub ran-queued :
        (m : SubTaskSet → ℕ) (since : ℕ)
        → (s.tasks sub.task).priority < priority_num
        → thread < s.num_threads
        → queued m (ran sub since s) ≡ queued m s
    ran-queued m since hp ht =
        omega (arith, queued-set_pipe m (s.tasks sub.task).priority thread (pipe_of sub s) s hp ht)

    pub ran-work :
        (w : ℕ → ℕ) (t since : ℕ)
        → (s.tasks sub.task).priority < priority_num
        → thread < s.num_threads
        → work w t (ran sub since s) ≡ work w t s + sub_weight w t (cut sub s).0
    unfolding list_sum
    ran-work w t since hp ht = omega (arith, ran-queued (sub_weight w t) since hp ht)

    -- Where the executed part ends.
    unfoldable pub middle : ℕ
    middle = sub.partition.start + min (s.tasks sub.task).range_to_run (min range (size_of sub))

    pub cut-eq : IsRange sub.partition → cut sub s ≡ parts sub middle
    unfolding middle
    cut-eq r = rw (split_task-eq sub range r) (elim (Bool-cases (ltb run first)) [
      | inl e ↦ rw e (
          let m : add32 sub.partition.start run
              ≡ sub.partition.start + min run (min range (size_of sub)) =
            omega (arith, r.ordered, r.in_word, ltb→lt run first e, small) in
          rw m)
      | inr e ↦ rw e (
          let m : min range (size_of sub) ≡ min run (min range (size_of sub)) =
            ground (arith, r.ordered, r.in_word, small) in
          ap (λ (k : ℕ). parts sub (sub.partition.start + k)) m)
    ])
      where
        run : ℕ
        run = (s.tasks sub.task).range_to_run

        first : ℕ
        first = sub32 (sub.partition.start + min range (size_of sub)) sub.partition.start

        small : first ≡ min range (size_of sub)
        small = omega (arith, r.ordered, r.in_word)
