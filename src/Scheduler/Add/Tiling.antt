-- ===== src/Scheduler/Add/Tiling.antt =====
-- src/TaskScheduler.cpp, the loop of SplitAndAddTask: it ends, and what it leaves in the pipe and
-- what it executes make up the partition that it was given.
use enki_ts.Base.{
  ℕ, zero, suc, ◌+◌, ◌-◌, ◌≤◌, ◌<◌, ◌≡◌, refl, true, false, arith, ◌==◌, ltb, min, length,
  Bool-cases, inl, inr, list_sum, dec_lt, ◌∙◌,
}
use enki_ts.Scheduler.{
  SubTaskSet, Scheduler, Run, done, blocked, out_of_fuel, priority_num, pipe_size_log2, and_then,
}
use enki_ts.Pipe.{pipe_size}
use enki_ts.Scheduler.Split.{weight, split_task, split_task-eq, weight-tiles, weight-empty, IsRange}
use enki_ts.Scheduler.Add.{add_loop}
use enki_ts.Scheduler.Work.{sub_weight, work, is_piece, pieces}
use enki_ts.Scheduler.Add.Loop.{
  Ends, size_of, Added, parts, pipe_of, written, cut, ran, round-written, round-ran, written-queued,
  ran-queued, ran-work, middle, cut-eq,
}

-- A round took `first` off `sub`, left `rest` and the state `mid`, and the rounds after it ended.
module _ (range added n : ℕ) (sub first rest : SubTaskSet) (s mid s' : Scheduler)
    (tasks : (first.task ≡ sub.task) × (rest.task ≡ sub.task))
    (tiles : (w : ℕ → ℕ)
      → weight w first.partition + weight w rest.partition ≡ weight w sub.partition)
    (work_mid : (w : ℕ → ℕ) (t : ℕ) → work w t mid ≡ work w t s + sub_weight w t first)
    (same : (mid.tasks ≡ s.tasks) × (mid.num_threads ≡ s.num_threads))
    (positive : (0 < range) × (0 < size_of sub)) where
  Added-written :
      ((t : ℕ) → pieces t mid ≡ pieces t s + is_piece t first)
      → size_of rest + min range (size_of sub) ≡ size_of sub
      → Added range rest (added + 1) mid n s'
      → Added range sub added s n s'
  Added-written pieces_mid size d = record {
    total = λ w t. ground (arith, d.total w t, work_mid w t, tiles w);
    counted = λ t. ground (arith, d.counted t, pieces_mid t);
    bound = elim (dec_lt (size_of sub) range) [
      | yes last ↦ let e : n ≡ added + 1 = d.none_left (omega arith) in rw e (omega arith)
      | no more ↦ omega (arith, d.bound)
    ];
    none_left = λ e. absurd (omega arith);
    same_tasks = d.same_tasks ∙ same.0;
    same_threads = d.same_threads ∙ same.1;
  }

  Added-ran :
      ((t : ℕ) → pieces t mid ≡ pieces t s)
      → size_of rest < size_of sub
      → Added range rest added mid n s'
      → Added range sub added s n s'
  Added-ran pieces_mid size d = record {
    total = λ w t. ground (arith, d.total w t, work_mid w t, tiles w);
    counted = λ t. ground (arith, d.counted t, pieces_mid t);
    bound = omega (arith, d.bound);
    none_left = λ e. absurd (omega arith);
    same_tasks = d.same_tasks ∙ same.0;
    same_threads = d.same_threads ∙ same.1;
  }

-- The two parts `p` of a partition that is cut at `m`.
record Cuts (sub : SubTaskSet) (m : ℕ) (p : SubTaskSet × SubTaskSet) : Type 0 where
  same_task : (p.0.task ≡ sub.task) × (p.1.task ≡ sub.task)
  tiles : (w : ℕ → ℕ) → weight w p.0.partition + weight w p.1.partition ≡ weight w sub.partition
  range_left : IsRange p.1.partition
  left : size_of p.1 ≡ sub.partition.end - m

Cuts-parts :
    (sub : SubTaskSet) (m : ℕ) (p : SubTaskSet × SubTaskSet)
    → IsRange sub.partition
    → sub.partition.start ≤ m
    → m ≤ sub.partition.end
    → p ≡ parts sub m
    → Cuts sub m p
Cuts-parts sub m p r lo hi e = rw e (record {
  same_task = (refl, refl);
  tiles = λ w. weight-tiles w sub.partition.start m sub.partition.end lo hi;
  range_left = record { ordered = hi; in_word = r.in_word };
  left = refl;
})

-- One command after another.
pub Ends-bind :
    {A B : Type 0} (P : A → Scheduler → Type 0) (Q : B → Scheduler → Type 0) (r : Run A)
    (k : A → Scheduler → Run B)
    → Ends P r
    → ((a : A) (s : Scheduler) → P a s → Ends Q (k a s))
    → Ends Q (and_then r k)
Ends-bind P Q (done a s) k h f = f a s h
Ends-bind P Q blocked k h f = h
Ends-bind P Q out_of_fuel k h f = h

pub Ends-map :
    {A : Type 0} {P Q : A → Scheduler → Type 0} (r : Run A)
    → ((a : A) (s : Scheduler) → P a s → Q a s)
    → Ends P r
    → Ends Q r
Ends-map (done a s) f h = f a s h
Ends-map blocked f h = h
Ends-map out_of_fuel f h = h

module _ (thread : ℕ) where
  -- What the loop wants of its partition and of the state.
  pub record Fit (sub : SubTaskSet) (s : Scheduler) : Type 0 where
    pub is_range : IsRange sub.partition
    pub runs : 0 < (s.tasks sub.task).range_to_run
    pub priority_ok : (s.tasks sub.task).priority < priority_num
    pub thread_ok : thread < s.num_threads

  Fit-rest :
      (sub rest : SubTaskSet) (s mid : Scheduler)
      → Fit sub s
      → IsRange rest.partition
      → rest.task ≡ sub.task
      → (mid.tasks ≡ s.tasks) × (mid.num_threads ≡ s.num_threads)
      → Fit rest mid
  Fit-rest sub rest s mid f r e (e', e'') = record {
    is_range = r;
    runs = rw (e', e) f.runs;
    priority_ok = rw (e', e) f.priority_ok;
    thread_ok = rw e'' f.thread_ok;
  }

module _ (thread range : ℕ) (hr : 0 < range) where
  split-Cuts :
      (sub : SubTaskSet)
      → IsRange sub.partition
      → Cuts sub (sub.partition.start + min range (size_of sub)) (split_task sub range)
  split-Cuts sub r =
      Cuts-parts sub (sub.partition.start + min range (size_of sub)) (split_task sub range) r
        (omega arith) (omega (arith, r.ordered)) (split_task-eq sub range r)

  cut-Cuts :
      (sub : SubTaskSet) (s : Scheduler)
      → IsRange sub.partition
      → Cuts sub (middle thread range sub s) (cut thread range sub s)
  unfolding middle
  cut-Cuts sub s r =
      Cuts-parts sub (middle thread range sub s) (cut thread range sub s) r (omega arith)
        (omega (arith, r.ordered)) (cut-eq thread range sub s r)

  module _ (sub : SubTaskSet) (added since : ℕ) (s : Scheduler) (fit : Fit thread sub s) where
    open fit use {is_range, priority_ok, thread_ok}

    -- The rounds that are left after a round that wrote to the pipe, or that executed a part.
    Rest : ℕ → SubTaskSet → ℕ → ℕ → Scheduler → Type 0
    Rest fuel rest added' since' mid =
        Fit thread rest mid
        → size_of rest < fuel
        → Ends (Added range rest added' mid) (add_loop fuel thread rest range added' since' mid)

    Ends-last :
        (fuel : ℕ)
        → (sub.partition.start == sub.partition.end) ≡ true
        → Ends (Added range sub added s) (add_loop (suc fuel) thread sub range added since s)
    unfolding add_loop
    Ends-last fuel e = rw e (record {
      total = λ w t. ground (arith, weight-empty w sub.partition);
      counted = λ t. refl;
      bound = omega arith;
      none_left = λ h. refl;
      same_tasks = refl;
      same_threads = refl;
    })

    Ends-written :
        (fuel : ℕ)
        → (sub.partition.start == sub.partition.end) ≡ false
        → ltb (length (pipe_of thread range sub s)) (pipe_size pipe_size_log2) ≡ true
        → size_of sub < suc fuel
        → Rest fuel (split_task sub range).1 (added + 1) (since + 1) (written thread range sub s)
        → Ends (Added range sub added s) (add_loop (suc fuel) thread sub range added since s)
    unfolding Rest list_sum
    Ends-written fuel more room hf ih =
        let (first, rest) = split_task sub range in
        let mid = written thread range sub s in
        let c = split-Cuts sub is_range in
        let some_left : sub.partition.start < sub.partition.end =
          ground (arith, is_range.ordered) in
        let size : size_of rest + min range (size_of sub) ≡ size_of sub = omega (arith, c.left) in
        let queued_mid =
          λ (m : SubTaskSet → ℕ). written-queued thread range sub s m priority_ok thread_ok in
        rw (round-written thread range fuel sub added since s more room) (
          Ends-map (add_loop fuel thread rest range (added + 1) (since + 1) mid)
            (λ n s'.
              Added-written range added n sub first rest s mid s' c.same_task c.tiles
                (λ w t. omega (arith, queued_mid (sub_weight w t))) (refl, refl) (hr, omega arith)
                (λ t. queued_mid (is_piece t)) size)
            (ih (Fit-rest thread sub rest s mid fit c.range_left c.same_task.1 (refl, refl))
              (omega (arith, size))))

    Ends-ran :
        (fuel : ℕ)
        → (sub.partition.start == sub.partition.end) ≡ false
        → ltb (length (pipe_of thread range sub s)) (pipe_size pipe_size_log2) ≡ false
        → size_of sub < suc fuel
        → Rest fuel (cut thread range sub s).1 added 0 (ran thread range sub since s)
        → Ends (Added range sub added s) (add_loop (suc fuel) thread sub range added since s)
    unfolding Rest middle
    Ends-ran fuel more full hf ih =
        let (first, rest) = cut thread range sub s in
        let mid = ran thread range sub since s in
        let c = cut-Cuts sub s is_range in
        let some_left : sub.partition.start < sub.partition.end =
          ground (arith, is_range.ordered) in
        let size : size_of rest < size_of sub = omega (arith, c.left, fit.runs) in
        rw (round-ran thread range fuel sub added since s more full) (
          Ends-map (add_loop fuel thread rest range added 0 mid)
            (λ n s'.
              Added-ran range added n sub first rest s mid s' c.same_task c.tiles
                (λ w t. ran-work thread range sub s w t since priority_ok thread_ok) (refl, refl)
                (hr, omega arith)
                (λ t. ran-queued thread range sub s (is_piece t) since priority_ok thread_ok) size)
            (ih (Fit-rest thread sub rest s mid fit c.range_left c.same_task.1 (refl, refl))
              (omega (arith, size))))

  -- The loop ends, and does what `Added` says.
  pub add_loop-Added :
      (fuel : ℕ) (sub : SubTaskSet) (added since : ℕ) (s : Scheduler)
      → Fit thread sub s
      → size_of sub < fuel
      → Ends (Added range sub added s) (add_loop fuel thread sub range added since s)
  unfolding Rest
  add_loop-Added zero sub added since s fit hf = absurd (omega arith)
  add_loop-Added (suc fuel) sub added since s fit hf =
      elim (Bool-cases (sub.partition.start == sub.partition.end)) [
        | inl last ↦ Ends-last sub added since s fit fuel last
        | inr more ↦
            elim (Bool-cases
              (ltb (length (pipe_of thread range sub s)) (pipe_size pipe_size_log2))) [
                | inl room ↦ Ends-written sub added since s fit fuel more room hf (
                    add_loop-Added fuel (split_task sub range).1 (added + 1) (since + 1)
                      (written thread range sub s))
                | inr full ↦ Ends-ran sub added since s fit fuel more full hf (
                    add_loop-Added fuel (cut thread range sub s).1 added 0
                      (ran thread range sub since s))
              ]
      ]
