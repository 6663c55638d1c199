-- ===== src/Example/ParallelSum.antt =====
-- src/example/ParallelSum.cpp: ParallelSumTaskSet, a task set that sums numbers with one partial sum for each
-- thread, and ParallelReductionSumTaskSet, which adds the partial sums. A uint64_t is a natural number
-- with `% 2 ^ 64` written out.
use enki_ts.Base.{
  ℕ, zero, suc, ◌+◌, ◌-◌, ◌%◌, ◌^◌, ◌<◌, ◌≡◌, ◌==◌, refl, ap, Bool-cases, inl, inr, arith, List, [],
  ◌∷◌, if◌then◌else◌, update, sum_below, sum_below-change, sum_below-zero, list_sum,
}
use enki_ts.Scheduler.{
  Partition, Event, executed, executed_pinned, completed, pre_complete, post_complete,
  suspend_start, suspend_stop, wait_start, wait_stop,
}
use enki_ts.Scheduler.Split.{weight, sum_range, sum_range-split}
use enki_ts.Scheduler.Work.{event_weight}

-- `m_pPartialSums` and `m_NumPartialSums`.
pub record PartialSums : Type 0 where
  pub count : ℕ → ℕ
  pub num : ℕ

-- Init.
abbrev pub init : ℕ → PartialSums
init num = record { count = λ i. 0; num = num }

-- The loop of ExecuteRange, with `left` rounds to go.
unfoldable pub sum_loop : ℕ → ℕ → ℕ → ℕ
sum_loop zero i sum = sum
sum_loop (suc left) i sum = sum_loop left (i + 1) ((sum + (i + 1)) % 2 ^ 64)

-- ParallelSumTaskSet::ExecuteRange.
abbrev pub execute_range : Partition → ℕ → PartialSums → PartialSums
execute_range range thread s = record s {
  count = update s.count thread (sum_loop (range.end - range.start) range.start (s.count thread));
}

-- The loop of ParallelReductionSumTaskSet::ExecuteRange, and all of it, from `final`.
unfoldable pub reduce_loop : ℕ → ℕ → (ℕ → ℕ) → ℕ → ℕ
reduce_loop zero i count final = final
reduce_loop (suc left) i count final = reduce_loop left (i + 1) count ((final + count i) % 2 ^ 64)

abbrev pub reduce : PartialSums → ℕ → ℕ
reduce s final = reduce_loop s.num 0 s.count final

-- The partial sums after the calls of ExecuteRange in a log of the scheduler, for the task set `t`.
unfoldable pub sums : ℕ → ℕ → List Event → PartialSums
sums t num [] = init num
sums t num (executed t' range thread ∷ log) =
    let before = sums t num log in if t' == t then execute_range range thread before else before
sums t num (_ ∷ log) = sums t num log

-- The calls were made by threads that have a partial sum.
unfoldable pub InBounds : ℕ → ℕ → List Event → Type 0
InBounds t num [] = Unit {0}
InBounds t num (executed t' range thread ∷ log) = (t' ≡ t → thread < num) × InBounds t num log
InBounds t num (_ ∷ log) = InBounds t num log

-- What is summed for an index.
abbrev pub term : ℕ → ℕ
term i = i + 1

sum_loop-sum :
    (left i sum : ℕ) → sum_loop left i sum % 2 ^ 64 ≡ (sum + sum_range term i left) % 2 ^ 64
unfolding sum_loop sum_range
sum_loop-sum zero i sum = omega arith
sum_loop-sum (suc left) i sum =
    let rest = sum_loop-sum left (i + 1) ((sum + (i + 1)) % 2 ^ 64) in omega (arith, rest)

-- The sum is below 2 ^ 64 at every step.
sum_loop-small : (left i sum : ℕ) → sum < 2 ^ 64 → sum_loop left i sum < 2 ^ 64
unfolding sum_loop
sum_loop-small zero i sum h = h
sum_loop-small (suc left) i sum h =
    sum_loop-small left (i + 1) ((sum + (i + 1)) % 2 ^ 64) (omega arith)

reduce_loop-sum :
    (left i : ℕ) (count : ℕ → ℕ) (final : ℕ)
    → reduce_loop left i count final % 2 ^ 64 ≡ (final + sum_range count i left) % 2 ^ 64
unfolding reduce_loop sum_range
reduce_loop-sum zero i count final = omega arith
reduce_loop-sum (suc left) i count final =
    let rest = reduce_loop-sum left (i + 1) count ((final + count i) % 2 ^ 64) in
    omega (arith, rest)

reduce_loop-small :
    (left i : ℕ) (count : ℕ → ℕ) (final : ℕ)
    → final < 2 ^ 64
    → reduce_loop left i count final < 2 ^ 64
unfolding reduce_loop
reduce_loop-small zero i count final h = h
reduce_loop-small (suc left) i count final h =
    reduce_loop-small left (i + 1) count ((final + count i) % 2 ^ 64) (omega arith)

sum_range-sum_below : (n : ℕ) (f : ℕ → ℕ) → sum_range f 0 n ≡ sum_below n f
unfolding sum_range sum_below
sum_range-sum_below zero f = refl
sum_range-sum_below (suc n) f =
    omega (
      arith,
      sum_range-split f 0 n n 1 (suc n) (omega arith) (omega arith),
      sum_range-sum_below n f,
    )

-- One call of ExecuteRange adds what it sums, up to multiples of 2 ^ 64.
execute_range-sum :
    (num : ℕ) (range : Partition) (thread : ℕ) (s : PartialSums) (total : ℕ)
    → thread < num
    → sum_below num s.count % 2 ^ 64 ≡ total % 2 ^ 64
    → sum_below num (execute_range range thread s).count % 2 ^ 64
      ≡ (weight term range + total) % 2 ^ 64
unfolding weight
execute_range-sum num range thread s total h e =
    let left = range.end - range.start in
    let change =
      sum_below-change num thread s.count (execute_range range thread s).count h
        (λ j ne. ground arith) in
    let here : (execute_range range thread s).count thread
        ≡ sum_loop left range.start (s.count thread) =
      ground arith in
    let loop = sum_loop-sum left range.start (s.count thread) in
    omega (arith, change, here, loop, e)

sums-num : (t num : ℕ) (log : List Event) → (sums t num log).num ≡ num
unfolding sums
sums-num t num [] = refl
sums-num t num (executed t' range thread ∷ log) = elim (Bool-cases (t' == t)) [
  | inl it ↦ rw it (sums-num t num log)
  | inr other ↦ rw other (sums-num t num log)
]
sums-num t num (executed_pinned u thread ∷ log) = sums-num t num log
sums-num t num (completed u ∷ log) = sums-num t num log
sums-num t num (pre_complete u thread ∷ log) = sums-num t num log
sums-num t num (post_complete u thread ∷ log) = sums-num t num log
sums-num t num (suspend_start u ∷ log) = sums-num t num log
sums-num t num (suspend_stop u ∷ log) = sums-num t num log
sums-num t num (wait_start u ∷ log) = sums-num t num log
sums-num t num (wait_stop u ∷ log) = sums-num t num log

sums-total :
    (t num : ℕ) (log : List Event)
    → InBounds t num log
    → sum_below num (sums t num log).count % 2 ^ 64 ≡ list_sum (event_weight term t) log % 2 ^ 64
unfolding sums InBounds list_sum
sums-total t num [] ok = omega (arith, sum_below-zero num (λ i. 0) (λ j h. refl))
sums-total t num (executed t' range thread ∷ log) (bound, ok) = elim (Bool-cases (t' == t)) [
  | inl it ↦ rw it (
      execute_range-sum num range thread (sums t num log) (list_sum (event_weight term t) log)
        (bound (ground arith)) (sums-total t num log ok))
  | inr other ↦ rw other (omega (arith, sums-total t num log ok))
]
sums-total t num (executed_pinned u thread ∷ log) ok = omega (arith, sums-total t num log ok)
sums-total t num (completed u ∷ log) ok = omega (arith, sums-total t num log ok)
sums-total t num (pre_complete u thread ∷ log) ok = omega (arith, sums-total t num log ok)
sums-total t num (post_complete u thread ∷ log) ok = omega (arith, sums-total t num log ok)
sums-total t num (suspend_start u ∷ log) ok = omega (arith, sums-total t num log ok)
sums-total t num (suspend_stop u ∷ log) ok = omega (arith, sums-total t num log ok)
sums-total t num (wait_start u ∷ log) ok = omega (arith, sums-total t num log ok)
sums-total t num (wait_stop u ∷ log) ok = omega (arith, sums-total t num log ok)

-- The serial sum of the example: one call over all indexes, with one partial sum.
abbrev pub serial_sum : ℕ → ℕ
serial_sum set_size = (execute_range (record { start = 0; end = set_size }) 0 (init 1)).count 0

-- Where a log has calls of ExecuteRange that execute each index of the task set once, in whatever ranges
-- and order, by threads that have a partial sum each, the reduction over the partial sums gives the
-- sum that a single serial call of ExecuteRange gives.
pub reduce-serial_sum :
    (t num size : ℕ) (log : List Event)
    → ((w : ℕ → ℕ) → list_sum (event_weight w t) log ≡ weight w (record { start = 0; end = size }))
    → InBounds t num log
    → reduce (sums t num log) 0 ≡ serial_sum size
unfolding weight
reduce-serial_sum t num size log once bounds =
    let total = sums-total t num log bounds in
    let all = once term in
    let n = (sums t num log).num in
    let c = (sums t num log).count in
    let left = reduce_loop-sum n 0 c 0 in
    let left_small = reduce_loop-small n 0 c 0 (omega arith) in
    let cells = sum_range-sum_below n c in
    let same = ap (λ k. sum_below k c) (sums-num t num log) in
    let right = sum_loop-sum (size - 0) 0 0 in
    let right_small = sum_loop-small (size - 0) 0 0 (omega arith) in
    omega (arith, left, left_small, cells, same, total, all, right, right_small)
