-- ===== src/Scheduler/Split.antt =====
-- src/TaskScheduler.cpp, SplitTask, and the measure of the indexes of a partition.
use enki_ts.Base.{ℕ, zero, suc, ◌+◌, ◌-◌, ◌^◌, ◌≤◌, ◌<◌, ◌≡◌, refl, ap₂, arith, min}
use enki_ts.Scheduler.{Partition, SubTaskSet, add32, sub32}

-- The part that is split off, and `subTask_` after the call.
unfoldable pub split_task : SubTaskSet → ℕ → SubTaskSet × SubTaskSet
split_task sub range_to_split =
    let p = sub.partition in
    let range_left = sub32 p.end p.start in
    let middle = add32 p.start (min range_to_split range_left) in
    (
      record sub { partition = record p { end = middle } },
      record sub { partition = record p { start = middle } },
    )

-- A partition in order, as the code makes them.
pub record IsRange (p : Partition) : Type 0 where
  pub ordered : p.start ≤ p.end
  pub in_word : p.end < 2 ^ 32

-- The sum of a measure over the indexes from `a` on, `n` of them; over a partition.
unfoldable pub sum_range : (ℕ → ℕ) → ℕ → ℕ → ℕ
sum_range w a zero = 0
sum_range w a (suc n) = w a + sum_range w (a + 1) n

unfoldable pub weight : (ℕ → ℕ) → Partition → ℕ
weight w p = sum_range w p.start (p.end - p.start)

pub sum_range-split :
    (w : ℕ → ℕ) (a b m n k : ℕ)
    → m + n ≡ k
    → a + m ≡ b
    → sum_range w a m + sum_range w b n ≡ sum_range w a k
unfolding sum_range
sum_range-split w a b zero n k e f =
    let e' : n ≡ k = omega arith in
    let f' : b ≡ a = omega arith in omega (arith, ap₂ (sum_range w) f' e')
sum_range-split w a b (suc m) n zero e f = absurd (omega arith)
sum_range-split w a b (suc m) n (suc k) e f =
    omega (arith, sum_range-split w (a + 1) b m n k (omega arith) (omega arith))

-- SplitTask cuts a partition in two at the point where the first part has `rangeToSplit_` indexes,
-- or all that there are: the two parts are ranges of the same task and have together just the indexes of the
-- whole, whatever an index is counted as.
pub split_task_lem :
    (sub : SubTaskSet) (n : ℕ) (w : ℕ → ℕ)
    → IsRange sub.partition
    → let (first, rest) = split_task sub n in
      (first.task ≡ sub.task)
      × (rest.task ≡ sub.task)
      × (first.partition.start ≡ sub.partition.start)
      × (first.partition.end ≡ rest.partition.start)
      × (rest.partition.end ≡ sub.partition.end)
      × (first.partition.end - first.partition.start
          ≡ min n (sub.partition.end - sub.partition.start))
      × IsRange first.partition
      × IsRange rest.partition
      × (weight w first.partition + weight w rest.partition ≡ weight w sub.partition)
unfolding split_task weight
split_task_lem sub n w r =
    let p = sub.partition in
    let middle : add32 p.start (min n (sub32 p.end p.start)) ≡ p.start + min n (p.end - p.start) =
      omega (arith, r.ordered, r.in_word) in
    rw middle (
      refl,
      refl,
      refl,
      refl,
      refl,
      omega arith,
      record { ordered = omega arith; in_word = omega (arith, r.ordered, r.in_word) },
      record { ordered = omega (arith, r.ordered); in_word = r.in_word },
      sum_range-split w p.start (p.start + min n (p.end - p.start))
          (p.start + min n (p.end - p.start) - p.start)
          (p.end - (p.start + min n (p.end - p.start))) (p.end - p.start) (omega (arith, r.ordered))
          (omega arith),
    )

-- Two partitions end to end.
pub weight-tiles :
    (w : ℕ → ℕ) (a b c : ℕ)
    → a ≤ b
    → b ≤ c
    → weight w (record { start = a; end = b }) + weight w (record { start = b; end = c })
      ≡ weight w (record { start = a; end = c })
unfolding weight
weight-tiles w a b c h k = sum_range-split w a b (b - a) (c - b) (c - a) (omega arith) (omega arith)

-- SplitTask on numbers that do not wrap.
pub split_task-eq :
    (sub : SubTaskSet) (n : ℕ)
    → IsRange sub.partition
    → let p = sub.partition in
      let middle = p.start + min n (p.end - p.start) in
      split_task sub n ≡ (
        record sub { partition = record { start = p.start; end = middle } },
        record sub { partition = record { start = middle; end = p.end } },
      )
unfolding split_task
split_task-eq sub n r =
    let p = sub.partition in
    let middle : add32 p.start (min n (sub32 p.end p.start)) ≡ p.start + min n (p.end - p.start) =
      omega (arith, r.ordered, r.in_word) in
    rw middle

pub weight-empty : (w : ℕ → ℕ) (p : Partition) → p.start ≡ p.end → weight w p ≡ 0
unfolding weight sum_range
weight-empty w p e = let none_left : p.end - p.start ≡ 0 = omega arith in rw none_left

sum_range-one : (a n : ℕ) → sum_range (λ i. 1) a n ≡ n
unfolding sum_range
sum_range-one a zero = refl
sum_range-one a (suc n) = omega (arith, sum_range-one (a + 1) n)

-- The number of indexes of a partition.
pub weight-one : (p : Partition) → weight (λ i. 1) p ≡ p.end - p.start
unfolding weight
weight-one p = sum_range-one p.start (p.end - p.start)
