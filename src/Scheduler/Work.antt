-- ===== src/Scheduler/Work.antt =====
-- How much of a task the scheduler holds: what its pipes still hold and what it has executed.
use enki_ts.Base.{
  ℕ, ◌+◌, ◌<◌, ◌≡◌, List, arith, ◌==◌, if◌then◌else◌, update, sum_below, sum_below-change, list_sum,
}
use enki_ts.Scheduler.{SubTaskSet, Event, executed, Scheduler, priority_num}
use enki_ts.Scheduler.Split.{weight}
use enki_ts.Scheduler.Add.{set_pipe}

abbrev pub sub_weight : (ℕ → ℕ) → ℕ → SubTaskSet → ℕ
sub_weight w t sub = if sub.task == t then weight w sub.partition else 0

abbrev pub event_weight : (ℕ → ℕ) → ℕ → Event → ℕ
event_weight w t (executed t' p thread) = if t' == t then weight w p else 0
event_weight w t _ = 0

-- The sum of a measure over all that the pipes hold.
abbrev pub queued : (SubTaskSet → ℕ) → Scheduler → ℕ
queued m s =
    sum_below priority_num
      (λ priority. sum_below s.num_threads (λ thread. list_sum m (s.pipes priority thread)))

-- The indexes of task `t` that were executed or that a pipe holds, each counted by `w`.
abbrev pub work : (ℕ → ℕ) → ℕ → Scheduler → ℕ
work w t s = list_sum (event_weight w t) s.log + queued (sub_weight w t) s

-- The number of pieces of task `t` that the pipes hold.
abbrev pub is_piece : ℕ → SubTaskSet → ℕ
is_piece t sub = if sub.task == t then 1 else 0

abbrev pub pieces : ℕ → Scheduler → ℕ
pieces t s = queued (is_piece t) s

-- What a write to one pipe changes.
pub queued-set_pipe :
    (m : SubTaskSet → ℕ) (priority thread : ℕ) (q : List SubTaskSet) (s : Scheduler)
    → priority < priority_num
    → thread < s.num_threads
    → queued m (set_pipe priority thread q s) + list_sum m (s.pipes priority thread)
      ≡ queued m s + list_sum m q
queued-set_pipe m priority thread q s hp ht = ground (
  arith,
  sum_below-change priority_num priority row row' hp (λ j ne. ground arith),
  sum_below-change s.num_threads thread (λ t. list_sum m (s.pipes priority t))
      (λ t. list_sum m (update (s.pipes priority) thread q t)) ht (λ j ne. ground arith),
)
  where
    row : ℕ → ℕ
    row p = sum_below s.num_threads (λ t. list_sum m (s.pipes p t))

    row' : ℕ → ℕ
    row' p = sum_below s.num_threads (λ t. list_sum m ((set_pipe priority thread q s).pipes p t))
