-- ===== src/Scheduler/Drain.antt =====
-- src/TaskScheduler.cpp, WaitforTask on a task set whose pieces all wait in the pipe of the thread that
-- waits: it runs them one by one until the task is complete.
pub mod Rounds
pub mod Adding
pub mod Piece
pub mod Queue
pub mod Miss
pub mod Round
pub mod Loop
pub mod Launch
pub mod Complete
use enki_ts.Base.{ℕ, ◌+◌, ◌≤◌, ◌<◌, ◌≡◌, ◌≢◌, ◌⊎◌, List, [], ◌∷◌, ◌++◌, list_sum}
use enki_ts.Scheduler.{SubTaskSet, Scheduler, Run, done, blocked, out_of_fuel}
use enki_ts.Scheduler.Split.{IsRange}
use enki_ts.Scheduler.Work.{event_weight}

-- A piece of the task `t` with an index in it; a list of such.
pub record Good (t : ℕ) (x : SubTaskSet) : Type 0 where
  pub same_task : x.task ≡ t
  pub is_range : IsRange x.partition
  pub some_index : x.partition.start < x.partition.end

abbrev pub AllGood : ℕ → List SubTaskSet → Type 0
AllGood t [] = Unit {0}
AllGood t (x ∷ xs) = Good t x × AllGood t xs

-- The number of indexes of the task `t` that were executed.
abbrev pub executed_size : ℕ → Scheduler → ℕ
executed_size t s = list_sum (event_weight (λ i. 1) t) s.log

-- What a thread that works on task `t`, of the given priority, leaves alone: all pipes but its own of
-- that priority, the pinned lists, and what was executed before. Its own pipe stays good.
pub record Frame (thread priority t : ℕ) (s s' : Scheduler) : Type 0 where
  pub others : (p u : ℕ) → (p ≢ priority) ⊎ (u ≢ thread) → s'.pipes p u ≡ s.pipes p u
  pub same_pinned : s'.pinned ≡ s.pinned
  pub same_running : s'.is_running ≡ s.is_running
  pub good : AllGood t (s.pipes priority thread) → AllGood t (s'.pipes priority thread)
  pub grows : executed_size t s ≤ executed_size t s'

-- A run that leaves a state with the property, if it ends.
abbrev pub Leaves : {A : Type 0} → (A → Scheduler → Type 0) → Run A → Type 0
Leaves P (done a s) = P a s
Leaves P blocked = Unit {0}
Leaves P out_of_fuel = Unit {0}
